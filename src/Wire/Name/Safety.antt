-- ===== src/Wire/Name/Safety.antt =====
-- The end of `decode_name` of app/dnscore/wire.py, and the bounds of what it returns.
use nova_dns.Prelude.{
  ℕ, zero, suc, ◌+◌, ◌*◌, ◌%◌, ◌≤◌, ◌<◌, ◌≡◌, ◌≢◌, Option, none, List, [], arith, length, Result,
  ok, err, out_of_fuel, ◌>>=◌,
}
use nova_dns.Text.{Text}
use nova_dns.Wire.Name.{Bytes, Walk, decode_loop, decode_name, walk_result}
use nova_dns.Wire.Name.Steps.{
  truncated, end, label, cut, jump, meets, lt_of_get_elem?, decode_loop-truncated, decode_loop-end,
  decode_loop-label, decode_loop-loop, decode_loop-cut, decode_loop-jump,
}
use nova_dns.Wire.Name.Grammar.{NameAt, root, more, pointer, decode_name_iff_NameAt}

decode_loop_ends :
    (msg : Bytes) (jumps fuel offset : ℕ) (resume : Option ℕ) (labels : List Text)
    → length msg < offset + fuel
    → 0 < fuel
    → decode_loop msg jumps fuel offset resume labels ≢ err out_of_fuel
decode_loop_ends msg zero zero o r ls h p = elim p [ ]
decode_loop_ends msg (suc j) zero o r ls h p = elim p [ ]
decode_loop_ends msg zero (suc f) o r ls h p = elim (meets msg o) [
  | truncated e ↦ rw (decode_loop-truncated msg f o r ls zero e) (λ x. cc)
  | end e ↦ rw (decode_loop-end msg f o r ls zero e) (λ x. cc)
  | label len e l ↦ rw (decode_loop-label msg f o r ls zero len e l) (
      decode_loop_ends msg zero f (o + 1 + len) r _ (omega arith)
        (omega (arith, lt_of_get_elem? msg o e)))
  | cut len e q g ↦ rw (decode_loop-loop msg f o r ls len e q) (λ x. cc)
  | jump len low e q g ↦ rw (decode_loop-loop msg f o r ls len e q) (λ x. cc)
]
decode_loop_ends msg (suc j) (suc f) o r ls h p = elim (meets msg o) [
  | truncated e ↦ rw (decode_loop-truncated msg f o r ls (suc j) e) (λ x. cc)
  | end e ↦ rw (decode_loop-end msg f o r ls (suc j) e) (λ x. cc)
  | label len e l ↦ rw (decode_loop-label msg f o r ls (suc j) len e l) (
      decode_loop_ends msg (suc j) f (o + 1 + len) r _ (omega arith)
        (omega (arith, lt_of_get_elem? msg o e)))
  | cut len e q g ↦ rw (decode_loop-cut msg f o r ls j len e q g) (λ x. cc)
  | jump len low e q g ↦ rw (decode_loop-jump msg f o r ls j len low e q g) (
      decode_loop_ends msg j (suc (length msg)) (len % 64 * 256 + low) _ ls (omega arith)
        (omega arith))
]

walk_ends :
    (r : Result Walk) → r ≢ err out_of_fuel → (r >>= λ w. ok (walk_result w)) ≢ err out_of_fuel
walk_ends (ok w) h = λ x. cc
walk_ends (err e) h = λ x. h (ground arith)

-- Decoding a name ends with a name or with the program's own error, at every offset of every
-- message: pointers that point at each other included.
pub decode_name_ends : (msg : Bytes) (offset : ℕ) → decode_name msg offset ≢ err out_of_fuel
unfolding decode_name
decode_name_ends msg o =
    walk_ends _ (decode_loop_ends msg 128 (suc (length msg)) o none [] (omega arith) (omega arith))

NameAt-bounds :
    {msg : Bytes} {j o : ℕ} {ls : List Text} {after : ℕ}
    → NameAt msg j o ls after
    → (o < after) × (after ≤ length msg)
NameAt-bounds {msg} (root {o = o} e) = omega (arith, lt_of_get_elem? msg o e)
NameAt-bounds (more len e l n) = omega (arith, NameAt-bounds n)
NameAt-bounds {msg} (pointer {o = o} len low e q g n) = omega (arith, lt_of_get_elem? msg (o + 1) g)

-- The offset behind a decoded name is further on, and within the message.
pub decode_name_bounds :
    (msg : Bytes) (o : ℕ) (name : Text) (after : ℕ)
    → decode_name msg o ≡ ok (name, after)
    → (o < after) × (after ≤ length msg)
decode_name_bounds msg o name after h =
    let (ls, n, named) = (decode_name_iff_NameAt msg o name after).0 h in NameAt-bounds n
