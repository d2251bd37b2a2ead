-- ===== src/Dnssec/Bitmap.antt =====
-- The type bitmap, and `build_nsec_rdata` and `build_nsec3_rdata` of app/dnscore/dnssec.py, which
-- both build it.
use Prim.Native.Nat.{bit_or}
use nova_dns.Prelude.{
  ℕ, ◌/◌, ◌%◌, ◌^◌, Bool, Option, none, some, List, [], ◌∷◌, ◌++◌, ltb, leb, ◌==◌, ◌&&◌,
  if◌then◌else◌, length, replicate, get_or, set, Result, ok, ◌>>=◌,
}
use nova_dns.Prelude.Int.{pos}
use nova_dns.Dict
use nova_dns.Sort.{sorted}
use nova_dns.Text.{Text, lower}
use nova_dns.Wire.Types.{qtype, number_of}
use nova_dns.Wire.Name.{Bytes, encode_name}
use nova_dns.Wire.Bytes.{pack8, pack16}
use nova_dns.Dnssec.Base32.{base32hex_decode}
use nova_dns.Dnssec.Names.{salt_bytes}

-- a number into an ascending list without repetition
add_number : ℕ → List ℕ → List ℕ
add_number n [] = n ∷ []
add_number n (m ∷ ms) =
    let rest = add_number n ms in
    if ltb n m then n ∷ m ∷ ms else if n == m then m ∷ ms else m ∷ rest

-- sorted({QTYPE[t] for t in type_names if t in QTYPE})
unfoldable pub type_nums : List Text → List ℕ
unfolding add_number number_of
type_nums [] = []
type_nums (t ∷ ts) = elim (number_of qtype t) [
  | none ↦ type_nums ts
  | some n ↦ add_number n (type_nums ts)
]

num_eq : ℕ → ℕ → Bool
num_eq a b = a == b

-- bitmap[bit // 8] |= 0x80 >> (bit % 8)
set_bit : ℕ → Bytes → Bytes
set_bit bit bitmap = set bitmap (bit / 8) (bit_or (get_or bitmap (bit / 8) 0) (128 / 2 ^ (bit % 8)))

window_of : ℕ → List (ℕ × Bytes) → Bytes
unfolding Dict.get num_eq
window_of w windows = elim (Dict.get num_eq w windows) [ none ↦ replicate 32 0 | some b ↦ b ]

fill_windows : List ℕ → List (ℕ × Bytes) → List (ℕ × Bytes)
unfolding set_bit window_of Dict.put num_eq
fill_windows [] windows = windows
fill_windows (n ∷ ns) windows =
    fill_windows ns
      (Dict.put num_eq (n / 256) (set_bit (n % 256) (window_of (n / 256) windows)) windows)

-- bitmap[:length], with the trailing zero bytes gone
trim_zeros : Bytes → Bytes
trim_zeros [] = []
trim_zeros (b ∷ bs) =
    let rest = trim_zeros bs in if length rest == 0 && b == 0 then [] else b ∷ rest

window_le : ℕ × Bytes → ℕ × Bytes → Bool
window_le (w, _) (v, _) = leb w v

write_windows : List (ℕ × Bytes) → Result Bytes
unfolding trim_zeros pack8
write_windows [] = ok []
write_windows ((w, b) ∷ ws) =
    let trimmed = trim_zeros b in
    let rest = write_windows ws in
    let written = (do
      b1 ← pack8 (pos w)
      b2 ← pack8 (pos (length trimmed))
      more ← rest
      ok (b1 ++ (b2 ++ (trimmed ++ more)))) in
    if length trimmed == 0 then rest else written

unfoldable pub type_bitmap : List Text → Result Bytes
unfolding type_nums fill_windows write_windows window_le sorted
type_bitmap type_names = write_windows (sorted window_le (fill_windows (type_nums type_names) []))

unfoldable pub build_nsec_rdata : (Text → Option Bytes) → Text → List Text → Result Bytes
unfolding encode_name lower type_bitmap
build_nsec_rdata idna next_owner_fqdn type_names = do
  next_wire ← encode_name idna (lower next_owner_fqdn)
  bitmap ← type_bitmap type_names
  ok (next_wire ++ bitmap)

unfoldable pub build_nsec3_rdata : Text → List Text → Text → ℕ → ℕ → Result Bytes
unfolding salt_bytes base32hex_decode type_bitmap pack8 pack16
build_nsec3_rdata next_hashed_owner_b32 type_names salt_hex iterations flags = do
  salt ← salt_bytes salt_hex
  next_owner ← base32hex_decode next_hashed_owner_b32
  bitmap ← type_bitmap type_names
  b1 ← pack8 (pos 1)
  b2 ← pack8 (pos flags)
  b3 ← pack16 (pos iterations)
  b4 ← pack8 (pos (length salt))
  b5 ← pack8 (pos (length next_owner))
  ok (b1 ++ (b2 ++ (b3 ++ (b4 ++ (salt ++ (b5 ++ (next_owner ++ bitmap)))))))
