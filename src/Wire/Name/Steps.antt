-- ===== src/Wire/Name/Steps.antt =====
-- One round of the loop of `decode_name`, for each kind of byte that it can meet.
use nova_dns.Prelude.{
  ℕ, zero, suc, ◌+◌, ◌*◌, ◌/◌, ◌%◌, ◌<◌, ◌≡◌, ◌≢◌, Option, none, some, List, [], ◌∷◌, ◌++◌, arith,
  length, get_elem?, Option-cases, inl, inr, ok, err, dns_error,
}
use native.Mathlib.Decide.{ℕ_discrete}
use nova_dns.Text.{Text}
use nova_dns.Wire.Name.{Bytes, slice, decode_ascii, decode_loop, on_jump}

-- The byte announces a label: neither the end nor a pointer.
pub record IsLabel (len : ℕ) : Type 0 where
  pub nonzero : len ≢ 0
  pub plain : len / 64 % 4 ≢ 3

pub lt_of_get_elem? {ℓ} :
    {A : Type ℓ} (xs : List A) (i : ℕ) {x : A} → get_elem? xs i ≡ some x → i < length xs
lt_of_get_elem? [] i h = cc
lt_of_get_elem? (x ∷ xs) zero h = omega arith
lt_of_get_elem? (x ∷ xs) (suc i) h = omega (arith, lt_of_get_elem? xs i h)

module _ (msg : Bytes) (fuel offset : ℕ) (resume : Option ℕ) (labels : List Text) where
  pub decode_loop-truncated :
      (jumps : ℕ)
      → get_elem? msg offset ≡ none
      → decode_loop msg jumps (suc fuel) offset resume labels ≡ err dns_error
  unfolding decode_loop
  decode_loop-truncated zero h = rw (h, decode_loop)
  decode_loop-truncated (suc j) h = rw (h, decode_loop)

  pub decode_loop-end :
      (jumps : ℕ)
      → get_elem? msg offset ≡ some 0
      → decode_loop msg jumps (suc fuel) offset resume labels
        ≡ ok (record { labels = labels; final = offset + 1; resume = resume })
  unfolding decode_loop
  decode_loop-end zero h = rw (h, decode_loop)
  decode_loop-end (suc j) h = rw (h, decode_loop)

  pub decode_loop-label :
      (jumps len : ℕ)
      → get_elem? msg offset ≡ some len
      → IsLabel len
      → decode_loop msg jumps (suc fuel) offset resume labels
        ≡ decode_loop msg jumps fuel
            (offset + 1 + len)
            resume
            (labels ++ decode_ascii (slice msg (offset + 1) len) ∷ [])
  unfolding decode_loop
  decode_loop-label zero len h l = ground (arith, l.nonzero, l.plain)
  decode_loop-label (suc j) len h l = ground (arith, l.nonzero, l.plain)

  pub decode_loop-loop :
      (len : ℕ)
      → get_elem? msg offset ≡ some len
      → len / 64 % 4 ≡ 3
      → decode_loop msg zero (suc fuel) offset resume labels ≡ err dns_error
  unfolding decode_loop
  decode_loop-loop len h p = ground arith

  pub decode_loop-cut :
      (jumps len : ℕ)
      → get_elem? msg offset ≡ some len
      → len / 64 % 4 ≡ 3
      → get_elem? msg (offset + 1) ≡ none
      → decode_loop msg (suc jumps) (suc fuel) offset resume labels ≡ err dns_error
  unfolding decode_loop
  decode_loop-cut j len h p g = ground arith

  pub decode_loop-jump :
      (jumps len low : ℕ)
      → get_elem? msg offset ≡ some len
      → len / 64 % 4 ≡ 3
      → get_elem? msg (offset + 1) ≡ some low
      → decode_loop msg (suc jumps) (suc fuel) offset resume labels
        ≡ decode_loop msg jumps
            (suc (length msg))
            (len % 64 * 256 + low)
            (on_jump resume (offset + 2))
            labels
  unfolding decode_loop
  decode_loop-jump j len low h p g = ground arith

-- What the loop meets at an offset.
pub data Meets (msg : Bytes) (offset : ℕ) : Type 0 where
  truncated : get_elem? msg offset ≡ none → Meets msg offset
  end : get_elem? msg offset ≡ some 0 → Meets msg offset
  label : (len : ℕ) → get_elem? msg offset ≡ some len → IsLabel len → Meets msg offset
  cut :
      (len : ℕ)
      → get_elem? msg offset ≡ some len
      → len / 64 % 4 ≡ 3
      → get_elem? msg (offset + 1) ≡ none
      → Meets msg offset
  jump :
      (len low : ℕ)
      → get_elem? msg offset ≡ some len
      → len / 64 % 4 ≡ 3
      → get_elem? msg (offset + 1) ≡ some low
      → Meets msg offset

Meets-pointer :
    (msg : Bytes) (offset len : ℕ)
    → get_elem? msg offset ≡ some len
    → len / 64 % 4 ≡ 3
    → Meets msg offset
Meets-pointer msg offset len h p = elim (Option-cases (get_elem? msg (offset + 1))) [
  | inl gone ↦ cut len h p gone
  | inr (low, there) ↦ jump len low h p there
]

Meets-byte : (msg : Bytes) (offset len : ℕ) → get_elem? msg offset ≡ some len → Meets msg offset
Meets-byte msg offset zero h = end h
Meets-byte msg offset (suc n) h = elim (ℕ_discrete (suc n / 64 % 4) 3) [
  | yes p ↦ Meets-pointer msg offset (suc n) h p
  | no p ↦ label (suc n) h (record { nonzero = omega arith; plain = p })
]

pub meets : (msg : Bytes) (offset : ℕ) → Meets msg offset
meets msg offset = elim (Option-cases (get_elem? msg offset)) [
  | inl gone ↦ truncated gone
  | inr (len, there) ↦ Meets-byte msg offset len there
]
