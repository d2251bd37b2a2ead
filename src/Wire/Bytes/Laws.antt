-- ===== src/Wire/Bytes/Laws.antt =====
-- What is packed is unpacked, and hexadecimal text is read back.
use nova_dns.Prelude.{
  ℕ, zero, suc, ◌/◌, ◌%◌, ◌<◌, ◌≡◌, refl, false, some, [], ◌∷◌, ◌++◌, arith, drop, ok, lt→ltb, ap,
}
use nova_dns.Prelude.Int.{pos}
use nova_dns.Wire.Name.{Bytes}
use nova_dns.Wire.Bytes.{
  pack8, pack16, pack32, unpack8, unpack16, unpack32, hex, hex_digit, hex_value, from_hex, is_space,
  both, two_bytes,
}

abbrev pub be16 : ℕ → Bytes
be16 n = n / 256 ∷ n % 256 ∷ []

abbrev pub be32 : ℕ → Bytes
be32 n = n / 16777216 ∷ n / 65536 % 256 ∷ n / 256 % 256 ∷ n % 256 ∷ []

pub pack8_lem : (n : ℕ) → n < 256 → pack8 (pos n) ≡ ok (n ∷ [])
unfolding pack8
pack8_lem n h = rw (lt→ltb n 256 h)

pub pack16_lem : (n : ℕ) → n < 65536 → pack16 (pos n) ≡ ok (be16 n)
unfolding pack16
pack16_lem n h = rw (lt→ltb n 65536 h)

pub pack32_lem : (n : ℕ) → n < 4294967296 → pack32 (pos n) ≡ ok (be32 n)
unfolding pack32
pack32_lem n h = rw (lt→ltb n 4294967296 h)

module _ (msg : Bytes) (o n : ℕ) (rest : Bytes) where
  pub unpack8_lem : drop o msg ≡ n ∷ rest → unpack8 msg o ≡ ok n
  unfolding unpack8
  unpack8_lem h = rw (h, unpack8)

  pub unpack16_lem : drop o msg ≡ be16 n ++ rest → unpack16 msg o ≡ ok n
  unfolding unpack16
  unpack16_lem h = rw (h, unpack16) (ap ok (omega arith))

  pub unpack32_lem : drop o msg ≡ be32 n ++ rest → n < 4294967296 → unpack32 msg o ≡ ok n
  unfolding unpack32
  unpack32_lem h lt = rw (h, unpack32) (ap ok (omega arith))

-- Every element is a byte.
abbrev pub AllBytes : Bytes → Type 0
AllBytes [] = Unit
AllBytes (b ∷ bs) = (b < 256) × AllBytes bs

hex_value-hex_digit : (n : ℕ) → n < 16 → hex_value (hex_digit n) ≡ some n
unfolding hex_value hex_digit
hex_value-hex_digit n h = ground arith

is_space-hex_digit : (n : ℕ) → is_space (hex_digit n) ≡ false
unfolding is_space hex_digit
is_space-hex_digit n = ground arith

-- bytes.fromhex(b.hex()) is b.
pub from_hex-hex : (bs : Bytes) → AllBytes bs → from_hex (hex bs) ≡ ok bs
unfolding from_hex hex both
from_hex-hex [] h = refl
from_hex-hex (b ∷ bs) h =
    rw
      (
        is_space-hex_digit (b / 16),
        hex_value-hex_digit (b / 16) (omega (arith, h.0)),
        hex_value-hex_digit (b % 16) (omega arith),
        from_hex-hex bs h.1,
      )
      (ap (λ (k : ℕ). ok (k ∷ bs)) (omega arith))

-- Two bytes make a number of 16 bits.
pub unpack16-lt : (msg : Bytes) (o : ℕ) {n : ℕ} → AllBytes msg → unpack16 msg o ≡ ok n → n < 65536
unfolding unpack16 two_bytes
unpack16-lt [] zero h e = cc
unpack16-lt (x ∷ []) zero h e = cc
unpack16-lt (x ∷ y ∷ msg) zero h e = ground arith
unpack16-lt [] (suc o) h e = cc
unpack16-lt (x ∷ msg) (suc o) h e = unpack16-lt msg o h.1 e
