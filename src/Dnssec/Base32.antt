-- ===== src/Dnssec/Base32.antt =====
-- `base32hex_encode` and `base32hex_decode` of app/dnscore/dnssec.py. A string of "0" and "1" is a
-- list of the numbers 0 and 1.
pub mod RoundTrip
use nova_dns.Prelude.{
  ℕ, zero, suc, ◌+◌, ◌-◌, ◌*◌, ◌/◌, ◌%◌, Bool, Option, none, some, List, [], ◌∷◌, ◌++◌, map, ltb,
  leb, ◌==◌, ◌&&◌, if◌then◌else◌, length, take, replicate, get_or, Result, ok, err, ◌>>=◌,
  value_error,
}
use nova_dns.Text.{Text}
use nova_dns.Wire.Types.{codes}
use nova_dns.Wire.Name.{Bytes}

abbrev pub alphabet : Text
alphabet = codes "0123456789ABCDEFGHIJKLMNOPQRSTUV"

-- f"{b:08b}"
unfoldable pub bits8 : ℕ → List ℕ
bits8 b =
    b / 128 % 2
    ∷ b / 64 % 2
    ∷ b / 32 % 2
    ∷ b / 16 % 2
    ∷ b / 8 % 2
    ∷ b / 4 % 2
    ∷ b / 2 % 2
    ∷ b % 2
    ∷ []

-- f"{v:05b}"
unfoldable pub bits5 : ℕ → List ℕ
bits5 v = v / 16 % 2 ∷ v / 8 % 2 ∷ v / 4 % 2 ∷ v / 2 % 2 ∷ v % 2 ∷ []

unfoldable pub bits_of : Bytes → List ℕ
unfolding bits8
bits_of [] = []
bits_of (b ∷ bs) = bits8 b ++ bits_of bs

-- int(bits[i:i + 5], 2) for each group; the padding leaves no shorter one
unfoldable pub groups5 : List ℕ → List ℕ
groups5 (a ∷ b ∷ c ∷ d ∷ e ∷ s) = (a * 16 + b * 8 + c * 4 + d * 2 + e) ∷ groups5 s
groups5 _ = []

-- the same for bytes
unfoldable pub groups8 : List ℕ → Bytes
groups8 (a ∷ b ∷ c ∷ d ∷ e ∷ f ∷ g ∷ h ∷ s) =
    (a * 128 + b * 64 + c * 32 + d * 16 + e * 8 + f * 4 + g * 2 + h) ∷ groups8 s
groups8 _ = []

unfoldable pub pad5 : List ℕ → List ℕ
pad5 bits = bits ++ replicate ((5 - length bits % 5) % 5) 0

unfoldable pub base32hex_encode : Bytes → Text
unfolding bits_of pad5 groups5
base32hex_encode bytes = map (λ v. get_or alphabet v 0) (groups5 (pad5 (bits_of bytes)))

-- _BASE32HEX_ALPHABET.index(c)
unfoldable pub index_from : ℕ → Text → ℕ → Option ℕ
index_from i [] c = none
index_from i (d ∷ s) c = let rest = index_from (i + 1) s c in if d == c then some i else rest

unfoldable pub to_upper : ℕ → ℕ
to_upper c = if leb 97 c && leb c 122 then c - 32 else c

unfoldable pub symbol_bits : Text → Result (List ℕ)
symbol_bits [] = ok []
symbol_bits (c ∷ s) = elim (index_from 0 alphabet (to_upper c)) [
  | none ↦ err value_error
  | some v ↦ do rest ← symbol_bits s; ok (bits5 v ++ rest)
]

unfoldable pub base32hex_decode : Text → Result Bytes
unfolding symbol_bits groups8 index_from to_upper bits5
base32hex_decode s = do
  bits ← symbol_bits s
  ok (groups8 (take (length bits - length bits % 8) bits))
