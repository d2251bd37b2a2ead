-- ===== src/Dnssec/Base32/RoundTrip.antt =====
-- The round trip of base32hex in app/dnscore/dnssec.py.
use nova_dns.Prelude.{
  tested, tested-at, ℕ, zero, suc, ◌+◌, ◌-◌, ◌*◌, ◌/◌, ◌%◌, ◌<◌, ◌≡◌, refl, Bool, true, false, none,
  some, List, [], ◌∷◌, ◌++◌, map, arith, ◌==◌, length, take, take-length, replicate, length-append,
  length-replicate, get_or, ok, ap,
}
use nova_dns.Wire.Name.{Bytes}
use nova_dns.Wire.Bytes.Laws.{AllBytes}
use nova_dns.Dnssec.Base32.{
  alphabet, bits8, bits5, bits_of, groups5, groups8, pad5, base32hex_encode, index_from, to_upper,
  symbol_bits, base32hex_decode,
}

abbrev AllBits : List ℕ → Type 0
AllBits [] = Unit
AllBits (b ∷ s) = (b < 2) × AllBits s

groups8-bits_of : (bs : Bytes) → AllBytes bs → groups8 (bits_of bs) ≡ bs
unfolding groups8 bits_of
groups8-bits_of [] h = refl
groups8-bits_of (b ∷ bs) h =
    rw (groups8-bits_of bs h.1) (ap (λ (k : ℕ). k ∷ bs) (omega (arith, h.0)))

length-bits_of : (bs : Bytes) → length (bits_of bs) ≡ 8 * length bs
unfolding bits_of
length-bits_of [] = refl
length-bits_of (b ∷ bs) = omega (arith, length-bits_of bs)

AllBits-append : (s t : List ℕ) → AllBits s → AllBits t → AllBits (s ++ t)
AllBits-append [] t hs ht = ht
AllBits-append (b ∷ s) t hs ht = (hs.0, AllBits-append s t hs.1 ht)

AllBits-bits_of : (bs : Bytes) → AllBits (bits_of bs)
unfolding bits_of
AllBits-bits_of [] = tt
AllBits-bits_of (b ∷ bs) =
    AllBits-append (bits8 b) (bits_of bs) (unfold bits8 in omega arith) (AllBits-bits_of bs)

AllBits-zeros : (n : ℕ) → AllBits (replicate n 0)
AllBits-zeros zero = tt
AllBits-zeros (suc n) = (omega arith, AllBits-zeros n)

-- a symbol's index is its value
finds : ℕ → Bool
finds v = elim (index_from 0 alphabet (to_upper (get_or alphabet v 0))) [
  | none ↦ false
  | some i ↦ i == v
]

finds_table : tested finds 32 ≡ true
unfolding finds index_from to_upper
finds_table = refl

index-symbol : (v : ℕ) → v < 32 → index_from 0 alphabet (to_upper (get_or alphabet v 0)) ≡ some v
index-symbol v h = go (unfold finds in tested-at finds 32 v h finds_table)
  where
    go :
        (elim (index_from 0 alphabet (to_upper (get_or alphabet v 0))) [
          | none ↦ false
          | some i ↦ i == v
        ])
          ≡ true
        → index_from 0 alphabet (to_upper (get_or alphabet v 0)) ≡ some v
    go e = ground arith

bits5-lem :
    (a b c d g : ℕ) (s : List ℕ)
    → a < 2
    → b < 2
    → c < 2
    → d < 2
    → g < 2
    → ok (bits5 (a * 16 + b * 8 + c * 4 + d * 2 + g) ++ s) ≡ ok (a ∷ b ∷ c ∷ d ∷ g ∷ s)
unfolding bits5
bits5-lem a b c d g s h1 h2 h3 h4 h5 =
    let v = a * 16 + b * 8 + c * 4 + d * 2 + g in
    let e1 : v / 16 % 2 ≡ a = omega arith in
    let e2 : v / 8 % 2 ≡ b = omega arith in
    let e3 : v / 4 % 2 ≡ c = omega arith in
    let e4 : v / 2 % 2 ≡ d = omega arith in
    let e5 : v % 2 ≡ g = omega arith in cc (e1, e2, e3, e4, e5)

-- A string of bits in groups of five is read back from its symbols.
symbol_bits-groups5 :
    (f : ℕ) (s : List ℕ)
    → AllBits s
    → length s ≡ 5 * f
    → symbol_bits (map (λ v. get_or alphabet v 0) (groups5 s)) ≡ ok s
unfolding symbol_bits groups5
symbol_bits-groups5 zero [] h e = refl
symbol_bits-groups5 (suc f) (a ∷ b ∷ c ∷ d ∷ g ∷ s) h e =
    let v = a * 16 + b * 8 + c * 4 + d * 2 + g in
    rw
      (index-symbol v (omega arith), symbol_bits, symbol_bits-groups5 f s h.1.1.1.1.1 (omega arith))
      (bits5-lem a b c d g s (omega arith) (omega arith) (omega arith) (omega arith) (omega arith))
symbol_bits-groups5 f s h e = absurd (omega arith)

length-pad5 : (s : List ℕ) → (f : ℕ) × (length (pad5 s) ≡ 5 * f) × (length (pad5 s) - length s < 5)
unfolding pad5
length-pad5 s =
    let n = (5 - length s % 5) % 5 in
    let l = length-append s (replicate n 0) in
    let r = length-replicate {A = ℕ} n 0 in
    ((length s + n) / 5, omega (arith, l, r), omega (arith, l, r))

take-bits :
    (s : List ℕ) (n : ℕ)
    → length s ≡ 8 * n
    → take (length (pad5 s) - length (pad5 s) % 8) (pad5 s) ≡ s
unfolding pad5
take-bits s n h =
    let z = replicate ((5 - length s % 5) % 5) 0 in
    let e : length (s ++ z) - length (s ++ z) % 8 ≡ length s =
      omega (arith, length-append s z, length-replicate {A = ℕ} ((5 - length s % 5) % 5) 0) in
    rw e (take-length s z)

-- Any bytes, encoded to base32hex and decoded, are the same bytes.
pub base32hex_decode-encode :
    (bs : Bytes) → AllBytes bs → base32hex_decode (base32hex_encode bs) ≡ ok bs
unfolding base32hex_decode base32hex_encode
base32hex_decode-encode bs h =
    let s = bits_of bs in
    let (f, whole, short) = length-pad5 s in
    rw
      (
        symbol_bits-groups5 f (pad5 s)
            (unfold pad5 in AllBits-append s _ (AllBits-bits_of bs) (AllBits-zeros _)) whole,
        take-bits s (length bs) (length-bits_of bs),
      )
      (ap ok (groups8-bits_of bs h))
