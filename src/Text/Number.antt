-- ===== src/Text/Number.antt =====
-- Decimal texts: `str(n)`, `s.isdigit()` and `int(s)` on ASCII digits.
use nova_dns.Prelude.{
  ℕ, zero, suc, ◌+◌, ◌-◌, ◌*◌, ◌/◌, ◌%◌, ◌≤◌, ◌<◌, ◌≡◌, refl, ap, ◌∙◌, Bool, true, false, ◌&&◌, [],
  ◌∷◌, arith, ltb, leb, if◌then◌else◌, Bool-cases, inl, inr,
}
use nova_dns.Text.{Text}

unfoldable pub is_digit : ℕ → Bool
is_digit c = leb 48 c && leb c 57

pub all_digits : Text → Bool
unfolding is_digit
all_digits [] = true
all_digits (c ∷ s) = is_digit c && all_digits s

-- s.isdigit(): false on the empty text
unfoldable pub is_decimal : Text → Bool
unfolding all_digits
is_decimal [] = false
is_decimal (c ∷ s) = all_digits (c ∷ s)

pub digits_value : ℕ → Text → ℕ
digits_value n [] = n
digits_value n (c ∷ s) = digits_value (n * 10 + (c - 48)) s

-- int(s) of a text of digits
unfoldable pub int_of : Text → ℕ
unfolding digits_value
int_of s = digits_value 0 s

-- the digits of n in front of `rest`; fuel n + 1 is enough, since a division by ten shrinks n
pub digits_of : ℕ → ℕ → Text → Text
digits_of zero n rest = rest
digits_of (suc f) n rest =
    let more = digits_of f (n / 10) ((48 + n % 10) ∷ rest) in
    if ltb n 10 then (48 + n) ∷ rest else more

-- str(n)
unfoldable pub str_of : ℕ → Text
unfolding digits_of
str_of n = digits_of (suc n) n []

digits_value-digits_of :
    (f n : ℕ) (rest : Text) → n < f → digits_value 0 (digits_of f n rest) ≡ digits_value n rest
unfolding digits_value digits_of
digits_value-digits_of zero n rest h = elim h [ ]
digits_value-digits_of (suc f) n rest h = elim (Bool-cases (ltb n 10)) [
  | inl small ↦ rw small (ap (λ (k : ℕ). digits_value k rest) (last_digit n))
  | inr big ↦ rw big (
      digits_value-digits_of f (n / 10) ((48 + n % 10) ∷ rest) (ground arith)
      ∙ ap (λ (k : ℕ). digits_value k rest) (next_digit n))
]
  where
    last_digit : (n : ℕ) → 0 * 10 + (48 + n - 48) ≡ n
    last_digit n = omega arith

    next_digit : (n : ℕ) → n / 10 * 10 + (48 + n % 10 - 48) ≡ n
    next_digit n = omega arith

all_digits-digits_of :
    (f n : ℕ) (rest : Text)
    → n < f
    → all_digits rest ≡ true
    → all_digits (digits_of f n rest) ≡ true
unfolding all_digits digits_of is_digit
all_digits-digits_of zero n rest h d = elim h [ ]
all_digits-digits_of (suc f) n rest h d =
    ground (arith, all_digits-digits_of f (n / 10) ((48 + n % 10) ∷ rest))

-- The first character is a digit.
abbrev pub StartsWithDigit : Text → Type 0
StartsWithDigit [] = ⊥
StartsWithDigit (c ∷ s) = (48 ≤ c) × (c ≤ 57)

StartsWithDigit-digits_of : (f n : ℕ) (rest : Text) → n < f → StartsWithDigit (digits_of f n rest)
unfolding digits_of
StartsWithDigit-digits_of zero n rest h = elim h [ ]
StartsWithDigit-digits_of (suc f) n rest h = elim (Bool-cases (ltb n 10)) [
  | inl small ↦ rw small (ground arith)
  | inr big ↦ rw big (StartsWithDigit-digits_of f (n / 10) ((48 + n % 10) ∷ rest) (ground arith))
]

-- int(str(n)) is n.
pub int_of-str_of : (n : ℕ) → int_of (str_of n) ≡ n
unfolding int_of str_of digits_value
int_of-str_of n = digits_value-digits_of (suc n) n [] (omega arith)

pub StartsWithDigit-str_of : (n : ℕ) → StartsWithDigit (str_of n)
unfolding str_of
StartsWithDigit-str_of n = StartsWithDigit-digits_of (suc n) n [] (omega arith)

pub is_decimal_of_start : (s : Text) → StartsWithDigit s → all_digits s ≡ true → is_decimal s ≡ true
unfolding is_decimal
is_decimal_of_start [] h d = elim h [ ]
is_decimal_of_start (c ∷ s) h d = d

pub is_decimal-str_of : (n : ℕ) → is_decimal (str_of n) ≡ true
is_decimal-str_of n = is_decimal_of_start (str_of n) (StartsWithDigit-str_of n) (all_digits-str n)
  where
    all_digits-str : (n : ℕ) → all_digits (str_of n) ≡ true
    all_digits-str n =
        unfold str_of all_digits in all_digits-digits_of (suc n) n [] (omega arith) refl
