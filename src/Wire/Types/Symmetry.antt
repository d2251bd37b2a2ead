-- ===== src/Wire/Types/Symmetry.antt =====
-- The round trip of type numbers and names in app/dnscore/wire.py.
use nova_dns.Prelude.{
  ℕ, String, ◌≡◌, refl, Bool, true, false, ◌&&◌, none, some, List, [], ◌∷◌, arith, ltb, ◌==◌,
  Option-cases, inl, inr,
}
use nova_dns.Text.{Text, text_eq}
use nova_dns.Text.Number.{
  StartsWithDigit, StartsWithDigit-str_of, is_decimal-str_of, int_of-str_of, str_of,
}
use nova_dns.Wire.Types.{codes, qtype, number_of, name_of, type_name, type_to_num}

-- Every name of `table` is looked up in `whole` to its own number.
entries_found : List (String × ℕ) → List (String × ℕ) → Bool
entries_found whole [] = true
entries_found whole ((k, v) ∷ table) =
    (elim (number_of whole (codes k)) [ none ↦ false | some n ↦ n == v ])
    && entries_found whole table

qtype_found : entries_found qtype qtype ≡ true
unfolding entries_found number_of text_eq
qtype_found = refl

number_of-name_of :
    (whole table : List (String × ℕ)) (n : ℕ) (name : Text)
    → entries_found whole table ≡ true
    → name_of table n ≡ some name
    → number_of whole name ≡ some n
unfolding entries_found name_of
number_of-name_of whole [] n name h e = cc
number_of-name_of whole ((k, v) ∷ table) n name h e =
    ground (arith, number_of-name_of whole table n name)

first_is_letter : Text → Bool
first_is_letter [] = true
first_is_letter (c ∷ s) = ltb 57 c

letters_only : List (String × ℕ) → Bool
letters_only [] = true
letters_only ((k, v) ∷ table) = first_is_letter (codes k) && letters_only table

qtype_letters : letters_only qtype ≡ true
unfolding letters_only first_is_letter
qtype_letters = refl

letter-ne-digit : (k s : Text) → first_is_letter k ≡ true → StartsWithDigit s → text_eq k s ≡ false
unfolding first_is_letter text_eq
letter-ne-digit [] (d ∷ s) h st = refl
letter-ne-digit (c ∷ k) (d ∷ s) h st = ground arith
letter-ne-digit k [] h st = elim st [ ]

number_of-digits :
    (table : List (String × ℕ)) (s : Text)
    → letters_only table ≡ true
    → StartsWithDigit s
    → number_of table s ≡ none
unfolding letters_only number_of
number_of-digits [] s h d = refl
number_of-digits ((k, v) ∷ table) s h d =
    ground (arith, letter-ne-digit (codes k) s, number_of-digits table s)

-- A type number that a message is decoded with is encoded back as the same number, whether or not
-- the table has a name for it.
pub type_to_num-type_name : (n : ℕ) → type_to_num (type_name n) ≡ n
unfolding type_to_num type_name
type_to_num-type_name n = elim (Option-cases (name_of qtype n)) [
  | inl unnamed ↦
      rw (unnamed, type_name)
        (rw
          (number_of-digits qtype (str_of n) qtype_letters (StartsWithDigit-str_of n), type_to_num)
          (rw (is_decimal-str_of n) (int_of-str_of n)))
  | inr (name, named) ↦
      rw (named, type_name)
        (rw (number_of-name_of qtype qtype n name qtype_found named, type_to_num))
]
