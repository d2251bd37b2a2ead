-- ===== src/Text/Order.antt =====
-- The order of Python's `str`, `bytes` and tuples of them: lexicographic.
use nova_dns.Prelude.{
  ◌≡◌, refl, Bool, true, false, not, ◌&&◌, ◌||◌, List, [], ◌∷◌, arith, ltb, ◌==◌,
}
use nova_dns.Text.{Text, text_eq}
use nova_dns.Text.Split.{text_eq_iff}

-- a < b
unfoldable pub text_lt : Text → Text → Bool
text_lt a [] = false
text_lt [] (y ∷ ys) = true
text_lt (x ∷ xs) (y ∷ ys) = ltb x y || (x == y && text_lt xs ys)

-- a <= b
abbrev pub text_le : Text → Text → Bool
text_le a b = not (text_lt b a)

-- a < b on tuples of texts
unfoldable pub tuple_lt : List Text → List Text → Bool
unfolding text_lt text_eq
tuple_lt a [] = false
tuple_lt [] (y ∷ ys) = true
tuple_lt (x ∷ xs) (y ∷ ys) = text_lt x y || (text_eq x y && tuple_lt xs ys)

-- a <= b on tuples of texts
abbrev pub tuple_le : List Text → List Text → Bool
tuple_le a b = not (tuple_lt b a)

pub text_lt_irrefl : (a : Text) → text_lt a a ≡ false
unfolding text_lt
text_lt_irrefl [] = refl
text_lt_irrefl (x ∷ xs) = ground (arith, text_lt_irrefl xs)

pub text_lt_trans : (a b c : Text) → text_lt a b ≡ true → text_lt b c ≡ true → text_lt a c ≡ true
unfolding text_lt
text_lt_trans a b [] p q = ground arith
text_lt_trans a [] (z ∷ zs) p q = ground arith
text_lt_trans [] (y ∷ ys) (z ∷ zs) p q = refl
text_lt_trans (x ∷ xs) (y ∷ ys) (z ∷ zs) p q = ground (arith, text_lt_trans xs ys zs)

-- Of two texts neither of which is below the other, the two are one.
pub text_lt_connected : (a b : Text) → text_lt a b ≡ false → text_lt b a ≡ false → a ≡ b
unfolding text_lt
text_lt_connected [] [] p q = refl
text_lt_connected [] (y ∷ ys) p q = cc
text_lt_connected (x ∷ xs) [] p q = cc
text_lt_connected (x ∷ xs) (y ∷ ys) p q = ground (arith, text_lt_connected xs ys)

pub tuple_lt_irrefl : (a : List Text) → tuple_lt a a ≡ false
unfolding tuple_lt
tuple_lt_irrefl [] = refl
tuple_lt_irrefl (x ∷ xs) = ground (arith, text_lt_irrefl x, tuple_lt_irrefl xs)

pub tuple_lt_trans :
    (a b c : List Text) → tuple_lt a b ≡ true → tuple_lt b c ≡ true → tuple_lt a c ≡ true
unfolding tuple_lt
tuple_lt_trans a b [] p q = ground arith
tuple_lt_trans a [] (z ∷ zs) p q = ground arith
tuple_lt_trans [] (y ∷ ys) (z ∷ zs) p q = refl
tuple_lt_trans (x ∷ xs) (y ∷ ys) (z ∷ zs) p q = ground (
  arith,
  tuple_lt_trans xs ys zs,
  text_lt_trans x y z,
  text_eq_iff x y,
  text_eq_iff y z,
  text_eq_iff x z,
)

pub tuple_lt_connected : (a b : List Text) → tuple_lt a b ≡ false → tuple_lt b a ≡ false → a ≡ b
unfolding tuple_lt
tuple_lt_connected [] [] p q = refl
tuple_lt_connected [] (y ∷ ys) p q = cc
tuple_lt_connected (x ∷ xs) [] p q = cc
tuple_lt_connected (x ∷ xs) (y ∷ ys) p q =
    ground
      (arith, tuple_lt_connected xs ys, text_lt_connected x y, text_eq_iff x y, text_eq_iff y x)
