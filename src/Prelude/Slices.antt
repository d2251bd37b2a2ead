-- ===== src/Prelude/Slices.antt =====
-- What stands at an offset of a list: `get_elem?`, `take` and `drop` of a list with a known tail.
use nova_dns.Prelude.Lists.{length, get_elem?, take, drop}
use Prim.Native.Nat.{ℕ, zero, suc, ◌+◌}
use mathlib.Core.Path.{◌≡◌, refl, ap, ◌∙◌}
use mathlib.Core.List.{List, [], ◌∷◌, ◌++◌}
use mathlib.Core.Option.{some}
use native.Mathlib.Nat.{zero-add, suc-add}

module _ {ℓ} {A : Type ℓ} where
  pub drop-add : (a b : ℕ) (xs : List A) → drop (a + b) xs ≡ drop b (drop a xs)
  drop-add zero b xs = rw zero-add
  drop-add (suc a) zero [] = rw suc-add
  drop-add (suc a) (suc b) [] = rw suc-add
  drop-add (suc a) b (x ∷ xs) = rw suc-add (drop-add a b xs)

  pub drop-length : (xs ys : List A) → drop (length xs) (xs ++ ys) ≡ ys
  drop-length [] ys = refl
  drop-length (x ∷ xs) ys = drop-length xs ys

  pub take-length : (xs ys : List A) → take (length xs) (xs ++ ys) ≡ xs
  take-length [] ys = refl
  take-length (x ∷ xs) ys = ap (◌∷◌ x) (take-length xs ys)

  -- The element at an offset is the head of what is left there.
  pub get_elem?-drop :
      (o : ℕ) (xs : List A) {x : A} {ys : List A} → drop o xs ≡ x ∷ ys → get_elem? xs o ≡ some x
  get_elem?-drop zero [] h = cc
  get_elem?-drop zero (x ∷ xs) h = cc
  get_elem?-drop (suc o) [] h = cc
  get_elem?-drop (suc o) (x ∷ xs) h = get_elem?-drop o xs h

  pub drop-suc :
      (o : ℕ) (xs : List A) {x : A} {ys : List A} → drop o xs ≡ x ∷ ys → drop (o + 1) xs ≡ ys
  drop-suc o xs h = drop-add o 1 xs ∙ ap (λ zs. drop 1 zs) h

  -- A part that stands at an offset is what a slice of its length reads there.
  pub slice-drop :
      (o : ℕ) (xs ys zs : List A) → drop o xs ≡ ys ++ zs → take (length ys) (drop o xs) ≡ ys
  slice-drop o xs ys zs h = ap (λ t. take (length ys) t) h ∙ take-length ys zs

  pub drop-past : (o : ℕ) (xs ys zs : List A) → drop o xs ≡ ys ++ zs → drop (o + length ys) xs ≡ zs
  drop-past o xs ys zs h =
      drop-add o (length ys) xs ∙ ap (λ t. drop (length ys) t) h ∙ drop-length ys zs

  -- The same, to an offset that is known to be the sum.
  pub drop-advance :
      (o o' : ℕ) (xs ys zs : List A) → drop o xs ≡ ys ++ zs → o + length ys ≡ o' → drop o' xs ≡ zs
  drop-advance o o' xs ys zs h e = rw (← e) (drop-past o xs ys zs h)
