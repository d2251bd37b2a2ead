-- ===== src/Sort.antt =====
-- Python's `sorted`: a stable sort, by a test `le` on keys.
use mathlib.Core.List.{Perm}
use mathlib.Core.List.Perm
use nova_dns.Prelude.{
  ◌+◌, ◌≡◌, refl, Bool, true, false, List, [], ◌∷◌, arith, length, if◌then◌else◌, Bool-cases, inl,
  inr,
}

module _ {ℓ} {A : Type ℓ} (le : A → A → Bool) where
  -- `x` goes in front of the first element that is not below it
  unfoldable pub insert_sorted : A → List A → List A
  insert_sorted x [] = x ∷ []
  insert_sorted x (y ∷ ys) =
      let rest = insert_sorted x ys in if le x y then x ∷ y ∷ ys else y ∷ rest

  unfoldable pub sorted : List A → List A
  unfolding insert_sorted
  sorted [] = []
  sorted (x ∷ xs) = insert_sorted x (sorted xs)

  length-insert_sorted : (x : A) (xs : List A) → length (insert_sorted x xs) ≡ length xs + 1
  unfolding insert_sorted
  length-insert_sorted x [] = omega arith
  length-insert_sorted x (y ∷ ys) = ground (arith, length-insert_sorted x ys)

  pub length-sorted : (xs : List A) → length (sorted xs) ≡ length xs
  unfolding sorted
  length-sorted [] = refl
  length-sorted (x ∷ xs) = omega (arith, length-insert_sorted x (sorted xs), length-sorted xs)

  -- Every element of the list is at least `x`.
  abbrev pub AllAbove : A → List A → Type 0
  AllAbove x [] = Unit
  AllAbove x (y ∷ ys) = (le x y ≡ true) × AllAbove x ys

  abbrev pub IsSorted : List A → Type 0
  IsSorted [] = Unit
  IsSorted (x ∷ xs) = AllAbove x xs × IsSorted xs

  module _ (total : (x y : A) → le x y ≡ false → le y x ≡ true)
      (trans : (x y z : A) → le x y ≡ true → le y z ≡ true → le x z ≡ true) where
    AllAbove-trans : (x y : A) (ys : List A) → le x y ≡ true → AllAbove y ys → AllAbove x ys
    AllAbove-trans x y [] h a = tt
    AllAbove-trans x y (z ∷ zs) h a = (trans x y z h a.0, AllAbove-trans x y zs h a.1)

    AllAbove-insert_sorted :
        (z x : A) (xs : List A) → le z x ≡ true → AllAbove z xs → AllAbove z (insert_sorted x xs)
    unfolding insert_sorted
    AllAbove-insert_sorted z x [] h a = (h, tt)
    AllAbove-insert_sorted z x (y ∷ ys) h a = elim (Bool-cases (le x y)) [
      | inl e ↦ rw (e, insert_sorted) (h, a)
      | inr e ↦ rw (e, insert_sorted) (a.0, AllAbove-insert_sorted z x ys h a.1)
    ]

    insert_sorted-IsSorted : (x : A) (xs : List A) → IsSorted xs → IsSorted (insert_sorted x xs)
    unfolding insert_sorted
    insert_sorted-IsSorted x [] s = (tt, tt)
    insert_sorted-IsSorted x (y ∷ ys) s = elim (Bool-cases (le x y)) [
      | inl e ↦ rw (e, insert_sorted) ((e, AllAbove-trans x y ys e s.0), s)
      | inr e ↦
          rw (e, insert_sorted)
            (AllAbove-insert_sorted y x ys (total x y e) s.0, insert_sorted-IsSorted x ys s.1)
    ]

    pub sorted-IsSorted : (xs : List A) → IsSorted (sorted xs)
    unfolding sorted
    sorted-IsSorted [] = tt
    sorted-IsSorted (x ∷ xs) = insert_sorted-IsSorted x (sorted xs) (sorted-IsSorted xs)

  insert_sorted-perm : (x : A) (xs : List A) → Perm (insert_sorted x xs) (x ∷ xs)
  unfolding insert_sorted
  insert_sorted-perm x [] = Perm.refl (x ∷ [])
  insert_sorted-perm x (y ∷ ys) = elim (Bool-cases (le x y)) [
    | inl e ↦ rw (e, insert_sorted) (Perm.refl (x ∷ y ∷ ys))
    | inr e ↦
        rw (e, insert_sorted)
          (Perm.trans (Perm.cons y (insert_sorted-perm x ys)) (Perm.swap x y ys))
  ]

  pub sorted-perm : (xs : List A) → Perm (sorted xs) xs
  unfolding sorted
  sorted-perm [] = Perm.refl []
  sorted-perm (x ∷ xs) =
      Perm.trans (insert_sorted-perm x (sorted xs)) (Perm.cons x (sorted-perm xs))
