-- ===== src/Db/Selecting.antt =====
-- What a SELECT finds after rows are appended, deleted or changed.
use nova_dns.Prelude.{
  ℕ, ◌≡◌, refl, Bool, true, false, List, [], ◌∷◌, ◌++◌, length, inl, inr, Bool-cases, ap,
}
use nova_dns.Db.{select}

module _ {ℓ} {A : Type ℓ} where
  pub select-append :
      (p : A → Bool) (xs ys : List A) → select p (xs ++ ys) ≡ select p xs ++ select p ys
  unfolding select
  select-append p [] ys = refl
  select-append p (x ∷ xs) ys = elim (Bool-cases (p x)) [
    | inl e ↦ rw (e, select-append p xs ys)
    | inr e ↦ rw (e, select-append p xs ys)
  ]

  -- Selecting less of what was selected.
  pub select-select :
      (p q : A → Bool)
      → ((x : A) → p x ≡ true → q x ≡ true)
      → (xs : List A) → select p (select q xs) ≡ select p xs
  unfolding select
  select-select p q h [] = refl
  select-select p q h (x ∷ xs) = elim (Bool-cases (p x)) [
    | inl e ↦ rw (h x e, select, e) (ap (◌∷◌ x) (select-select p q h xs))
    | inr e ↦ elim (Bool-cases (q x)) [
      | inl d ↦ rw (d, select, e) (select-select p q h xs)
      | inr d ↦ rw (d, e) (select-select p q h xs)
    ]
  ]

  -- Selecting what was left out.
  pub select_none :
      (p q : A → Bool)
      → ((x : A) → p x ≡ true → q x ≡ false)
      → (xs : List A) → select p (select q xs) ≡ []
  unfolding select
  select_none p q h [] = refl
  select_none p q h (x ∷ xs) = elim (Bool-cases (q x)) [
    | inl d ↦ elim (Bool-cases (p x)) [
      | inl e ↦ absurd (cc (h x e))
      | inr e ↦ rw (d, select, e) (select_none p q h xs)
    ]
    | inr d ↦ rw d (select_none p q h xs)
  ]

  -- the number of rows that a SELECT finds
  abbrev pub count : (A → Bool) → List A → ℕ
  count p rows = length (select p rows)
