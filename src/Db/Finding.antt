-- ===== src/Db/Finding.antt =====
-- Which rows the SELECTs of the program find.
use nova_dns.Prelude.{
  ◌≡◌, refl, sym, ap, ◌∙◌, Bool, true, ◌&&◌, some, List, [], ◌∷◌, map, inl, inr, Bool-cases, IsIn,
  arith,
}
use nova_dns.Db.{select, select_one, exists}

module _ {A : Type 0} (test : A → Bool) where
  pub exists-IsIn : (xs : List A) (a : A) → IsIn a xs → test a ≡ true → exists test xs ≡ true
  unfolding exists
  exists-IsIn [] a i t = absurd i
  exists-IsIn (x ∷ xs) a (inl e) t = rw (← e, exists, t)
  exists-IsIn (x ∷ xs) a (inr i) t = elim (Bool-cases (test x)) [
    | inl hit ↦ rw (exists, hit)
    | inr miss ↦ rw (exists, miss) (exists-IsIn xs a i t)
  ]

  pub found : (xs : List A) → exists test xs ≡ true → (a : A) × IsIn a xs × (test a ≡ true)
  unfolding exists
  found [] h = cc
  found (x ∷ xs) h = elim (Bool-cases (test x)) [
    | inl hit ↦ (x, inl refl, hit)
    | inr miss ↦ let (a, i, t) = found xs (ground arith) in (a, inr i, t)
  ]

  module _ (keep : A → Bool) where
    pub exists-of :
        (xs : List A) (a : A)
        → IsIn a xs
        → keep a ≡ true
        → test a ≡ true
        → exists test (select keep xs) ≡ true
    unfolding exists select
    exists-of [] a i k t = absurd i
    exists-of (b ∷ bs) a (inl e) k t = rw (← e, k, exists, t)
    exists-of (b ∷ bs) a (inr i) k t = elim (Bool-cases (keep b)) [
      | inl kept ↦ elim (Bool-cases (test b)) [
        | inl hit ↦ rw (kept, exists, hit)
        | inr miss ↦ rw (kept, exists, miss) (exists-of bs a i k t)
      ]
      | inr dropped ↦ rw dropped (exists-of bs a i k t)
    ]

    pub of-exists :
        (xs : List A)
        → exists test (select keep xs) ≡ true
        → (a : A) × IsIn a xs × (keep a ≡ true) × (test a ≡ true)
    unfolding exists select
    of-exists [] h = cc
    of-exists (b ∷ bs) h = elim (Bool-cases (keep b && test b)) [
      | inl both ↦ (b, inl refl, ground arith, ground arith)
      | inr other ↦ let (a, i, k, t) = of-exists bs (ground arith) in (a, inr i, k, t)
    ]

pub select_one-IsIn :
    {A : Type 0} (keep : A → Bool) (xs : List A) {a : A}
    → select_one keep xs ≡ some a
    → IsIn a xs × (keep a ≡ true)
unfolding select_one
select_one-IsIn keep [] h = cc
select_one-IsIn keep (x ∷ xs) h = elim (Bool-cases (keep x)) [
  | inl kept ↦ ground arith
  | inr dropped ↦ let (i, k) = select_one-IsIn keep xs (ground arith) in (inr i, k)
]

module _ {A B : Type 0} (f : A → B) where
  pub IsIn-map-of : (xs : List A) (b : B) → IsIn b (map f xs) → (a : A) × IsIn a xs × (b ≡ f a)
  IsIn-map-of [] b i = absurd i
  IsIn-map-of (x ∷ xs) b (inl e) = (x, inl refl, e)
  IsIn-map-of (x ∷ xs) b (inr i) = let (a, at, e) = IsIn-map-of xs b i in (a, inr at, e)

  pub IsIn-map : (xs : List A) (a : A) → IsIn a xs → IsIn (f a) (map f xs)
  IsIn-map [] a i = i
  IsIn-map (x ∷ xs) a (inl e) = inl (ap f e)
  IsIn-map (x ∷ xs) a (inr i) = inr (IsIn-map xs a i)

module _ {A : Type 0} (keep : A → Bool) where
  pub IsIn-select-of : (xs : List A) (a : A) → IsIn a (select keep xs) → IsIn a xs × (keep a ≡ true)
  unfolding select
  IsIn-select-of [] a i = absurd i
  IsIn-select-of (x ∷ xs) a i = elim (Bool-cases (keep x)) [
    | inl kept ↦ elim (rw (kept, select) at i) [
      | inl e ↦ (inl e, rw e kept)
      | inr at ↦ let (j, k) = IsIn-select-of xs a at in (inr j, k)
    ]
    | inr dropped ↦ let (j, k) = IsIn-select-of xs a (rw (dropped, select) at i) in (inr j, k)
  ]

  pub IsIn-select : (xs : List A) (a : A) → IsIn a xs → keep a ≡ true → IsIn a (select keep xs)
  unfolding select
  IsIn-select [] a i k = i
  IsIn-select (x ∷ xs) a (inl e) k =
      let kept : keep x ≡ true = ap keep (sym e) ∙ k in rw kept (inl e)
  IsIn-select (x ∷ xs) a (inr i) k = elim (Bool-cases (keep x)) [
    | inl kept ↦ rw kept (inr (IsIn-select xs a i k))
    | inr dropped ↦ rw dropped (IsIn-select xs a i k)
  ]
