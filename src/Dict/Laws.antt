-- ===== src/Dict/Laws.antt =====
-- Laws of the dictionary: sizes, distinct keys, and what a lookup finds after a change.
use nova_dns.Prelude.{
  ℕ, zero, suc, ◌+◌, ◌≤◌, ◌≡◌, refl, ◌⊎◌, inl, inr, ◌↔◌, Bool, true, false, none, some, List, [],
  ◌∷◌, arith, length, drop, Bool-cases,
}
use nova_dns.Dict.{get, put, remove}

-- The test decides equality.
abbrev pub Decides {ℓ} : {K : Type ℓ} → (K → K → Bool) → Type ℓ
Decides {K = K} eq = (a b : K) → (eq a b ≡ true) ↔ (a ≡ b)

module _ {ℓ κ} {K : Type ℓ} {V : Type κ} where
  -- No pair of `d` has the key `k`.
  abbrev pub Absent : (K → K → Bool) → K → List (K × V) → Type 0
  Absent eq k [] = Unit
  Absent eq k ((j, v) ∷ d) = (eq j k ≡ false) × Absent eq k d

  -- No key stands twice.
  abbrev pub Distinct : (K → K → Bool) → List (K × V) → Type 0
  Distinct eq [] = Unit
  Distinct eq ((j, v) ∷ d) = Absent eq j d × Distinct eq d

eq_flip {ℓ} :
    {K : Type ℓ} (eq : K → K → Bool) → Decides eq → (i k : K) → eq i k ≡ false → eq k i ≡ false
eq_flip eq dec i k h = ground (arith, dec i k, dec k i)

module _ {ℓ κ} {K : Type ℓ} {V : Type κ} (eq : K → K → Bool) (dec : Decides eq) where
  pub get-Absent : (k : K) (d : List (K × V)) → Absent eq k d → get eq k d ≡ none
  unfolding get
  get-Absent k [] h = refl
  get-Absent k ((j, v) ∷ d) h = rw (h.0, get) (get-Absent k d h.1)

  pub get-put_self : (k : K) (v : V) (d : List (K × V)) → get eq k (put eq k v d) ≡ some v
  unfolding get put
  get-put_self k v [] = ground (arith, dec k k)
  get-put_self k v ((j, w) ∷ d) = ground (arith, get-put_self k v d)

  pub get-put_ne :
      (k j : K) (v : V) (d : List (K × V)) → eq k j ≡ false → get eq j (put eq k v d) ≡ get eq j d
  unfolding get put
  get-put_ne k j v [] h = ground arith
  get-put_ne k j v ((i, w) ∷ d) h = ground (arith, get-put_ne k j v d, dec i k, dec i j, dec k j)

  pub length-put-le : (k : K) (v : V) (d : List (K × V)) → length (put eq k v d) ≤ length d + 1
  unfolding put
  length-put-le k v [] = omega arith
  length-put-le k v ((j, w) ∷ d) = ground (arith, length-put-le k v d)

  pub length-remove-le : (k : K) (d : List (K × V)) → length (remove eq k d) ≤ length d
  unfolding remove
  length-remove-le k [] = omega arith
  length-remove-le k ((j, w) ∷ d) = ground (arith, length-remove-le k d)

  pub Absent-put :
      (i k : K) (v : V) (d : List (K × V))
      → Absent eq i d
      → eq k i ≡ false
      → Absent eq i (put eq k v d)
  unfolding put
  Absent-put i k v [] h n = (n, tt)
  Absent-put i k v ((j, w) ∷ d) h n = elim (Bool-cases (eq j k)) [
    | inl e ↦ rw (e, put) h
    | inr e ↦ rw (e, put) (h.0, Absent-put i k v d h.1 n)
  ]

  pub Distinct-put : (k : K) (v : V) (d : List (K × V)) → Distinct eq d → Distinct eq (put eq k v d)
  unfolding put
  Distinct-put k v [] h = (tt, tt)
  Distinct-put k v ((j, w) ∷ d) h = elim (Bool-cases (eq j k)) [
    | inl e ↦ rw (e, put) h
    | inr e ↦ rw (e, put) (Absent-put j k v d h.0 (eq_flip eq dec j k e), Distinct-put k v d h.1)
  ]

  pub Absent-remove : (i k : K) (d : List (K × V)) → Absent eq i d → Absent eq i (remove eq k d)
  unfolding remove
  Absent-remove i k [] h = tt
  Absent-remove i k ((j, w) ∷ d) h = elim (Bool-cases (eq j k)) [
    | inl e ↦ rw (e, remove) h.1
    | inr e ↦ rw (e, remove) (h.0, Absent-remove i k d h.1)
  ]

  pub Distinct-remove : (k : K) (d : List (K × V)) → Distinct eq d → Distinct eq (remove eq k d)
  unfolding remove
  Distinct-remove k [] h = tt
  Distinct-remove k ((j, w) ∷ d) h = elim (Bool-cases (eq j k)) [
    | inl e ↦ rw (e, remove) h.1
    | inr e ↦ rw (e, remove) (Absent-remove j k d h.0, Distinct-remove k d h.1)
  ]

  pub get-remove_ne :
      (k j : K) (d : List (K × V)) → eq k j ≡ false → get eq j (remove eq k d) ≡ get eq j d
  unfolding get remove
  get-remove_ne k j [] h = refl
  get-remove_ne k j ((i, w) ∷ d) h = ground (arith, get-remove_ne k j d, dec i k, dec i j, dec k j)

  Absent-eq : (j k : K) (d : List (K × V)) → eq j k ≡ true → Absent eq j d → Absent eq k d
  Absent-eq j k d e h = rw (← (dec j k).0 e) h

  pub get-remove_self : (k : K) (d : List (K × V)) → Distinct eq d → get eq k (remove eq k d) ≡ none
  unfolding get remove
  get-remove_self k [] h = refl
  get-remove_self k ((j, w) ∷ d) h = elim (Bool-cases (eq j k)) [
    | inl e ↦ rw (e, remove) (get-Absent k d (Absent-eq j k d e h.0))
    | inr e ↦ rw (e, remove) (rw (e, get) (get-remove_self k d h.1))
  ]

  Absent-drop : (n : ℕ) (k : K) (d : List (K × V)) → Absent eq k d → Absent eq k (drop n d)
  Absent-drop zero k d h = h
  Absent-drop (suc n) k [] h = tt
  Absent-drop (suc n) k ((j, w) ∷ d) h = Absent-drop n k d h.1

  pub Distinct-drop : (n : ℕ) (d : List (K × V)) → Distinct eq d → Distinct eq (drop n d)
  Distinct-drop zero d h = h
  Distinct-drop (suc n) [] h = tt
  Distinct-drop (suc n) ((j, w) ∷ d) h = Distinct-drop n d h.1

  -- Dropping the first pairs forgets keys, and changes none.
  pub get-drop :
      (n : ℕ) (k : K) (d : List (K × V))
      → Distinct eq d
      → (get eq k (drop n d) ≡ none) ⊎ (get eq k (drop n d) ≡ get eq k d)
  unfolding get
  get-drop zero k d h = inr refl
  get-drop (suc n) k [] h = inl refl
  get-drop (suc n) k ((j, w) ∷ d) h = elim (Bool-cases (eq j k)) [
    | inl e ↦ inl (get-Absent k (drop n d) (Absent-drop n k d (Absent-eq j k d e h.0)))
    | inr e ↦ rw (e, get) (get-drop n k d h.1)
  ]
