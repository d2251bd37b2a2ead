-- ===== src/Routes/Zones/Validate/Circular.antt =====
-- Which chains `validate_zone` reports as circular: exactly those that come back within 20 hops.
use nova_dns.Prelude.{
  ℕ, zero, suc, ◌+◌, ◌≤◌, ◌<◌, ◌≡◌, refl, sym, ◌∙◌, ap, inl, inr, ◌↔◌, Bool, true, false, Option,
  none, some, List, [], ◌∷◌, arith, ltb, length, ok, IsIn, Bool-cases, Option-cases, ltb→lt,
}
use nova_dns.Text.{Text, text_eq}
use nova_dns.Text.Split.{text_eq-to-eq, text_eq_refl}
use nova_dns.Db.{exists}
use nova_dns.Routes.Zones.Validate.Chains.{Targets, hop, chase, is_circular}

IsIn-exists : (x : Text) (seen : List Text) → exists (text_eq x) seen ≡ true → IsIn x seen
unfolding exists
IsIn-exists x [] h = cc
IsIn-exists x (y ∷ seen) h = elim (Bool-cases (text_eq x y)) [
  | inl e ↦ inl (text_eq-to-eq x y e)
  | inr e ↦ inr (IsIn-exists x seen (rw (e, exists) at h))
]

exists-IsIn : (x : Text) (seen : List Text) → IsIn x seen → exists (text_eq x) seen ≡ true
unfolding exists
exists-IsIn x [] m = absurd m
exists-IsIn x (y ∷ seen) (inl e) = rw (← e, text_eq_refl x) refl
exists-IsIn x (y ∷ seen) (inr m) = ground (arith, exists-IsIn x seen m)

module _ (targets : Targets) (suffix : Text) where
  -- the name that `n` hops lead to
  unfoldable pub after : ℕ → Text → Option Text
  after zero x = some x
  after (suc n) x = elim (after n x) [ none ↦ none | some y ↦ hop targets suffix y ]

  -- Within 20 hops from `start` the chain comes to a name for the second time.
  abbrev pub Revisits : Text → Type 0
  Revisits start =
      (i : ℕ) × (j : ℕ) × (x : Text) × (i < j)
      × (j ≤ 20)
      × (after i start ≡ some x)
      × (after j start ≡ some x)

  -- The names of `seen`, last one first, lead by hops from `start` to `cur`.
  abbrev Trail : Text → List Text → Text → Type 0
  Trail start [] cur = start ≡ cur
  Trail start (p ∷ seen) cur = (hop targets suffix p ≡ some cur) × Trail start seen p

  Trail-after :
      (start : Text) (seen : List Text) (cur : Text)
      → Trail start seen cur
      → after (length seen) start ≡ some cur
  unfolding after
  Trail-after start [] cur h = ap some h
  Trail-after start (p ∷ seen) cur h = rw (Trail-after start seen p h.1) h.0

  -- each name that was seen has its number of hops
  Trail-IsIn :
      (start : Text) (seen : List Text) (cur x : Text)
      → Trail start seen cur
      → IsIn x seen
      → (i : ℕ) × (i < length seen) × (after i start ≡ some x)
  Trail-IsIn start [] cur x h m = absurd m
  Trail-IsIn start (p ∷ seen) cur x h (inl e) =
      (length seen, omega arith, rw e (Trail-after start seen p h.1))
  Trail-IsIn start (p ∷ seen) cur x h (inr m) =
      let (i, lt, e) = Trail-IsIn start seen p x h.1 m in (i, omega arith, e)

  -- and each number of hops up to there leads to one of them
  Trail-at :
      (start : Text) (seen : List Text) (cur : Text) (i : ℕ) (x : Text)
      → Trail start seen cur
      → i < length seen
      → after i start ≡ some x
      → IsIn x seen
  Trail-at start [] cur i x h lt e = absurd (omega arith)
  Trail-at start (p ∷ seen) cur i x h lt e = elim (Bool-cases (ltb i (length seen))) [
    | inl b ↦ inr (Trail-at start seen p i x h.1 (ltb→lt _ _ b) e)
    | inr b ↦
        let last : i ≡ length seen = ground arith in
        let here = Trail-after start seen p h.1 in inl (cc (rw last at e))
  ]

  -- behind the end of a chain there is nothing
  after-end :
      (start cur : Text) (n m : ℕ)
      → after n start ≡ some cur
      → hop targets suffix cur ≡ none
      → n < m
      → after m start ≡ none
  unfolding after
  after-end start cur n zero e h lt = absurd (omega arith)
  after-end start cur n (suc m) e h lt = elim (Bool-cases (ltb n m)) [
    | inl b ↦ rw (after-end start cur n m e h (ltb→lt _ _ b)) refl
    | inr b ↦ let last : m ≡ n = ground arith in rw (last, e) h
  ]

  -- No name stands twice so far.
  abbrev NoneTwice : Text → ℕ → Type 0
  NoneTwice start n =
      (i j : ℕ) (x : Text) → i < j → j < n → after i start ≡ some x → after j start ≡ some x → ⊥

  NoneTwice-next :
      (start : Text) (seen : List Text) (cur : Text)
      → Trail start seen cur
      → NoneTwice start (length seen)
      → exists (text_eq cur) seen ≡ false
      → NoneTwice start (length (cur ∷ seen))
  NoneTwice-next start seen cur trail before new i j x lt bound ei ej =
      elim (Bool-cases (ltb j (length seen))) [
        | inl b ↦ before i j x lt (ltb→lt _ _ b) ei ej
        | inr b ↦
            let last : j ≡ length seen = ground arith in
            let here = Trail-after start seen cur trail in
            let same : x ≡ cur = cc (rw last at ej) in
            let old = Trail-at start seen cur i cur trail (omega arith) (rw same at ei) in
            cc (exists-IsIn cur seen old)
      ]

  -- What the loop comes to, from any of its rounds.
  chase_lem :
      (start : Text) (fuel : ℕ) (seen : List Text) (cur : Text)
      → Trail start seen cur
      → NoneTwice start (length seen)
      → fuel + length seen ≡ 21
      → length seen ≤ 20
      → (b : Bool) × (chase targets suffix fuel seen cur ≡ ok b) × ((b ≡ true) ↔ Revisits start)
  unfolding chase
  chase_lem start zero seen cur trail before enough short = absurd (omega arith)
  chase_lem start (suc fuel) seen cur trail before enough short =
      elim (Bool-cases (exists (text_eq cur) seen)) [
        | inl e ↦
            let (i, lt, found) = Trail-IsIn start seen cur cur trail (IsIn-exists cur seen e) in
            let revisits : Revisits start =
              (i, length seen, cur, lt, short, found, Trail-after start seen cur trail) in
            (true, rw (e, chase) refl, (λ h. revisits, λ r. refl))
        | inr e ↦
            let none_twice = NoneTwice-next start seen cur trail before e in
            elim (Option-cases (hop targets suffix cur)) [
              | inl d ↦ (
                false,
                rw (e, chase, d) refl,
                (
                  λ h. cc,
                  λ (i, j, x, lt, le, ei, ej). absurd (none_twice i j x lt (ends j x d ej) ei ej),
                ),
              )
              | inr (next, d) ↦ elim (Bool-cases (ltb 20 (length (cur ∷ seen)))) [
                | inl f ↦ (
                  false,
                  rw (e, chase, d, f) refl,
                  (
                    λ h. cc,
                    λ (i, j, x, lt, le, ei, ej). absurd (none_twice i j x lt (ground arith) ei ej),
                  ),
                )
                | inr f ↦
                    let (b, ended, iff) =
                      chase_lem start fuel (cur ∷ seen) next (d, trail) none_twice (omega arith)
                        (ground arith) in
                    (b, rw (e, chase, d, f) ended, iff)
              ]
            ]
      ]
    where
      ends :
          (j : ℕ) (x : Text)
          → hop targets suffix cur ≡ none
          → after j start ≡ some x
          → j < length (cur ∷ seen)
      ends j x d ej = elim (Bool-cases (ltb (length seen) j)) [
        | inl b ↦
            let past =
              after-end start cur (length seen) j (Trail-after start seen cur trail) d
                (ltb→lt _ _ b) in
            absurd (cc (sym past ∙ ej))
        | inr b ↦ ground arith
      ]

  -- The check for circular chains ends, and reports a start just when the chain from there comes to a
  -- name for the second time within 20 hops.
  pub is_circular_iff_Revisits :
      (start : Text)
      → (b : Bool) × (is_circular targets suffix start ≡ ok b) × ((b ≡ true) ↔ Revisits start)
  unfolding is_circular
  is_circular_iff_Revisits start =
      chase_lem start 21 [] start refl (λ i j x lt bound ei ej. absurd (omega arith)) refl
        (omega arith)
