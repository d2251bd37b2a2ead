-- ===== src/Db/Valid.antt =====
-- The invariant of the zones and records tables.
pub mod Statements
use nova_dns.Prelude.{
  ℕ, ◌+◌, ◌<◌, ◌≡◌, ◌≢◌, refl, sym, ◌∙◌, Bool, true, false, not, ◌&&◌, Option, none, some, List, [],
  ◌∷◌, ◌++◌, ◌==◌, arith, if◌then◌else◌, inl, inr, Bool-cases, All, Pairwise, All-append_one,
  All-imp, Pairwise-append_one,
}
use nova_dns.Text.{Text, text_eq}
use nova_dns.Wire.Rdata.{Value}
use nova_dns.Db.{Db, Zone, Row, KeyRow, AuditRow, select, select_one, exists, update}
use nova_dns.Db.Statements.{
  zone_of, with_record, insert_record, delete_records, update_zone, insert_zone, delete_zone_row,
  audit,
}

module _ {ℓ κ} {A : Type ℓ} (P : A → Type κ) where
  pub All-select : (keep : A → Bool) (xs : List A) → All P xs → All P (select keep xs)
  unfolding select
  All-select keep [] h = tt
  All-select keep (x ∷ xs) h = elim (Bool-cases (keep x)) [
    | inl e ↦ rw (e, select) (h.0, All-select keep xs h.1)
    | inr e ↦ rw (e, select) (All-select keep xs h.1)
  ]

  pub All-update :
      (keep : A → Bool) (change : A → A)
      → ((x : A) → P x → P (change x))
      → (xs : List A) → All P xs
      → All P (update keep change xs)
  unfolding update
  All-update keep change f [] h = tt
  All-update keep change f (x ∷ xs) h = elim (Bool-cases (keep x)) [
    | inl e ↦ rw (e, update) (f x h.0, All-update keep change f xs h.1)
    | inr e ↦ rw (e, update) (h.0, All-update keep change f xs h.1)
  ]

module _ {ℓ κ} {A : Type ℓ} (R : A → A → Type κ) where
  pub Pairwise-select :
      (keep : A → Bool) (xs : List A) → Pairwise R xs → Pairwise R (select keep xs)
  unfolding select
  Pairwise-select keep [] h = tt
  Pairwise-select keep (x ∷ xs) h = elim (Bool-cases (keep x)) [
    | inl e ↦ rw (e, select) (All-select (R x) keep xs h.0, Pairwise-select keep xs h.1)
    | inr e ↦ rw (e, select) (Pairwise-select keep xs h.1)
  ]

  pub Pairwise-update :
      (keep : A → Bool) (change : A → A)
      → ((x y : A) → R x y → R (change x) y)
      → ((x y : A) → R x y → R x (change y))
      → (xs : List A) → Pairwise R xs
      → Pairwise R (update keep change xs)
  unfolding update
  Pairwise-update keep change f g [] h = tt
  Pairwise-update keep change f g (x ∷ xs) h =
      let rest = Pairwise-update keep change f g xs h.1 in
      let others = All-update (R x) keep change (g x) xs h.0 in
      elim (Bool-cases (keep x)) [
        | inl e ↦ rw (e, update) (All-imp (R x) (R (change x)) (f x) _ others, rest)
        | inr e ↦ rw (e, update) (others, rest)
      ]

module _ {ℓ} {A : Type ℓ} (p : A → Bool) where
  pub exists-select_one : (xs : List A) (x : A) → select_one p xs ≡ some x → exists p xs ≡ true
  unfolding select_one exists
  exists-select_one [] x h = cc
  exists-select_one (y ∷ xs) x h = elim (Bool-cases (p y)) [
    | inl e ↦ rw e refl
    | inr e ↦ rw (e, exists) (exists-select_one xs x (rw (e, select_one) at h))
  ]

  pub exists-append : (xs ys : List A) → exists p xs ≡ true → exists p (xs ++ ys) ≡ true
  unfolding exists
  exists-append [] ys h = cc
  exists-append (x ∷ xs) ys h = elim (Bool-cases (p x)) [
    | inl e ↦ rw e refl
    | inr e ↦ rw (e, exists) (exists-append xs ys (rw (e, exists) at h))
  ]

  pub exists-update :
      (keep : A → Bool) (change : A → A)
      → ((x : A) → p (change x) ≡ p x)
      → (xs : List A) → exists p (update keep change xs) ≡ exists p xs
  unfolding exists update
  exists-update keep change f [] = refl
  exists-update keep change f (x ∷ xs) = elim (Bool-cases (keep x)) [
    | inl e ↦ rw (e, exists, f x, exists-update keep change f xs) refl
    | inr e ↦ rw (e, exists, exists-update keep change f xs) refl
  ]

  pub exists-select :
      (keep : A → Bool)
      → ((x : A) → p x ≡ true → keep x ≡ true)
      → (xs : List A) → exists p xs ≡ true
      → exists p (select keep xs) ≡ true
  unfolding exists select
  exists-select keep f [] h = cc
  exists-select keep f (x ∷ xs) h = elim (Bool-cases (p x)) [
    | inl e ↦ rw (f x e, exists, e) refl
    | inr e ↦
        let rest = exists-select keep f xs (rw (e, exists) at h) in
        elim (Bool-cases (keep x)) [ inl d ↦ rw (d, exists, e) rest | inr d ↦ rw d rest ]
  ]

abbrev pub has_zone : ℕ → List Zone → Bool
has_zone zone_id zones = exists (λ z. z.id == zone_id) zones

abbrev pub Apart : Zone → Zone → Type 0
Apart a b = (a.id ≢ b.id) × (text_eq a.name b.name ≡ false)

-- Ids are used once and never again, zone names are used once, and every record's zone is there.
pub record IsValid (db : Db) : Type 0 where
  pub record_ids : All (λ r. r.id < db.next_record_id) db.records
  pub records_apart : Pairwise (λ a b. a.id ≢ b.id) db.records
  pub owned : All (λ r. has_zone r.zone_id db.zones ≡ true) db.records
  pub zone_ids : All (λ z. z.id < db.next_zone_id) db.zones
  pub zones_apart : Pairwise Apart db.zones
