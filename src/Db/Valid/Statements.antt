-- ===== src/Db/Valid/Statements.antt =====
-- Every statement on the tables keeps their invariant, with the constraints that SQLite checks.
use nova_dns.Prelude.{
  ℕ, ◌<◌, ◌≡◌, ◌≢◌, refl, ◌∙◌, Bool, true, false, not, Option, some, List, [], ◌∷◌, ◌==◌, arith,
  inl, inr, Bool-cases, Option-cases, All, All-append_one, All-imp, Pairwise-append_one,
}
use nova_dns.Text.{Text, text_eq}
use nova_dns.Wire.Rdata.{Value}
use nova_dns.Db.{Db, Zone, Row, KeyRow, select, exists, update}
use nova_dns.Db.Statements.{
  zone_of, with_record, insert_record, delete_records, update_zone, insert_zone, delete_zone_row,
  audit,
}
use nova_dns.Db.Valid.{
  IsValid, has_zone, Apart, All-select, All-update, Pairwise-select, Pairwise-update,
  exists-select_one, exists-append, exists-update, exists-select,
}

abbrev pub Keeps : Db → Db → Type 0
Keeps a b = IsValid a → IsValid b

pub with_record-Keeps :
    (zone_id : ℕ) (z : Zone) (name rtype : Text) (ttl : Option ℕ) (v : Value) (m : Option Text)
    (db : Db)
    → zone_of zone_id db ≡ some z
    → Keeps db (with_record zone_id name rtype ttl v m db)
unfolding with_record zone_of
with_record-Keeps zone_id z name rtype ttl v m db e h = record {
  record_ids =
      All-append_one _ db.records _
        (All-imp (λ r. r.id < db.next_record_id) _ (λ r p. omega arith) db.records h.record_ids)
        (omega arith);
  records_apart =
      Pairwise-append_one _ db.records _ h.records_apart (
        All-imp (λ r. r.id < db.next_record_id) _ (λ r p. λ q. omega arith) db.records
          h.record_ids);
  owned =
      All-append_one _ db.records _ h.owned (exists-select_one (λ z. z.id == zone_id) db.zones z e);
  zone_ids = h.zone_ids;
  zones_apart = h.zones_apart;
}

pub insert_record-Keeps :
    (zone_id : ℕ) (name rtype : Text) (ttl : Option ℕ) (v : Value) (m : Option Text) (db : Db)
    → Keeps db (insert_record zone_id name rtype ttl v m db).0
unfolding insert_record
insert_record-Keeps zone_id name rtype ttl v m db = elim (Option-cases (zone_of zone_id db)) [
  | inl e ↦ rw (e, insert_record) (λ h. h)
  | inr (z, e) ↦ rw (e, insert_record) (with_record-Keeps zone_id z name rtype ttl v m db e)
]

pub delete_records-Keeps : (drop : Row → Bool) (db : Db) → Keeps db (delete_records drop db).0
unfolding delete_records
delete_records-Keeps drop db h = record {
  record_ids = All-select _ (λ r. not (drop r)) db.records h.record_ids;
  records_apart = Pairwise-select _ (λ r. not (drop r)) db.records h.records_apart;
  owned = All-select _ (λ r. not (drop r)) db.records h.owned;
  zone_ids = h.zone_ids;
  zones_apart = h.zones_apart;
}

-- a change of columns other than the id and the name
pub update_zone-Keeps :
    (change : Zone → Zone) (zone_id : ℕ)
    → ((z : Zone) → ((change z).id ≡ z.id) × ((change z).name ≡ z.name))
    → (db : Db) → Keeps db (update_zone change zone_id db).0
unfolding update_zone
update_zone-Keeps change zone_id f db h = record {
  record_ids = h.record_ids;
  records_apart = h.records_apart;
  owned =
      All-imp (λ r. has_zone r.zone_id db.zones ≡ true) _
        (λ r p.
          exists-update (λ z. z.id == r.zone_id) _ change (λ z. rw ((f z).0) refl) db.zones ∙ p)
        db.records h.owned;
  zone_ids =
      All-update (λ z. z.id < db.next_zone_id) _ change (λ z p. rw ((f z).0) p) db.zones h.zone_ids;
  zones_apart =
      Pairwise-update Apart _ change (λ x y p. rw ((f x).0, (f x).1) p)
        (λ x y p. rw ((f y).0, (f y).1) p) db.zones h.zones_apart;
}

none_named :
    (name : Text) (zones : List Zone)
    → exists (λ z. text_eq z.name name) zones ≡ false
    → All (λ z. text_eq z.name name ≡ false) zones
unfolding exists
none_named name [] h = tt
none_named name (z ∷ zones) h = elim (Bool-cases (text_eq z.name name)) [
  | inl e ↦ absurd (cc (rw (e, exists) at h))
  | inr e ↦ (e, none_named name zones (rw (e, exists) at h))
]

All-both :
    (zones : List Zone) (P Q : Zone → Type 0)
    → All P zones
    → All Q zones
    → All (λ z. P z × Q z) zones
All-both [] P Q h k = tt
All-both (z ∷ zones) P Q h k = ((h.0, k.0), All-both zones P Q h.1 k.1)

-- a name that is taken raises, and nothing changes
pub insert_zone-Keeps :
    (name : Text) (ttl : ℕ) (mname rname : Text) (db : Db)
    → Keeps db (insert_zone name ttl mname rname db).0
unfolding insert_zone
insert_zone-Keeps name ttl mname rname db =
    elim (Bool-cases (exists (λ z. text_eq z.name name) db.zones)) [
      | inl e ↦ rw (e, insert_zone) (λ h. h)
      | inr e ↦
          rw (e, insert_zone)
            (λ h. record {
              record_ids = h.record_ids;
              records_apart = h.records_apart;
              owned =
                  All-imp (λ r. has_zone r.zone_id db.zones ≡ true) _
                    (λ r p. exists-append (λ z. z.id == r.zone_id) db.zones _ p) db.records h.owned;
              zone_ids =
                  All-append_one _ db.zones _
                    (All-imp (λ z. z.id < db.next_zone_id) _ (λ z p. omega arith) db.zones
                      h.zone_ids)
                    (omega arith);
              zones_apart = Pairwise-append_one Apart db.zones _ h.zones_apart (
                  All-both db.zones _ _
                    (All-imp (λ z. z.id < db.next_zone_id) (λ z. z.id ≢ db.next_zone_id)
                      (λ z p. λ q. omega arith) db.zones h.zone_ids)
                    (none_named name db.zones e));
            })
    ]

All-select_imp {ℓ} :
    {A : Type ℓ} (keep : A → Bool) (P Q : A → Type 0)
    → ((x : A) → keep x ≡ true → P x → Q x)
    → (xs : List A) → All P xs
    → All Q (select keep xs)
unfolding select
All-select_imp keep P Q f [] h = tt
All-select_imp keep P Q f (x ∷ xs) h = elim (Bool-cases (keep x)) [
  | inl e ↦ rw (e, select) (f x e h.0, All-select_imp keep P Q f xs h.1)
  | inr e ↦ rw (e, select) (All-select_imp keep P Q f xs h.1)
]

-- The rows of the zone go with it, so that no record is left behind.
pub delete_zone_row-Keeps : (zone_id : ℕ) (db : Db) → Keeps db (delete_zone_row zone_id db).0
unfolding delete_zone_row
delete_zone_row-Keeps zone_id db h = record {
  record_ids = All-select _ (λ r. not (r.zone_id == zone_id)) db.records h.record_ids;
  records_apart = Pairwise-select _ (λ r. not (r.zone_id == zone_id)) db.records h.records_apart;
  owned =
      All-select_imp (λ r. not (r.zone_id == zone_id)) _ _
        (λ r e p.
          exists-select (λ z. z.id == r.zone_id) (λ z. not (z.id == zone_id)) (λ z q. ground arith)
            db.zones p)
        db.records h.owned;
  zone_ids = All-select _ (λ z. not (z.id == zone_id)) db.zones h.zone_ids;
  zones_apart = Pairwise-select _ (λ z. not (z.id == zone_id)) db.zones h.zones_apart;
}

-- a change of columns other than the id and the zone
pub update_records-Keeps :
    (keep : Row → Bool) (change : Row → Row)
    → ((r : Row) → ((change r).id ≡ r.id) × ((change r).zone_id ≡ r.zone_id))
    → (db : Db) → Keeps db (record db { records = update keep change db.records })
update_records-Keeps keep change f db h = record {
  record_ids =
      All-update (λ r. r.id < db.next_record_id) keep change (λ r p. rw ((f r).0) p) db.records
        h.record_ids;
  records_apart =
      Pairwise-update (λ a b. a.id ≢ b.id) keep change (λ x y p. rw ((f x).0) p)
        (λ x y p. rw ((f y).0) p) db.records h.records_apart;
  owned =
      All-update (λ r. has_zone r.zone_id db.zones ≡ true) keep change (λ r p. rw ((f r).1) p)
        db.records h.owned;
  zone_ids = h.zone_ids;
  zones_apart = h.zones_apart;
}

-- tables that the invariant does not read
pub key-Keeps :
    (keys : List KeyRow) (n : ℕ) (db : Db)
    → Keeps db (record db { dnssec_keys = keys; next_key_id = n })
key-Keeps keys n db h = record {
  record_ids = h.record_ids;
  records_apart = h.records_apart;
  owned = h.owned;
  zone_ids = h.zone_ids;
  zones_apart = h.zones_apart;
}

pub audit-Keeps : (action category : Text) (db : Db) → Keeps db (audit action category db).0
unfolding audit
audit-Keeps action category db h = record {
  record_ids = h.record_ids;
  records_apart = h.records_apart;
  owned = h.owned;
  zone_ids = h.zone_ids;
  zones_apart = h.zones_apart;
}
