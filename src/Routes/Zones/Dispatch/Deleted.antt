-- ===== src/Routes/Zones/Dispatch/Deleted.antt =====
-- What `delete_record` of app/routes/zones.py leaves of a zone that is not signed.
use nova_dns.Prelude.{
  ℕ, ◌<◌, ◌≡◌, refl, ap, ◌∙◌, false, not, some, List, [], ◌∷◌, ◌++◌, ◌==◌, arith, ok, All,
}
use nova_dns.Text.{Text}
use nova_dns.Wire.Types.{codes}
use nova_dns.Run.{◌>>◌, pure, go_on}
use nova_dns.Db.{Db, Zone, Row, select, select_one}
use nova_dns.Db.Statements.{zone_of, delete_records, next_serial, update_zone, bump_serial, audit}
use nova_dns.ZoneSigning.Signing.{Signer}
use nova_dns.Routes.{Site, done, put_db, bust_cache, cleared}
use nova_dns.Routes.Zones.Records.{delete_found, delete_record, quoted}
use nova_dns.Routes.Zones.Exchange.Unsigned.{
  logged_bump, zone_of-logged_bump, resign_if_enabled-unsigned,
}

abbrev pub IsBelow : ℕ → List Row → Type 0
IsBelow n rows = All (λ r. r.id < n) rows

pub select_one-last :
    (n : ℕ) (rows : List Row) (r : Row)
    → IsBelow n rows
    → r.id ≡ n
    → select_one (λ q. q.id == n) (rows ++ r ∷ []) ≡ some r
unfolding select_one
select_one-last n [] r h e = ground arith
select_one-last n (q ∷ rows) r h e =
    let rest = select_one-last n rows r h.1 e in
    let apart : (q.id == n) ≡ false = ground (arith, h.0) in rw (apart, select_one) rest

select-kept :
    (n : ℕ) (rows : List Row) (r : Row)
    → IsBelow n rows
    → r.id ≡ n
    → select (λ q. not (q.id == n)) (rows ++ r ∷ []) ≡ rows
unfolding select
select-kept n [] r h e = ground arith
select-kept n (q ∷ rows) r h e =
    let apart : (q.id == n) ≡ false = ground (arith, h.0) in
    rw (apart, select) (ap (◌∷◌ q) (select-kept n rows r h.1 e))

module _ (s : Signer) where
  abbrev pub dropped : ℕ → Db → Db
  dropped id db = (delete_records (λ r. r.id == id) db).0

  zone_of-dropped :
      (zone_id id : ℕ) (db : Db) → zone_of zone_id (dropped id db) ≡ zone_of zone_id db
  unfolding zone_of delete_records
  zone_of-dropped zone_id id db = refl

  abbrev pub deletion : Row → Text
  deletion r = quoted (codes "Deleted " ++ (r.rtype ++ codes " record ")) r.name []

  -- the database after a record is deleted
  abbrev pub deleted : Row → Db → Db
  deleted r db = logged_bump r.zone_id (deletion r) (dropped r.id db)

  delete_found-eq :
      (site : Site) (r : Row) (z : Zone)
      → zone_of r.zone_id site.db ≡ some z
      → z.dnssec_enabled ≡ false
      → delete_found s r.id (some r) site
        ≡ (record { db = deleted r site.db; cache = site.cache }, ok tt)
  unfolding delete_found go_on put_db delete_records bump_serial update_zone audit
  delete_found-eq site r z e u =
      let here =
        zone_of-logged_bump r.zone_id z (deletion r) (dropped r.id site.db)
          (zone_of-dropped r.zone_id r.id site.db ∙ e) in
      ap (put_db (record site { db = deleted r site.db }))
        (resign_if_enabled-unsigned s r.zone_id (next_serial z) (deleted r site.db) here u)

  pub delete_record-eq :
      (site : Site) (r : Row) (z : Zone)
      → select_one (λ q. q.id == r.id) site.db.records ≡ some r
      → zone_of r.zone_id site.db ≡ some z
      → z.dnssec_enabled ≡ false
      → delete_record s r.id site
        ≡ (record { db = deleted r site.db; cache = cleared site.cache }, ok done)
  unfolding delete_record go_on put_db bust_cache
  delete_record-eq site r z found e u =
      ap (go_on (λ (d : Unit {0}). bust_cache >> pure done))
        (ap (λ o. delete_found s r.id o site) found ∙ delete_found-eq site r z e u)

  pub records-deleted :
      (db : Db) (rows : List Row) (r : Row)
      → db.records ≡ rows ++ r ∷ []
      → IsBelow r.id rows
      → (deleted r db).records ≡ rows
  unfolding delete_records bump_serial update_zone audit
  records-deleted db rows r e h = rw e (select-kept r.id rows r h refl)
