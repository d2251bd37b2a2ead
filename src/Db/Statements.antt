-- ===== src/Db/Statements.antt =====
-- The SQL statements by which app/dnscore/zonesigning.py and app/routes/zones.py change the tables,
-- each committed by itself, with the constraints of app/schema.sql: a record's zone must be there, a
-- zone's name is taken only once, and with a zone its records and keys go.
use nova_dns.Prelude.{
  ℕ, ◌+◌, Bool, false, not, Option, none, some, List, [], ◌∷◌, ◌++◌, ◌==◌, if◌then◌else◌, ok, err,
  integrity_error,
}
use nova_dns.Text.{Text, text_eq}
use nova_dns.Wire.Types.{codes}
use nova_dns.Wire.Rdata.{Value}
use nova_dns.Run.{Run, write}
use nova_dns.Db.{Db, Zone, Row, KeyRow, select, select_one, exists, update}

-- SELECT * FROM zones WHERE id=?
unfoldable pub zone_of : ℕ → Db → Option Zone
unfolding select_one
zone_of zone_id db = select_one (λ z. z.id == zone_id) db.zones

-- SELECT * FROM records WHERE zone_id=?
unfoldable pub records_of : ℕ → Db → List Row
unfolding select
records_of zone_id db = select (λ r. r.zone_id == zone_id) db.records

-- the row that an INSERT INTO records appends
unfoldable pub with_record : ℕ → Text → Text → Option ℕ → Value → Option Text → Db → Db
with_record zone_id name rtype ttl data_json client_match db = record db {
  records =
      db.records
      ++ record {
        id = db.next_record_id;
        zone_id = zone_id;
        name = name;
        rtype = rtype;
        ttl = ttl;
        data_json = data_json;
        client_match = client_match;
      }
        ∷ [];
  next_record_id = db.next_record_id + 1;
}

-- INSERT INTO records, which gives the row's id
unfoldable pub insert_record : ℕ → Text → Text → Option ℕ → Value → Option Text → Run Db ℕ
unfolding zone_of with_record
insert_record zone_id name rtype ttl data_json client_match db = elim (zone_of zone_id db) [
  | none ↦ (db, err integrity_error)
  | some zone ↦ (with_record zone_id name rtype ttl data_json client_match db, ok db.next_record_id)
]

-- DELETE FROM records WHERE drop
unfoldable pub delete_records : (Row → Bool) → Run Db (Unit {0})
unfolding select
delete_records drop = write (λ db. record db { records = select (λ r. not (drop r)) db.records })

-- UPDATE zones SET change WHERE id=?
unfoldable pub update_zone : (Zone → Zone) → ℕ → Run Db (Unit {0})
unfolding update
update_zone change zone_id =
    write (λ db. record db { zones = update (λ z. z.id == zone_id) change db.zones })

abbrev pub next_serial : Zone → Zone
next_serial z = record z { soa_serial = z.soa_serial + 1 }

-- UPDATE zones SET soa_serial=soa_serial+1 WHERE id=?
unfoldable pub bump_serial : ℕ → Run Db (Unit {0})
unfolding update_zone
bump_serial = update_zone next_serial

-- INSERT INTO zones (name, default_ttl, soa_mname, soa_rname), the other columns by default
unfoldable pub insert_zone : Text → ℕ → Text → Text → Run Db ℕ
unfolding exists text_eq
insert_zone name default_ttl soa_mname soa_rname db =
    if exists (λ z. text_eq z.name name) db.zones then (db, err integrity_error) else (
      record db {
        zones =
            db.zones
            ++ record {
              id = db.next_zone_id;
              name = name;
              ztype = codes "authoritative";
              default_ttl = default_ttl;
              soa_mname = some soa_mname;
              soa_rname = some soa_rname;
              soa_serial = 1;
              soa_refresh = 3600;
              soa_retry = 900;
              soa_expire = 604800;
              soa_minimum = 300;
              dnssec_enabled = false;
              nsec3_enabled = false;
              nsec3_salt = [];
              nsec3_iterations = 0;
            }
              ∷ [];
        next_zone_id = db.next_zone_id + 1;
      },
      ok db.next_zone_id,
    )

-- DELETE FROM zones WHERE id=?, with the rows that refer to the zone
unfoldable pub delete_zone_row : ℕ → Run Db (Unit {0})
unfolding select
delete_zone_row zone_id = write (λ db. record db {
  zones = select (λ z. not (z.id == zone_id)) db.zones;
  records = select (λ r. not (r.zone_id == zone_id)) db.records;
  dnssec_keys = select (λ k. not (k.zone_id == zone_id)) db.dnssec_keys;
})

-- SELECT * FROM dnssec_keys WHERE zone_id=?
unfoldable pub key_of : ℕ → Db → Option KeyRow
unfolding select_one
key_of zone_id db = select_one (λ k. k.zone_id == zone_id) db.dnssec_keys

-- `audit` of app/auth.py
unfoldable pub audit : Text → Text → Run Db (Unit {0})
audit action category = write (λ db. record db {
  audit_log = db.audit_log ++ record { action = action; category = category } ∷ [];
})
