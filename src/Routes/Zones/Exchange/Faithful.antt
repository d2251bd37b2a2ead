-- ===== src/Routes/Zones/Exchange/Faithful.antt =====
-- What is exported from one zone and imported into another is there as it was.
use nova_dns.Prelude.{
  ℕ, ◌≡◌, refl, sym, true, false, arith, length, ◌∙◌, ap, Option, none, some, List, [], ◌∷◌, ◌++◌,
  map, ok, ◌==◌,
}
use mathlib.Core.List.{append_assoc, append-nil, map-append}
use nova_dns.Text.{Text, lower, ends_with}
use nova_dns.Text.Number.{str_of}
use nova_dns.Wire.Types.{codes}
use nova_dns.Dict
use nova_dns.Wire.Rdata.{Value, item, item_or}
use nova_dns.Routes.Zones.Requests.{field, natural}
use nova_dns.Run.{go_on, pure}
use nova_dns.Db.{Db, Zone, Row, select}
use nova_dns.Db.Selecting.{select-append}
use nova_dns.Db.Statements.{
  zone_of, records_of, with_record, insert_record, audit, bump_serial, update_zone,
}
use nova_dns.Routes.Zones.Exchange.Entries.{
  Entry, Formats, Upload, object, read_records, records_in, Columns, exported, columns_of,
  number_column, optional_column, optional_number, optional_text, some_natural, text_column,
}
use nova_dns.Routes.Zones.Exchange.{
  insert_columns, import_rows, export_entries, entries_of, import_file, import_upload,
  import_records, attempt, attempted,
}
use nova_dns.Routes.Zones.Exchange.Unsigned.{logged_bump, publish-unsigned}
use nova_dns.ZoneSigning.Signing.{Signer}
use nova_dns.Routes.{Site, with_count, put_db, cleared}
use nova_dns.Routes.Zones.Records.{quoted, zone_found}

-- what a record says, without its id and its zone
abbrev pub content : Row → Text × Text × Option ℕ × Value × Option Text
content r = (r.name, r.rtype, r.ttl, r.data_json, r.client_match)

-- the database with a copy of a record in the zone
abbrev copied : ℕ → Row → Db → Db
copied zone_id r = with_record zone_id r.name r.rtype r.ttl r.data_json r.client_match

number_column-optional : (ttl : Option ℕ) → number_column (optional_number ttl) ≡ ok ttl
unfolding number_column optional_number some_natural natural
number_column-optional none = refl
number_column-optional (some n) = refl

optional_column-optional : (m : Option Text) → optional_column (optional_text m) ≡ m
unfolding optional_column optional_text
optional_column-optional none = refl
optional_column-optional (some s) = refl

columns_of-exported :
    (r : Row)
    → columns_of (exported r)
      ≡ ok (record {
        name = r.name;
        rtype = r.rtype;
        ttl = r.ttl;
        values = r.data_json;
        client_match = r.client_match;
      })
unfolding columns_of exported item field text_column item_or Dict.get
columns_of-exported r =
    rw (number_column-optional r.ttl, optional_column-optional r.client_match) refl

abbrev all_copied : ℕ → List Row → Db → Db
all_copied zone_id [] db = db
all_copied zone_id (r ∷ rows) db = all_copied zone_id rows (copied zone_id r db)

pub insert_record-some :
    (zone_id : ℕ) (z : Zone) (name rtype : Text) (ttl : Option ℕ) (v : Value) (m : Option Text)
    (db : Db)
    → zone_of zone_id db ≡ some z
    → insert_record zone_id name rtype ttl v m db
      ≡ (with_record zone_id name rtype ttl v m db, ok db.next_record_id)
unfolding insert_record
insert_record-some zone_id z name rtype ttl v m db e = rw (e, insert_record) refl

insert_columns-eq :
    (zone_id : ℕ) (z : Zone) (c : Columns) (db : Db)
    → zone_of zone_id db ≡ some z
    → insert_columns zone_id c db
      ≡ (with_record zone_id c.name c.rtype c.ttl c.values c.client_match db, ok tt)
unfolding insert_columns go_on
insert_columns-eq zone_id z c db e =
    ap (go_on λ id. pure tt)
      (insert_record-some zone_id z c.name c.rtype c.ttl c.values c.client_match db e)

zone_of-copied :
    (zone_id : ℕ) (r : Row) (db : Db) → zone_of zone_id (copied zone_id r db) ≡ zone_of zone_id db
unfolding zone_of with_record
zone_of-copied zone_id r db = refl

import_rows-exported :
    (zone_id : ℕ) (z : Zone) (rows : List Row) (db : Db)
    → zone_of zone_id db ≡ some z
    → import_rows zone_id (map exported rows) db ≡ (all_copied zone_id rows db, ok tt)
unfolding import_rows go_on
import_rows-exported zone_id z [] db e = refl
import_rows-exported zone_id z (r ∷ rows) db e =
    rw (columns_of-exported r, insert_columns-eq zone_id z _ db e)
      (import_rows-exported zone_id z rows (copied zone_id r db) (zone_of-copied zone_id r db ∙ e))

-- what the records of a zone say, in the order of their rows
abbrev pub contents : ℕ → Db → List (Text × Text × Option ℕ × Value × Option Text)
contents zone_id db = map content (records_of zone_id db)

same : (n : ℕ) → (n == n) ≡ true
same n = ground arith

contents-copied :
    (zone_id : ℕ) (r : Row) (db : Db)
    → contents zone_id (copied zone_id r db) ≡ contents zone_id db ++ content r ∷ []
unfolding records_of with_record
contents-copied zone_id r db =
    rw
      (
        select-append (λ q. q.zone_id == zone_id) db.records _,
        map-append content _ _,
        select,
        same zone_id,
      )
      refl

contents-all_copied :
    (zone_id : ℕ) (rows : List Row) (db : Db)
    → contents zone_id (all_copied zone_id rows db) ≡ contents zone_id db ++ map content rows
contents-all_copied zone_id [] db = sym (append-nil (contents zone_id db))
contents-all_copied zone_id (r ∷ rows) db =
    contents-all_copied zone_id rows (copied zone_id r db)
    ∙ ap (λ rs. rs ++ map content rows) (contents-copied zone_id r db)
    ∙ append_assoc (contents zone_id db) (content r ∷ []) (map content rows)

-- a JSON file that the library reads as an object with these records
entries_of-json :
    (p : Formats) (filename contents : Text) (entries : List Entry)
    → ends_with filename (codes ".json") ≡ true
    → p.json_loads contents ≡ ok (object (some entries))
    → entries_of p filename contents ≡ some (ok entries)
unfolding entries_of read_records records_in
entries_of-json p filename contents entries h e = rw (h, e) refl

-- the log entry of an import
abbrev told : Text → Zone → List Entry → Text
told filename z entries =
    quoted (codes "Imported " ++ (str_of (length entries) ++ codes " record(s) into zone ")) z.name
      (codes " from " ++ filename)

zone_of-all_copied :
    (zone_id : ℕ) (rows : List Row) (db : Db)
    → zone_of zone_id (all_copied zone_id rows db) ≡ zone_of zone_id db
zone_of-all_copied zone_id [] db = refl
zone_of-all_copied zone_id (r ∷ rows) db =
    zone_of-all_copied zone_id rows (copied zone_id r db) ∙ zone_of-copied zone_id r db

module _ (s : Signer) (p : Formats) (target zone_id : ℕ) (z : Zone) (site : Site)
    (here : zone_of target site.db ≡ some z) (unsigned : z.dnssec_enabled ≡ false) where
  -- the site after the import
  abbrev imported : Text → Site
  imported filename = record {
    db =
        logged_bump target (told filename z (export_entries zone_id site.db))
          (all_copied target (records_of zone_id site.db) site.db);
    cache = cleared site.cache;
  }

  import_file-export :
      (filename : Text)
      → import_file s z target filename (some (ok (export_entries zone_id site.db))) site
        ≡ (imported filename, ok (with_count (length (export_entries zone_id site.db))))
  unfolding import_file go_on put_db export_entries
  import_file-export filename =
      let rows = records_of zone_id site.db in
      rw (import_rows-exported target z rows site.db here) (
        publish-unsigned s target z (told filename z (map exported rows))
          (with_count (length (map exported rows)))
          (record site { db = all_copied target rows site.db })
          (zone_of-all_copied target rows site.db ∙ here) unsigned)

  contents-imported :
      (filename : Text)
      → contents target (imported filename).db ≡ contents target site.db ++ contents zone_id site.db
  unfolding audit bump_serial update_zone records_of
  contents-imported filename = contents-all_copied target (records_of zone_id site.db) site.db

  -- A file whose name ends with ".json", and which is read as the records that were exported from a
  -- zone, is imported into a zone that is there and not signed: the reply gives their number, the
  -- zone has then its own records followed by those of the exported one, with the same names, types,
  -- TTLs, data and clients, in the same order, and the cache of the DNS server is empty.
  pub import_records-export :
      (file : Upload)
      → ends_with (lower file.filename) (codes ".json") ≡ true
      → p.json_loads file.contents ≡ ok (object (some (export_entries zone_id site.db)))
      → (after : Site) × (import_records s p target (some file) site
          ≡ (after, ok (with_count (length (export_entries zone_id site.db)))))
        × (contents target after.db ≡ contents target site.db ++ contents zone_id site.db)
        × (after.cache ≡ cleared site.cache)
  unfolding import_records import_upload zone_found go_on put_db attempt attempted
  import_records-export file h e =
      let filename = lower file.filename in
      (
        imported filename,
        rw (here, entries_of-json p filename file.contents _ h e, import_file-export filename) refl,
        contents-imported filename,
        refl,
      )
