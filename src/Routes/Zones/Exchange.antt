-- ===== src/Routes/Zones/Exchange.antt =====
-- `import_records`, `export_json`, `export_csv` and `export_yaml` of app/routes/zones.py. The libraries
-- that read and write JSON, YAML and CSV are parameters; a file is given as its decoded text.
pub mod Entries
pub mod Integrity
pub mod Unsigned
pub mod Faithful
use nova_dns.Prelude.{
  ℕ, zero, suc, Bool, true, false, if◌then◌else◌, ◌||◌, Option, none, some, List, [], ◌∷◌, ◌++◌,
  String, map, length, Result, Error, ok, err, dns_error, struct_error, index_error, key_error,
  value_error, type_error, unicode_error, integrity_error, out_of_fuel, below_zero, or_raise,
}
use nova_dns.Prelude.Int.{ℤ, pos, negsuc}
use nova_dns.Text.{Text, lower, ends_with}
use nova_dns.Text.Number.{str_of}
use nova_dns.Wire.Types.{codes}
use nova_dns.Wire.Rdata.{Field, num, text, null, Value, item, as_text, int_of_text}
use nova_dns.Run.{Run, ◌>>=◌, ◌>>◌, pure, lift, read}
use nova_dns.Db.{Db, Zone, Row}
use nova_dns.Db.Statements.{zone_of, records_of, insert_record}
use nova_dns.ZoneSigning.Signing.{Signer}
use nova_dns.Routes.{Site, Reply, with_count, refused, put_db, on_db}
use nova_dns.Routes.Zones.Requests.{field, is_true, int_of_field, natural, number_text}
use nova_dns.Routes.Zones.Exchange.Entries.{
  Entry, Formats, Upload, Columns, Payload, read_records, read_csv, columns_of, exported, csv_row,
}
use nova_dns.Routes.Zones.Records.{with_zone, zone_found, quoted, publish}

unfoldable pub insert_columns : ℕ → Columns → Run Db (Unit {0})
unfolding insert_record
insert_columns zone_id c =
    insert_record zone_id c.name c.rtype c.ttl c.values c.client_match >>= λ id. pure tt

unfoldable pub import_rows : ℕ → List Entry → Run Db (Unit {0})
unfolding columns_of insert_columns
import_rows zone_id [] = pure tt
import_rows zone_id (e ∷ entries) =
    lift (columns_of e) >>= λ c. insert_columns zone_id c >> import_rows zone_id entries

-- The branch for the file's name, in lower case; none is the reply for another ending.
unfoldable pub entries_of : Formats → Text → Text → Option (Result (List Entry))
unfolding ends_with read_records read_csv
entries_of p filename contents =
    if ends_with filename (codes ".json")
    then some (read_records (p.json_loads contents))
    else if ends_with filename (codes ".csv")
    then some (read_csv p contents)
    else if ends_with filename (codes ".yaml") || ends_with filename (codes ".yml")
    then some (read_records (p.yaml_load contents))
    else none

-- What `except Exception` catches: all but what stands for no exception of the program.
unfoldable pub caught : Error → Result Reply
caught out_of_fuel = err out_of_fuel
caught below_zero = err below_zero
caught dns_error = ok (refused 400)
caught struct_error = ok (refused 400)
caught index_error = ok (refused 400)
caught key_error = ok (refused 400)
caught value_error = ok (refused 400)
caught type_error = ok (refused 400)
caught unicode_error = ok (refused 400)
caught integrity_error = ok (refused 400)

-- the exception becomes a reply; what was changed before stays
unfoldable pub attempted : Site × Result Reply → Site × Result Reply
unfolding caught
attempted (site, ok reply) = (site, ok reply)
attempted (site, err e) = (site, caught e)

unfoldable pub attempt : Run Site Reply → Run Site Reply
unfolding attempted
attempt call site = attempted (call site)

unfoldable pub import_file :
    Signer → Zone → ℕ → Text → Option (Result (List Entry)) → Run Site Reply
unfolding import_rows publish put_db quoted str_of
import_file s zone zone_id filename none = pure (refused 400)
import_file s zone zone_id filename (some found) = lift found >>= λ entries.
    on_db (import_rows zone_id entries)
    >> publish s zone_id
        (quoted (codes "Imported " ++ (str_of (length entries) ++ codes " record(s) into zone "))
          zone.name (codes " from " ++ filename))
        (with_count (length entries))

unfoldable pub import_upload : Signer → Formats → Zone → ℕ → Option Upload → Run Site Reply
unfolding lower entries_of import_file attempt
import_upload s p zone zone_id none = pure (refused 400)
import_upload s p zone zone_id (some file) = attempt (
    import_file s zone zone_id (lower file.filename)
      (entries_of p (lower file.filename) file.contents))

unfoldable pub import_records : Signer → Formats → ℕ → Option Upload → Run Site Reply
unfolding zone_found zone_of put_db import_upload
import_records s p zone_id upload = with_zone zone_id λ zone. import_upload s p zone zone_id upload

-- zone.keys() and zone["name"]: TypeError where there is no zone
unfoldable pub exported_zone : ℕ → Run Db Zone
unfolding zone_of
exported_zone zone_id db = (db, or_raise type_error (zone_of zone_id db))

-- "records" of the files of JSON and YAML
unfoldable pub export_entries : ℕ → Db → List Entry
unfolding exported records_of
export_entries zone_id db = map exported (records_of zone_id db)

unfoldable pub export_json : ℕ → Run Db (Zone × List Entry)
unfolding exported_zone export_entries
export_json zone_id = do
  zone ← exported_zone zone_id
  entries ← read (export_entries zone_id)
  pure (zone, entries)

unfoldable pub export_yaml : ℕ → Run Db (Text × ℕ × List Entry)
unfolding exported_zone export_entries
export_yaml zone_id = do
  zone ← exported_zone zone_id
  entries ← read (export_entries zone_id)
  pure (zone.name, zone.default_ttl, entries)

-- the rows behind the first, which names the columns
unfoldable pub export_csv : Formats → ℕ → Run Db (List Value)
unfolding exported_zone csv_row records_of
export_csv p zone_id = do
  zone ← exported_zone zone_id
  records ← read (records_of zone_id)
  pure (map (csv_row p) records)
