-- ===== src/Tests/Exchange.antt =====
-- A zone that is exported to JSON and imported again, and what the results say of it.
use nova_dns.Prelude.{◌≡◌, refl, true, some, [], ◌∷◌, ◌++◌, Result, ok, length}
use nova_dns.Text.{ends_with, lower}
use nova_dns.Wire.Types.{codes}
use nova_dns.Wire.Rdata.{text}
use nova_dns.Run.{go_on}
use nova_dns.Db.Statements.{zone_of}
use nova_dns.Db.Valid.{IsValid}
use nova_dns.Tests.Data.{example_zone}
use nova_dns.Tests.Signing.{small_signer}
use nova_dns.Tests.Zones.{small_site, small_db-IsValid}
use nova_dns.Routes.{Site, Reply, with_count, refused, cleared}
use nova_dns.Routes.Zones.Exchange.Entries.{Formats, Upload, Payload, object, rows}
use nova_dns.Routes.Zones.Exchange.{export_entries, import_records}
use nova_dns.Routes.Zones.Exchange.Integrity.{import_records-IsValid}
use nova_dns.Routes.Zones.Exchange.Faithful.{contents, import_records-export}

-- libraries that read every file as the export of zone 1, or as a list of its records
abbrev reading : Payload → Formats
reading payload = record {
  json_loads = λ t. ok payload;
  yaml_load = λ t. ok payload;
  csv_rows = λ t. ok [];
  data_loads = λ t. ok (("address", text t) ∷ []);
  data_dumps = λ v. [];
}

abbrev as_object : Formats
as_object = reading (object (some (export_entries 1 small_site.db)))

abbrev zone_file : Upload
zone_file = record { filename = codes "Zone.JSON"; contents = [] }

is_json : ends_with (lower zone_file.filename) (codes ".json") ≡ true
unfolding ends_with lower
is_json = refl

zone_here : zone_of 1 small_site.db ≡ some example_zone
unfolding zone_of
zone_here = refl

import_records-export_example :
    (after : Site) × (import_records small_signer as_object 1 (some zone_file) small_site
      ≡ (after, ok (with_count (length (export_entries 1 small_site.db)))))
    × (contents 1 after.db ≡ contents 1 small_site.db ++ contents 1 small_site.db)
    × (after.cache ≡ cleared small_site.cache)
import_records-export_example =
    import_records-export small_signer as_object 1 1 example_zone small_site zone_here refl
      zone_file is_json refl

import_records-IsValid_example :
    IsValid (import_records small_signer as_object 1 (some zone_file) small_site).0.db
import_records-IsValid_example =
    import_records-IsValid small_signer as_object 1 (some zone_file) small_site small_db-IsValid

-- a file that holds the records as a list
list_refused :
    ◌≡◌ {A = Site × Result Reply}
      (import_records small_signer
        (reading (rows (export_entries 1 small_site.db)))
        1
        (some zone_file)
        small_site)
      (small_site, ok (refused 400))
unfolding import_records go_on
list_refused = refl
