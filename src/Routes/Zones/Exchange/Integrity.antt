-- ===== src/Routes/Zones/Exchange/Integrity.antt =====
-- The import of a file keeps the invariant of the tables.
use nova_dns.Prelude.{ℕ, Option, none, some, List, [], ◌∷◌, Result, ok, err}
use nova_dns.Text.{Text, lower}
use nova_dns.Run.{Run, Steps, lift-Steps}
use nova_dns.Db.{Zone}
use nova_dns.Db.Valid.{IsValid}
use nova_dns.Db.Valid.Statements.{Keeps}
use nova_dns.ZoneSigning.Signing.{Signer}
use nova_dns.Routes.{Site, Reply, refused}
use nova_dns.Routes.Kept.{
  Keeps-same, Keeps-trans, SiteKeeps, db_then, given, on_then, lift_then, inserted,
}
use nova_dns.Routes.Zones.Dispatch.Integrity.{with_zone-Steps, publish-Steps}
use nova_dns.Routes.Zones.Exchange.Entries.{Entry, Formats, Upload, Columns, columns_of}
use nova_dns.Routes.Zones.Exchange.{
  insert_columns, import_rows, attempted, attempt, import_file, import_upload, import_records,
}

settled : {A : Type 0} (r : Result A) → Steps Keeps {A = A} (λ db. (db, r))
settled = lift-Steps Keeps Keeps-same Keeps-trans

insert_columns-Steps : (zone_id : ℕ) (c : Columns) → Steps Keeps (insert_columns zone_id c)
unfolding insert_columns
insert_columns-Steps zone_id c =
    db_then _ _ (inserted zone_id c.name c.rtype c.ttl c.values c.client_match)
      λ id. settled (ok tt)

import_rows-Steps : (zone_id : ℕ) (entries : List Entry) → Steps Keeps (import_rows zone_id entries)
unfolding import_rows
import_rows-Steps zone_id [] = settled (ok tt)
import_rows-Steps zone_id (e ∷ entries) =
    db_then _ _ (settled (columns_of e))
      λ c. db_then _ _ (insert_columns-Steps zone_id c) λ done. import_rows-Steps zone_id entries

attempted-Keeps :
    (s : Site) (x : Site × Result Reply) → SiteKeeps s x.0 → SiteKeeps s (attempted x).0
unfolding attempted
attempted-Keeps s (t, ok reply) h = h
attempted-Keeps s (t, err e) h = h

attempt-Steps : (call : Run Site Reply) → Steps SiteKeeps call → Steps SiteKeeps (attempt call)
unfolding attempt
attempt-Steps call h = record { keeps = λ s. attempted-Keeps s (call s) (h.keeps s) }

module _ (s : Signer) (p : Formats) where
  import_file-Steps :
      (zone : Zone) (zone_id : ℕ) (filename : Text) (found : Option (Result (List Entry)))
      → Steps SiteKeeps (import_file s zone zone_id filename found)
  unfolding import_file
  import_file-Steps zone zone_id filename none = given (ok (refused 400))
  import_file-Steps zone zone_id filename (some found) =
      lift_then found _ λ entries.
        on_then _ _ (import_rows-Steps zone_id entries) λ done. publish-Steps s zone_id _ _

  import_upload-Steps :
      (zone : Zone) (zone_id : ℕ) (upload : Option Upload)
      → Steps SiteKeeps (import_upload s p zone zone_id upload)
  unfolding import_upload
  import_upload-Steps zone zone_id none = given (ok (refused 400))
  import_upload-Steps zone zone_id (some file) =
      attempt-Steps _ (import_file-Steps zone zone_id (lower file.filename) _)

  -- Whatever file is imported into whatever zone, and also when the import stops midway: the
  -- invariant of the tables, as for the other requests, holds after it if it holds before.
  pub import_records-IsValid :
      (zone_id : ℕ) (upload : Option Upload) (site : Site)
      → IsValid site.db
      → IsValid (import_records s p zone_id upload site).0.db
  unfolding import_records
  import_records-IsValid zone_id upload =
      (with_zone-Steps zone_id _ λ zone. import_upload-Steps zone zone_id upload).keeps
