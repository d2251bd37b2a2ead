-- ===== src/Routes.antt =====
-- The web handlers of app/routes: a handler is a call on the site, that is the database and the cache
-- of the DNS server, if it runs. What it replies is told by status and number; texts are left out.
pub mod Zones
pub mod Settled
pub mod Kept
use nova_dns.Prelude.{
  ℕ, Bool, true, false, Option, none, some, List, [], ◌∷◌, String, Result, ok, err, if◌then◌else◌,
}
use nova_dns.Prelude.Int.{ℤ, pos, negsuc}
use nova_dns.Text.{Text}
use nova_dns.Wire.Types.{codes}
use nova_dns.Wire.Message.{ResourceRecord}
use nova_dns.Wire.Rdata.{Field, num, text, null, Value}
use nova_dns.Run.{Run, pure, write}
use nova_dns.Cache.{DnsCache, clear}
use nova_dns.Db.{Db}

pub record Site : Type 0 where
  pub db : Db
  pub cache : Option (DnsCache ResourceRecord)

-- What a handler replies: {"ok": true} alone, with an id or with a number of rows; a redirection to a
-- zone's page; a refusal with its HTTP status.
pub data Reply : Type 0 where
  done : Reply
  with_id : ℕ → Reply
  with_count : ℕ → Reply
  redirected : ℕ → Reply
  refused : ℕ → Reply

-- a call on the database, whose changes stay also when it raises
unfoldable pub put_db {ℓ} : {A : Type ℓ} → Site → Db × Result A → Site × Result A
put_db site (db, r) = (record site { db = db }, r)

abbrev pub on_db : {A : Type 0} → Run Db A → Run Site A
on_db call site = put_db site (call site.db)

-- `_bust_cache`
pub cleared : Option (DnsCache ResourceRecord) → Option (DnsCache ResourceRecord)
unfolding clear
cleared none = none
cleared (some cache) = some (clear cache)

unfoldable pub bust_cache : Run Site (Unit {0})
unfolding cleared
bust_cache = write (λ site. record site { cache = cleared site.cache })

-- `if test: return …` with a status
unfoldable pub refuse_if : Bool → ℕ → Run Site Reply → Run Site Reply
refuse_if true status next = pure (refused status)
refuse_if false status next = next
