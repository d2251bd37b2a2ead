-- ===== src/Db.antt =====
-- The tables of app/schema.sql that the modelled parts read and write, as lists of rows in rowid
-- order, and app/db.py's `query` over them: a SELECT is a filter. A nullable column is an option; a
-- `data_json` column is the value that `json.loads` gives for it.
pub mod Statements
pub mod Selecting
pub mod Finding
pub mod Valid
use nova_dns.Prelude.{ℕ, Bool, true, false, Option, none, some, List, [], ◌∷◌, if◌then◌else◌}
use nova_dns.Text.{Text}
use nova_dns.Wire.Rdata.{Value}

pub record Zone : Type 0 where
  pub id : ℕ
  pub name : Text
  pub ztype : Text
  pub default_ttl : ℕ
  pub soa_mname : Option Text
  pub soa_rname : Option Text
  pub soa_serial : ℕ
  pub soa_refresh : ℕ
  pub soa_retry : ℕ
  pub soa_expire : ℕ
  pub soa_minimum : ℕ
  pub dnssec_enabled : Bool
  pub nsec3_enabled : Bool
  pub nsec3_salt : Text
  pub nsec3_iterations : ℕ

pub record Row : Type 0 where
  pub id : ℕ
  pub zone_id : ℕ
  pub name : Text
  pub rtype : Text
  pub ttl : Option ℕ
  pub data_json : Value
  pub client_match : Option Text

pub record BlockEntry : Type 0 where
  pub blocklist_id : Option ℕ
  pub domain : Text
  pub list_type : Text
  pub is_regex : Bool
  pub client_match : Option Text

pub record Blocklist : Type 0 where
  pub id : ℕ
  pub enabled : Bool

pub record ClientGroup : Type 0 where
  pub id : ℕ
  pub name : Text

pub record GroupEntry : Type 0 where
  pub group_id : ℕ
  pub cidr_or_ip : Text

pub record RewriteRule : Type 0 where
  pub id : ℕ
  pub match_type : Text
  pub pattern_text : Text
  pub rtype : Text
  pub rewrite_value : Value
  pub client_match : Option Text
  pub time_start : Option Text
  pub time_end : Option Text
  pub priority : ℕ
  pub enabled : Bool
  pub hits : ℕ

pub record Forwarder : Type 0 where
  pub id : ℕ
  pub address : Text
  pub port : ℕ
  pub protocol : Text
  pub enabled : Bool
  pub priority : ℕ
  pub condition_domain : Option Text
  pub healthy : Bool

pub record LogRow : Type 0 where
  pub client_ip : Text
  pub qname : Text
  pub qtype : Text
  pub rcode : ℕ
  pub source : Text

pub record Client : Type 0 where
  pub ip : Text
  pub query_count : ℕ

pub record KeyRow : Type 0 where
  pub id : ℕ
  pub zone_id : ℕ
  pub algorithm : ℕ
  pub key_tag : ℕ
  pub flags : ℕ
  pub private_key_pem : Text
  pub public_key_hex : Text
  pub ds_digest_sha256 : Text

-- a row of the audit log, but for its details and the user and address of the session
pub record AuditRow : Type 0 where
  pub action : Text
  pub category : Text

-- `next_zone_id` and so on are the ids that AUTOINCREMENT gives next.
pub record Db : Type 0 where
  pub settings : List (Text × Text)
  pub maintenance : Bool
  pub zones : List Zone
  pub records : List Row
  pub block_entries : List BlockEntry
  pub blocklists : List Blocklist
  pub client_groups : List ClientGroup
  pub client_group_entries : List GroupEntry
  pub rewrite_rules : List RewriteRule
  pub forwarders : List Forwarder
  pub query_log : List LogRow
  pub clients : List Client
  pub dnssec_keys : List KeyRow
  pub audit_log : List AuditRow
  pub next_zone_id : ℕ
  pub next_record_id : ℕ
  pub next_key_id : ℕ

module _ {ℓ} {A : Type ℓ} where
  -- SELECT * FROM rows WHERE keep
  unfoldable pub select : (A → Bool) → List A → List A
  select keep [] = []
  select keep (r ∷ rows) = let rest = select keep rows in if keep r then r ∷ rest else rest

  -- query(..., one=True)
  unfoldable pub select_one : (A → Bool) → List A → Option A
  select_one keep [] = none
  select_one keep (r ∷ rows) = let rest = select_one keep rows in if keep r then some r else rest

  -- any(test(r) for r in rows)
  unfoldable pub exists : (A → Bool) → List A → Bool
  exists test [] = false
  exists test (r ∷ rows) = let rest = exists test rows in if test r then true else rest

  -- UPDATE rows SET change WHERE keep
  unfoldable pub update : (A → Bool) → (A → A) → List A → List A
  update keep change [] = []
  update keep change (r ∷ rows) =
      let rest = update keep change rows in if keep r then change r ∷ rest else r ∷ rest

-- the truth value of a nullable text
unfoldable pub is_set : Option Text → Bool
is_set none = false
is_set (some []) = false
is_set (some (c ∷ s)) = true
