-- ===== src/Resolver/State.antt =====
-- The resolver's state in app/dnscore/resolver.py: `__init__`, `_get_setting`, `_log`, and
-- `is_allowed_by_acl` with the setting it reads. A call of a method returns the state after it.
use nova_dns.Prelude.{ℕ, Bool, ◌-◌, ◌+◌, ◌*◌, none, some, List, [], ◌∷◌, ◌++◌, ltb, if◌then◌else◌}
use nova_dns.Dict
use nova_dns.Text.{Text, text_eq}
use nova_dns.Wire.Types.{codes}
use nova_dns.Wire.Message.{ResourceRecord}
use nova_dns.Cache.{DnsCache, new_cache, second}
use nova_dns.Db.{Db, Client, exists, update}
use nova_dns.Resolver.Host.{Host}
use nova_dns.Resolver.Clients.{allowed_by_acl}

-- `Resolver`, with the database that it opens
pub record State : Type 0 where
  pub db : Db
  pub cache : DnsCache ResourceRecord
  pub settings_cache : List (Text × Text)
  pub settings_cache_at : ℕ

-- `__init__`, with the cache's default arguments
abbrev pub new_state : Db → State
new_state db = record {
  db = db;
  cache = new_cache 50000 60;
  settings_cache = [];
  settings_cache_at = 0;
}

-- {r["key"]: r["value"] for r in rows}
dict_of : List (Text × Text) → List (Text × Text) → List (Text × Text)
unfolding Dict.put text_eq
dict_of d [] = d
dict_of d ((k, v) ∷ rows) = dict_of (Dict.put text_eq k v d) rows

unfoldable pub refresh : State → ℕ → State
unfolding dict_of
refresh s now =
    if ltb (5 * second) (now - s.settings_cache_at)
    then record s { settings_cache = dict_of [] s.db.settings; settings_cache_at = now }
    else s

unfoldable pub get_setting : State → ℕ → Text → Text → State × Text
unfolding refresh Dict.get text_eq
get_setting s now key default =
    let t = refresh s now in
    (t, elim (Dict.get text_eq key t.settings_cache) [ none ↦ default | some v ↦ v ])

unfoldable pub is_allowed_by_acl : Host → State → ℕ → Text → State × Bool
unfolding get_setting allowed_by_acl
is_allowed_by_acl host s now client_ip =
    let (t, raw) = get_setting s now (codes "acl_networks") [] in
    (t, allowed_by_acl host raw client_ip)

unfoldable pub count_client : Text → List Client → List Client
unfolding exists update text_eq
count_client ip clients =
    if exists (λ c. text_eq c.ip ip) clients
    then update (λ c. text_eq c.ip ip) (λ c. record c { query_count = c.query_count + 1 }) clients
    else clients ++ record { ip = ip; query_count = 1 } ∷ []

-- `_log`, but for the latency and the time of the last query; every write succeeds, so that the
-- failure that the source drops does not occur
unfoldable pub log : State → Text → Text → Text → ℕ → Text → State
unfolding count_client
log s qname qtype client_ip rcode source = record s {
  db = record s.db {
    query_log =
        s.db.query_log
        ++ record {
          client_ip = client_ip;
          qname = qname;
          qtype = qtype;
          rcode = rcode;
          source = source;
        }
          ∷ [];
    clients = count_client client_ip s.db.clients;
  };
}
