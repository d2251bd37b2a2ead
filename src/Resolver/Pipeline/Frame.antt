-- ===== src/Resolver/Pipeline/Frame.antt =====
-- What `resolve` of app/dnscore/resolver.py leaves as it is, on every path through it.
use nova_dns.Prelude.{
  ℕ, ◌≡◌, refl, ◌∙◌, Bool, true, false, Option, none, some, List, [], ◌∷◌, inl, inr, Bool-cases,
  Option-cases, ltb, ◌-◌, ◌*◌, Result, ok, err, ◌>>=◌,
}
use nova_dns.Text.{Text, fold_name}
use nova_dns.Wire.Types.{codes}
use nova_dns.Wire.Name.{Bytes}
use nova_dns.Wire.Message.{Message, ResourceRecord, to_wire}
use nova_dns.Cache
use nova_dns.Cache.Laws.{IsValid, get-IsValid, set-IsValid}
use nova_dns.Db.{Db, Zone, Forwarder, RewriteRule}
use nova_dns.Resolver.Host.{Host, Moment}
use nova_dns.Resolver.Clients.{is_blocked}
use nova_dns.Resolver.Zones.{find_zone, lookup_in_zone}
use nova_dns.Resolver.Rewrite.{apply_rewrite, rewritten_by, first_rule, rule_applies, rules_for}
use nova_dns.Resolver.Forward.{get_forwarders, forward_query, request, try_forwarders}
use nova_dns.Resolver.State.{State, refresh, get_setting, is_allowed_by_acl, log}
use nova_dns.Resolver.Pipeline.{
  Reply, resolve, maintained, filtered, rewrite, rewritten, look_in_cache, look_up, answer_of,
  denied, in_zone, forwarded, forward, stored, cache_qtype, zone_reply, denial, servfail, nxdomain,
  reply_of,
}

-- The configuration is the same, and the cache is well-formed.
pub record Kept (s t : State) : Type 0 where
  pub zones : t.db.zones ≡ s.db.zones
  pub records : t.db.records ≡ s.db.records
  pub block_entries : t.db.block_entries ≡ s.db.block_entries
  pub blocklists : t.db.blocklists ≡ s.db.blocklists
  pub settings : t.db.settings ≡ s.db.settings
  pub cache_IsValid : IsValid t.cache

-- The same with a cache that is well-formed if it was so: this is what steps compose.
record Keeps (s t : State) : Type 0 where
  zones : t.db.zones ≡ s.db.zones
  records : t.db.records ≡ s.db.records
  block_entries : t.db.block_entries ≡ s.db.block_entries
  blocklists : t.db.blocklists ≡ s.db.blocklists
  settings : t.db.settings ≡ s.db.settings
  cache_IsValid : IsValid s.cache → IsValid t.cache

Keeps-refl : (s : State) → Keeps s s
Keeps-refl s = record {
  zones = refl;
  records = refl;
  block_entries = refl;
  blocklists = refl;
  settings = refl;
  cache_IsValid = λ v. v;
}

Keeps-trans : {s t u : State} → Keeps s t → Keeps t u → Keeps s u
Keeps-trans a b = record {
  zones = b.zones ∙ a.zones;
  records = b.records ∙ a.records;
  block_entries = b.block_entries ∙ a.block_entries;
  blocklists = b.blocklists ∙ a.blocklists;
  settings = b.settings ∙ a.settings;
  cache_IsValid = λ v. b.cache_IsValid (a.cache_IsValid v);
}

log-Keeps :
    (s : State) (qname qtype ip : Text) (rcode : ℕ) (source : Text)
    → Keeps s (log s qname qtype ip rcode source)
unfolding log
log-Keeps s qname qtype ip rcode source = record {
  zones = refl;
  records = refl;
  block_entries = refl;
  blocklists = refl;
  settings = refl;
  cache_IsValid = λ v. v;
}

stored-Keeps :
    (s : State) (now : ℕ) (qname qtype ip : Text) (d : Bool) (reply : Reply) (origin : Cache.Origin)
    → Keeps s (stored s now qname qtype ip d reply origin)
unfolding stored log
stored-Keeps s now qname qtype ip d reply origin = record {
  zones = refl;
  records = refl;
  block_entries = refl;
  blocklists = refl;
  settings = refl;
  cache_IsValid = λ v.
      set-IsValid (λ r. r.ttl) s.cache now qname (cache_qtype qtype d) reply.answers reply.rcode
        none reply.authority origin v;
}

refresh-Keeps : (s : State) (now : ℕ) → Keeps s (refresh s now)
unfolding refresh
refresh-Keeps s now = elim (Bool-cases (ltb (5 * Cache.second) (now - s.settings_cache_at))) [
  | inl old ↦ rw old (record {
    zones = refl;
    records = refl;
    block_entries = refl;
    blocklists = refl;
    settings = refl;
    cache_IsValid = λ v. v;
  })
  | inr fresh ↦ rw fresh (Keeps-refl s)
]

is_allowed_by_acl-Keeps :
    (host : Host) (s : State) (now : ℕ) (ip : Text) → Keeps s (is_allowed_by_acl host s now ip).0
unfolding is_allowed_by_acl get_setting
is_allowed_by_acl-Keeps host s now ip = refresh-Keeps s now

module _ (host : Host) (m : Moment) (qname qtype ip : Text) (d : Bool) where
  denied-Keeps :
      (s : State) (zone : Zone) (proof : Result (List ResourceRecord))
      → Keeps s (denied host s m zone qname qtype ip d proof).0
  unfolding denied
  denied-Keeps s zone (err e) = Keeps-refl s
  denied-Keeps s zone (ok proof) =
      stored-Keeps s m.now qname qtype ip d (denial zone proof) Cache.Origin.authoritative

  in_zone-Keeps :
      (s : State) (zone : Zone) (found : Option (Text × List ResourceRecord))
      → Keeps s (in_zone host s m zone qname qtype ip d found).0
  unfolding in_zone
  in_zone-Keeps s zone none = denied-Keeps s zone _
  in_zone-Keeps s zone (some found) =
      stored-Keeps s m.now qname qtype ip d (zone_reply s.db zone qname d found)
        Cache.Origin.authoritative

  -- A database that differs in the forwarders' health alone.
  health-Keeps :
      (s : State) (fs : List Forwarder)
      → Keeps s (record s { db = record s.db { forwarders = fs } })
  health-Keeps s fs = record {
    zones = refl;
    records = refl;
    block_entries = refl;
    blocklists = refl;
    settings = refl;
    cache_IsValid = λ v. v;
  }

  forwarded-Keeps :
      (s : State) (fs : List Forwarder) (answer : Option Message)
      → Keeps s (forwarded host s m qname qtype ip d (record s.db { forwarders = fs }, answer)).0
  unfolding forwarded
  forwarded-Keeps s fs none =
      Keeps-trans (health-Keeps s fs) (log-Keeps _ qname qtype ip servfail (codes "forward"))
  forwarded-Keeps s fs (some resp) = Keeps-trans (health-Keeps s fs) (
      stored-Keeps (record s { db = record s.db { forwarders = fs } }) m.now qname qtype ip d
        (record (reply_of resp) { authority = [] }) Cache.Origin.forward)

  after : State → Result (Db × Option Message) → State × Result Reply
  after s (err e) = (s, err e)
  after s (ok r) = forwarded host s m qname qtype ip d r

  forward-Keeps :
      (s : State) (fs : List Forwarder) → Keeps s (forward host s m qname qtype ip d fs).0
  unfolding forward forward_query after
  forward-Keeps s [] = forwarded-Keeps s s.db.forwarders none
  forward-Keeps s (f ∷ fs) = go (to_wire host.codec (request m.query_id qname qtype d))
    where
      go :
          (payload : Result Bytes)
          → Keeps s
              (after s (
                payload >>= λ p.
                let (table, answer) = try_forwarders host p (f ∷ fs) s.db.forwarders in
                ok (record s.db { forwarders = table }, answer))).0
      go (err e) = Keeps-refl s
      go (ok p) =
          forwarded-Keeps s (try_forwarders host p (f ∷ fs) s.db.forwarders).0
            (try_forwarders host p (f ∷ fs) s.db.forwarders).1

  look_up-Keeps : (s : State) → Keeps s (look_up host s m qname qtype ip d).0
  unfolding look_up
  look_up-Keeps s = elim (Option-cases (find_zone s.db qname)) [
    | inl gone ↦ rw (gone, look_up) (forward-Keeps s (get_forwarders s.db qname))
    | inr (zone, there) ↦
        rw (there, look_up)
          (in_zone-Keeps s zone
            (answer_of zone qname (lookup_in_zone host s.db zone qname qtype ip)))
  ]

  look_in_cache-Keeps : (s : State) → Keeps s (look_in_cache host s m qname qtype ip d).0
  unfolding look_in_cache
  look_in_cache-Keeps s =
      elim (Option-cases (Cache.get s.cache m.now m.now qname (cache_qtype qtype d)).1) [
        | inl miss ↦ rw (miss, look_in_cache) (Keeps-trans read (look_up-Keeps _))
        | inr (hit, there) ↦
            rw (there, look_in_cache)
              (Keeps-trans read (log-Keeps _ qname qtype ip hit.rcode (codes "cache")))
      ]
    where
      read :
          Keeps s
            (record s { cache = (Cache.get s.cache m.now m.now qname (cache_qtype qtype d)).0 })
      read = record {
        zones = refl;
        records = refl;
        block_entries = refl;
        blocklists = refl;
        settings = refl;
        cache_IsValid = λ v. get-IsValid s.cache m.now m.now qname (cache_qtype qtype d) v;
      }

  rewrite-Keeps : (s : State) → Keeps s (rewrite host s m qname qtype ip d).0
  unfolding rewrite apply_rewrite rewritten rewritten_by log
  rewrite-Keeps s = go (
      first_rule host (rule_applies host s.db m.clock (fold_name qname) ip)
        (rules_for host s.db qtype))
    where
      go :
          (rule : Option RewriteRule)
          → Keeps s
              (rewritten host s m qname qtype ip d (rewritten_by host s.db qname qtype rule)).0
      go none = look_in_cache-Keeps s
      go (some r) = record {
        zones = refl;
        records = refl;
        block_entries = refl;
        blocklists = refl;
        settings = refl;
        cache_IsValid = λ v. v;
      }

  filtered-Keeps : (s : State) → Keeps s (filtered host s m qname qtype ip d).0
  unfolding filtered
  filtered-Keeps s =
      let (t, acl) = is_allowed_by_acl host s m.now ip in
      let first = is_allowed_by_acl-Keeps host s m.now ip in
      elim (Bool-cases acl) [
        | inl in_acl ↦ elim (Bool-cases (is_blocked host t.db qname ip)) [
          | inl blocked ↦
              rw (in_acl, blocked, filtered)
                (Keeps-trans first (log-Keeps t qname qtype ip nxdomain (codes "blocked")))
          | inr clear ↦ rw (in_acl, clear, filtered) (Keeps-trans first (rewrite-Keeps t))
        ]
        | inr out ↦ rw (out, filtered) first
      ]

  maintained-Keeps :
      (flag : Bool) (s : State) → Keeps s (maintained host flag s m qname qtype ip d).0
  unfolding maintained
  maintained-Keeps true s = log-Keeps s qname qtype ip servfail (codes "maintenance")
  maintained-Keeps false s = filtered-Keeps s

  -- Resolving a query changes no zone, record, block list or setting, whatever path it takes, also
  -- when it raises; and where the cache is well-formed before, it is so after.
  pub resolve-Kept : (s : State) → IsValid s.cache → Kept s (resolve host s m qname qtype ip d).0
  unfolding resolve
  resolve-Kept s v =
      let k = maintained-Keeps s.db.maintenance s in
      record {
        zones = k.zones;
        records = k.records;
        block_entries = k.block_entries;
        blocklists = k.blocklists;
        settings = k.settings;
        cache_IsValid = k.cache_IsValid v;
      }
