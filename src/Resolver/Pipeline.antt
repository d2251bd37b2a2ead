-- ===== src/Resolver/Pipeline.antt =====
-- `resolve` and `_nsec_proof` of app/dnscore/resolver.py, without the trace.
pub mod Frame
pub mod Reuse
pub mod Logging
use nova_dns.Prelude.{
  ℕ, Bool, true, false, not, ◌&&◌, Option, none, some, List, [], ◌∷◌, ◌++◌, map, if◌then◌else◌,
  Result, ok, err, ◌>>=◌,
}
use nova_dns.Text.{Text, text_eq}
use nova_dns.Wire.Types.{codes}
use nova_dns.Wire.Message.{Message, ResourceRecord}
use nova_dns.Cache
use nova_dns.Db.{Db, Zone, Row, Forwarder}
use nova_dns.ZoneSigning.{get_rrsig_for, find_covering_nsec}
use nova_dns.Resolver.Host.{Host, Moment}
use nova_dns.Resolver.Clients.{is_blocked}
use nova_dns.Resolver.Zones.{
  Found, soa, any_soa, answer_rows, synth_soa_rr, find_zone, relative_name, lookup_in_zone,
  row_to_rr,
}
use nova_dns.Resolver.Rewrite.{apply_rewrite}
use nova_dns.Resolver.Forward.{get_forwarders, forward_query}
use nova_dns.Resolver.State.{State, is_allowed_by_acl, log}

-- `wire.RCODE`
abbrev pub servfail : ℕ
servfail = 2

abbrev pub nxdomain : ℕ
nxdomain = 3

abbrev pub refused : ℕ
refused = 5

-- What `resolve` returns, but for the trace.
pub record Reply : Type 0 where
  pub answers : List ResourceRecord
  pub rcode : ℕ
  pub source : Text
  pub authority : List ResourceRecord
  pub is_authoritative : Bool

-- `cache_qtype`
unfoldable pub cache_qtype : Text → Bool → Text
cache_qtype qtype dnssec_ok = if dnssec_ok then qtype ++ codes ":DO" else qtype

is_from_zone : Cache.Origin → Bool
is_from_zone Cache.Origin.forward = false
is_from_zone Cache.Origin.authoritative = true

-- the type that an answer is for, and its records; none where there are no rows
unfoldable pub answer_of : Zone → Text → Found → Option (Text × List ResourceRecord)
unfolding synth_soa_rr row_to_rr
answer_of zone qname soa = some (codes "SOA", synth_soa_rr zone ∷ [])
answer_of zone qname any_soa = some (codes "ANY", synth_soa_rr zone ∷ [])
answer_of zone qname (answer_rows rtype []) = none
answer_of zone qname (answer_rows rtype (r ∷ rows)) =
    some (rtype, map (λ row. row_to_rr qname row zone.default_ttl) (r ∷ rows))

signatures : Db → Zone → Text → Text → Text → List ResourceRecord
unfolding get_rrsig_for row_to_rr
signatures db zone qname name covered =
    map (λ row. row_to_rr qname row zone.default_ttl) (get_rrsig_for db zone.id name covered)

-- the RRSIG records of an answer to a client that asks for them
unfoldable pub with_rrsig :
    Db → Zone → Text → Bool → Text → List ResourceRecord → List ResourceRecord
unfolding signatures relative_name text_eq
with_rrsig db zone qname dnssec_ok rtype answers =
    if dnssec_ok && zone.dnssec_enabled && not (text_eq rtype (codes "ANY"))
    then answers ++ signatures db zone qname (relative_name zone qname) rtype
    else answers

-- `cache.set` of a reply, without a TTL, and `_log` of it
unfoldable pub stored : State → ℕ → Text → Text → Text → Bool → Reply → Cache.Origin → State
unfolding Cache.set log cache_qtype
stored s now qname qtype client_ip dnssec_ok reply origin =
    log
      (record s {
        cache =
            Cache.set (λ r. r.ttl) s.cache now qname (cache_qtype qtype dnssec_ok) reply.answers
              reply.rcode none reply.authority origin;
      })
      qname qtype client_ip reply.rcode reply.source

-- the reply that has nothing but a code and its source
abbrev pub bare : ℕ → Text → Reply
bare rcode source = record {
  answers = [];
  rcode = rcode;
  source = source;
  authority = [];
  is_authoritative = false;
}

abbrev pub reply_of : Message → Reply
reply_of resp = record {
  answers = resp.answers;
  rcode = resp.rcode;
  source = codes "forward";
  authority = resp.authorities;
  is_authoritative = false;
}

-- a zone of ours has the answer
unfoldable pub zone_reply : Db → Zone → Text → Bool → Text × List ResourceRecord → Reply
unfolding with_rrsig
zone_reply db zone qname dnssec_ok (rtype, found) = record {
  answers = with_rrsig db zone qname dnssec_ok rtype found;
  rcode = 0;
  source = codes "authoritative";
  authority = [];
  is_authoritative = true;
}

-- a zone of ours has no answer
unfoldable pub denial : Zone → List ResourceRecord → Reply
unfolding synth_soa_rr
denial zone proof = record {
  answers = [];
  rcode = nxdomain;
  source = codes "authoritative";
  authority = synth_soa_rr zone ∷ proof;
  is_authoritative = true;
}

module _ (host : Host) where
  unfoldable pub nsec_proof : Db → Zone → Text → Result (List ResourceRecord)
  unfolding find_covering_nsec row_to_rr signatures
  nsec_proof db zone qname = do
    nsec_row ← find_covering_nsec host.sha1 host.codec.idna db zone qname
    ok (elim nsec_row [
      | none ↦ []
      | some row ↦
          row_to_rr qname row zone.default_ttl ∷ signatures db zone qname row.name (codes "NSEC")
    ])

  unfoldable pub denied :
      State
      → Moment
      → Zone
      → Text
      → Text
      → Text
      → Bool
      → Result (List ResourceRecord)
      → State × Result Reply
  unfolding denial stored
  denied s m zone qname qtype client_ip dnssec_ok (err e) = (s, err e)
  denied s m zone qname qtype client_ip dnssec_ok (ok proof) = (
    stored s m.now qname qtype client_ip dnssec_ok (denial zone proof) Cache.Origin.authoritative,
    ok (denial zone proof),
  )

  -- the forwarders' answer, cached without its authority section
  unfoldable pub forwarded :
      State → Moment → Text → Text → Text → Bool → Db × Option Message → State × Result Reply
  unfolding stored log
  forwarded s m qname qtype client_ip dnssec_ok (db, none) = (
    log (record s { db = db }) qname qtype client_ip servfail (codes "forward"),
    ok (bare servfail (codes "forward")),
  )
  forwarded s m qname qtype client_ip dnssec_ok (db, some resp) = (
    stored (record s { db = db }) m.now qname qtype client_ip dnssec_ok
        (record (reply_of resp) { authority = [] }) Cache.Origin.forward,
    ok (reply_of resp),
  )

  unfoldable pub forward :
      State → Moment → Text → Text → Text → Bool → List Forwarder → State × Result Reply
  unfolding forward_query forwarded
  forward s m qname qtype client_ip dnssec_ok [] =
      forwarded s m qname qtype client_ip dnssec_ok (s.db, none)
  forward s m qname qtype client_ip dnssec_ok (f ∷ fs) =
      elim (forward_query host s.db m.query_id qname qtype (f ∷ fs) dnssec_ok) [
        | err e ↦ (s, err e)
        | ok r ↦ forwarded s m qname qtype client_ip dnssec_ok r
      ]

  -- in the zone that was found
  unfoldable pub in_zone :
      State
      → Moment
      → Zone
      → Text
      → Text
      → Text
      → Bool
      → Option (Text × List ResourceRecord)
      → State × Result Reply
  unfolding zone_reply denied nsec_proof stored
  in_zone s m zone qname qtype client_ip dnssec_ok none =
      denied s m zone qname qtype client_ip dnssec_ok
        (if dnssec_ok && zone.dnssec_enabled then nsec_proof s.db zone qname else ok [])
  in_zone s m zone qname qtype client_ip dnssec_ok (some found) =
      let reply = zone_reply s.db zone qname dnssec_ok found in
      (stored s m.now qname qtype client_ip dnssec_ok reply Cache.Origin.authoritative, ok reply)

  -- from `_lookup_authoritative` on
  unfoldable pub look_up : State → Moment → Text → Text → Text → Bool → State × Result Reply
  unfolding find_zone lookup_in_zone answer_of in_zone get_forwarders forward
  look_up s m qname qtype client_ip dnssec_ok = elim (find_zone s.db qname) [
    | none ↦ forward s m qname qtype client_ip dnssec_ok (get_forwarders s.db qname)
    | some zone ↦
        in_zone s m zone qname qtype client_ip dnssec_ok
          (answer_of zone qname (lookup_in_zone host s.db zone qname qtype client_ip))
  ]

  -- from the cache on
  unfoldable pub look_in_cache : State → Moment → Text → Text → Text → Bool → State × Result Reply
  unfolding Cache.get look_up cache_qtype is_from_zone log
  look_in_cache s m qname qtype client_ip dnssec_ok =
      let (cache, found) = Cache.get s.cache m.now m.now qname (cache_qtype qtype dnssec_ok) in
      let t = record s { cache = cache } in
      elim found [
        | none ↦ look_up t m qname qtype client_ip dnssec_ok
        | some hit ↦ (
          log t qname qtype client_ip hit.rcode (codes "cache"),
          ok (record {
            answers = hit.records;
            rcode = hit.rcode;
            source = codes "cache";
            authority = hit.authority;
            is_authoritative = is_from_zone hit.origin;
          }),
        )
      ]

  -- a rule's record, or what the cache and the zones say
  unfoldable pub rewritten :
      State → Moment → Text → Text → Text → Bool → Db × Option ResourceRecord → State × Result Reply
  unfolding look_in_cache log
  rewritten s m qname qtype client_ip dnssec_ok (db, none) =
      look_in_cache (record s { db = db }) m qname qtype client_ip dnssec_ok
  rewritten s m qname qtype client_ip dnssec_ok (db, some rr) = (
    log (record s { db = db }) qname qtype client_ip 0 (codes "rewritten"),
    ok (record {
      answers = rr ∷ [];
      rcode = 0;
      source = codes "rewritten";
      authority = [];
      is_authoritative = false;
    }),
  )

  -- from the rewrite engine on
  unfoldable pub rewrite : State → Moment → Text → Text → Text → Bool → State × Result Reply
  unfolding apply_rewrite rewritten
  rewrite s m qname qtype client_ip dnssec_ok =
      rewritten s m qname qtype client_ip dnssec_ok
        (apply_rewrite host s.db m.clock qname qtype client_ip)

  -- from the access list on
  unfoldable pub filtered : State → Moment → Text → Text → Text → Bool → State × Result Reply
  unfolding is_allowed_by_acl is_blocked rewrite log
  filtered s m qname qtype client_ip dnssec_ok =
      let (t, acl_ok) = is_allowed_by_acl host s m.now client_ip in
      elim acl_ok [
        | false ↦ (t, ok (bare refused (codes "blocked")))
        | true ↦ elim (is_blocked host t.db qname client_ip) [
          | true ↦ (
            log t qname qtype client_ip nxdomain (codes "blocked"),
            ok (bare nxdomain (codes "blocked")),
          )
          | false ↦ rewrite t m qname qtype client_ip dnssec_ok
        ]
      ]

  -- the flag is that of maintenance
  unfoldable pub maintained :
      Bool → State → Moment → Text → Text → Text → Bool → State × Result Reply
  unfolding filtered log
  maintained true s m qname qtype client_ip dnssec_ok = (
    log s qname qtype client_ip servfail (codes "maintenance"),
    ok (bare servfail (codes "maintenance")),
  )
  maintained false s m qname qtype client_ip dnssec_ok =
      filtered s m qname qtype client_ip dnssec_ok

  -- `resolve`; an error is an exception, with the state it leaves
  unfoldable pub resolve : State → Moment → Text → Text → Text → Bool → State × Result Reply
  unfolding maintained
  resolve s m qname qtype client_ip dnssec_ok =
      maintained s.db.maintenance s m qname qtype client_ip dnssec_ok
