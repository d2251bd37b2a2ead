-- ===== src/Resolver/Pipeline/Reuse.antt =====
-- What `resolve` of app/dnscore/resolver.py takes from its cache.
use nova_dns.Prelude.{◌+◌, ◌*◌, ◌≤◌, ◌≡◌, Bool, false, none, some, List, ok, ltb, arith}
use nova_dns.Text.{Text, fold_name}
use nova_dns.Wire.Types.{codes}
use nova_dns.Wire.Message.{ResourceRecord}
use nova_dns.Cache
use nova_dns.Cache.History.Reads.{get-set, Lasts-effective_ttl}
use nova_dns.Db.{Zone}
use nova_dns.Resolver.Host.{Host, Moment}
use nova_dns.Resolver.State.{State, log}
use nova_dns.Resolver.Pipeline.{look_in_cache, in_zone, stored, zone_reply, cache_qtype}

module _ (host : Host) (s : State) (m later : Moment) (zone : Zone) where
  -- An answer that one client gets from a zone of ours is given to any other client that asks for
  -- the same name and type while the answer's TTL lasts, without a look at the zone, the client or
  -- the case of the name.
  pub look_in_cache-reuse :
      (qname other_qname qtype ip other_ip : Text) (d : Bool) (found : Text × List ResourceRecord)
      → fold_name other_qname ≡ fold_name qname
      → let reply = zone_reply s.db zone qname d found in
        later.now
          ≤ m.now
            + Cache.effective_ttl (λ r. r.ttl) s.cache.negative_ttl reply.answers none
              * Cache.second
        → let t = (in_zone host s m zone qname qtype ip d (some found)).0 in
          (look_in_cache host t later other_qname qtype other_ip d).1
          ≡ ok (record reply { source = codes "cache" })
  unfolding look_in_cache in_zone stored log
  look_in_cache-reuse qname other_qname qtype ip other_ip d found same fresh =
      let reply = zone_reply s.db zone qname d found in
      let read =
        get-set (λ r. r.ttl) s.cache m.now later.now later.now
          (Cache.effective_ttl (λ r. r.ttl) s.cache.negative_ttl reply.answers none) qname
          other_qname (cache_qtype qtype d) reply.answers reply.rcode none reply.authority
          Cache.Origin.authoritative same
          (Lasts-effective_ttl (λ r. r.ttl) s.cache.negative_ttl reply.answers none) in
      let lasts : ltb
            (m.now
              + Cache.effective_ttl (λ r. r.ttl) s.cache.negative_ttl reply.answers none
                * Cache.second)
            later.now
          ≡ false =
        ground arith in
      rw (look_in_cache, read, lasts)
