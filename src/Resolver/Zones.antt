-- ===== src/Resolver/Zones.antt =====
-- Zones of app/dnscore/resolver.py: `_synth_soa_rr`, `_find_zone`, `_lookup_authoritative`,
-- `_apply_split_dns` and `_row_to_rr`.
pub mod Search
use nova_dns.Prelude.{
  ℕ, zero, suc, ◌-◌, ◌+◌, Bool, true, false, not, ◌&&◌, ◌||◌, Option, none, some, List, [], ◌∷◌,
  ◌++◌, ◌==◌, if◌then◌else◌, take, length, ltb,
}
use nova_dns.Prelude.Int.{pos}
use nova_dns.Text.{Text, text_eq, fold_name, rstrip_dot, dot}
use nova_dns.Wire.Types.{codes}
use nova_dns.Wire.Rdata.{num, text, Value}
use nova_dns.Wire.Message.{ResourceRecord, qclass_in}
use nova_dns.Db.{Db, Zone, Row, select, exists, is_set}
use nova_dns.Resolver.Host.{Host}
use nova_dns.Resolver.Clients.{is_under, column_matches}

-- x or default
unfoldable pub or_text : Option Text → Text → Text
or_text none d = d
or_text (some []) d = d
or_text (some (c ∷ s)) d = c ∷ s

unfoldable pub synth_soa_rr : Zone → ResourceRecord
unfolding or_text rstrip_dot
synth_soa_rr zone =
    let zone_fqdn = rstrip_dot zone.name ++ dot ∷ [] in
    record {
      name = zone_fqdn;
      rtype = codes "SOA";
      rclass = qclass_in;
      ttl = zone.default_ttl;
      value =
          ("mname", text (or_text zone.soa_mname (codes "ns1." ++ zone_fqdn)))
          ∷ ("rname", text (or_text zone.soa_rname (codes "admin." ++ zone_fqdn)))
          ∷ ("serial", num (pos zone.soa_serial))
          ∷ ("refresh", num (pos zone.soa_refresh))
          ∷ ("retry", num (pos zone.soa_retry))
          ∷ ("expire", num (pos zone.soa_expire))
          ∷ ("minimum", num (pos zone.soa_minimum))
          ∷ [];
    }

-- the loop: a matching zone replaces the best one if its folded name is longer than the other's name
unfoldable pub best_zone : Text → Option Zone → List Zone → Option Zone
unfolding is_under fold_name
best_zone qname best [] = best
best_zone qname best (z ∷ zones) =
    let zn = fold_name z.name in
    let longer : Bool = elim best [ none ↦ true | some b ↦ ltb (length b.name) (length zn) ] in
    best_zone qname (if is_under qname zn && longer then some z else best) zones

unfoldable pub find_zone : Db → Text → Option Zone
unfolding best_zone select text_eq fold_name
find_zone db qname =
    best_zone (fold_name qname) none
      (select (λ z. text_eq z.ztype (codes "authoritative")) db.zones)

-- "@" at the apex, and else the labels in front of the zone's name
unfoldable pub relative_name : Zone → Text → Text
unfolding text_eq fold_name
relative_name zone qname =
    let q = fold_name qname in
    let z = fold_name zone.name in
    if text_eq q z then codes "@" else take (length q - (length z + 1)) q

-- Rows that answer, the type that they answer for, or the synthetic SOA.
pub data Found : Type 0 where
  soa : Found
  any_soa : Found
  answer_rows : Text → List Row → Found

module _ (host : Host) where
  unfoldable pub apply_split_dns : Db → List Row → Text → List Row
  unfolding select column_matches is_set
  apply_split_dns db rows client_ip =
      let scoped =
        select (λ r. is_set r.client_match && column_matches host db client_ip r.client_match)
          rows in
      elim scoped [ [] ↦ select (λ r. not (is_set r.client_match)) rows | r ∷ rs ↦ r ∷ rs ]

  records_for : Db → Zone → Text → Text → Text → List Row
  unfolding apply_split_dns select text_eq
  records_for db zone lookup_name client_ip rtype =
      apply_split_dns db
        (select (λ r. r.zone_id == zone.id && text_eq r.rtype rtype && text_eq r.name lookup_name)
          db.records)
        client_ip

  any_rows : Db → Zone → Text → Text → List Row
  unfolding apply_split_dns select text_eq
  any_rows db zone lookup_name client_ip =
      apply_split_dns db
        (select
          (λ r.
            r.zone_id == zone.id
            && not (text_eq r.rtype (codes "NSEC"))
            && text_eq r.name lookup_name)
          db.records)
        client_ip

  -- a CNAME answers where no row of the type does
  with_cname : Db → Zone → Text → Text → Text → List Row → Found
  unfolding records_for text_eq
  with_cname db zone lookup_name client_ip qtype (r ∷ rs) = answer_rows qtype (r ∷ rs)
  with_cname db zone lookup_name client_ip qtype [] =
      let cname = records_for db zone lookup_name client_ip (codes "CNAME") in
      if text_eq qtype (codes "CNAME") || length cname == 0
      then answer_rows qtype []
      else answer_rows (codes "CNAME") cname

  unfoldable pub lookup_name_of : Db → Zone → Text → Text
  unfolding exists text_eq
  lookup_name_of db zone relative =
      if exists (λ r. r.zone_id == zone.id && text_eq r.name relative) db.records
      then relative
      else codes "*"

  -- `_lookup_authoritative` in the zone that was found
  unfoldable pub lookup_in_zone : Db → Zone → Text → Text → Text → Found
  unfolding relative_name lookup_name_of any_rows records_for with_cname text_eq
  lookup_in_zone db zone qname qtype client_ip =
      let relative = relative_name zone qname in
      let name = lookup_name_of db zone relative in
      let all = any_rows db zone name client_ip in
      if text_eq qtype (codes "SOA") && text_eq relative (codes "@")
      then soa
      else if text_eq qtype (codes "ANY")
      then (if length all == 0 && text_eq relative (codes "@")
          then any_soa
          else answer_rows (codes "ANY") all)
      else with_cname db zone name client_ip qtype (records_for db zone name client_ip qtype)

-- row["ttl"] if row["ttl"] else default_ttl
unfoldable pub row_ttl : Option ℕ → ℕ → ℕ
row_ttl none d = d
row_ttl (some zero) d = d
row_ttl (some (suc n)) d = suc n

unfoldable pub row_to_rr : Text → Row → ℕ → ResourceRecord
unfolding row_ttl
row_to_rr name row default_ttl = record {
  name = name;
  rtype = row.rtype;
  rclass = qclass_in;
  ttl = row_ttl row.ttl default_ttl;
  value = row.data_json;
}
