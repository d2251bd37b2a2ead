-- ===== src/Tests/Filtering.antt =====
-- Filters, zones, forwarders and the pipeline.
use nova_dns.Prelude.{
  ◌≡◌, ◌≢◌, refl, ◌↔◌, ◌⊎◌, inr, true, false, none, some, List, [], ◌∷◌, ◌++◌, ok, arith,
}
use nova_dns.Text.{Text, fold_name}
use nova_dns.Text.Order.{text_lt}
use nova_dns.Wire.Types.{codes}
use nova_dns.Wire.Rdata.{strip, lstrip, rstrip}
use nova_dns.Wire.Rdata.Encode.{split_at}
use nova_dns.Wire.Message.{Message, ResourceRecord, new_message}
use nova_dns.Cache.{effective_ttl, min_ttl}
use nova_dns.Db.{Zone, Row}
use nova_dns.ZoneSigning.{find_covering}
use nova_dns.ZoneSigning.Covering.{Ascending, Denies, find_covering-Denies}
use nova_dns.Resolver.Clients.{is_blocked}
use nova_dns.Resolver.Clients.Filtering.{IsAllowed, IsListed, is_blocked_iff}
use nova_dns.Resolver.Zones.{find_zone}
use nova_dns.Resolver.Zones.Search.{Closest, NoneOver, authoritative_zones, find_zone-Closest}
use nova_dns.Resolver.Forward.{ask, try_forwarders, set_healthy, known_protocol}
use nova_dns.Resolver.Forward.Failover.{marked, try_forwarders-first}
use nova_dns.Resolver.Transfer.{records, axfr, zone_records}
use nova_dns.Resolver.Transfer.Allowed.{HasClient, IsTransferOf, axfr-Allowed}
use nova_dns.Resolver.Pipeline.{resolve, with_rrsig, zone_reply, look_in_cache, in_zone}
use nova_dns.Resolver.Pipeline.Frame.{Kept, resolve-Kept}
use nova_dns.Resolver.Pipeline.Reuse.{look_in_cache-reuse}
use nova_dns.Tests.Data.{
  small_host, small_db, small_state, example_zone, www_row, noon, past_noon, forwarder_at,
}

is_blocked_iff_example :
    (is_blocked small_host small_db (codes "x.ADS.net") (codes "10.0.0.1") ≡ true) ↔ (
      (IsAllowed small_host small_db (codes "x.ADS.net") (codes "10.0.0.1") → ⊥)
      × IsListed small_host small_db (codes "x.ADS.net") (codes "10.0.0.1"))
is_blocked_iff_example = is_blocked_iff small_host small_db (codes "x.ADS.net") (codes "10.0.0.1")

find_zone-Closest_example :
    (find_zone small_db (codes "www.example.org") ≡ none)
      × NoneOver (fold_name (codes "www.example.org")) (authoritative_zones small_db)
    ⊎ (b : Zone) × (find_zone small_db (codes "www.example.org") ≡ some b)
      × Closest (fold_name (codes "www.example.org")) (authoritative_zones small_db) b
find_zone-Closest_example = find_zone-Closest small_db (codes "www.example.org")

resolve-Kept_example :
    Kept small_state
      (resolve small_host small_state noon
        (codes "www.example.org")
        (codes "A")
        (codes "10.0.0.1")
        false).0
resolve-Kept_example =
    resolve-Kept small_host noon (codes "www.example.org") (codes "A") (codes "10.0.0.1") false
      small_state (record { room = omega arith; bounded = omega arith; distinct = tt })

abbrev www_answer : Text × List ResourceRecord
www_answer = (
  codes "A",
  record {
    name = codes "www.example.org";
    rtype = codes "A";
    rclass = 1;
    ttl = 3600;
    value = www_row.data_json;
  }
      ∷ [],
)

same_www : fold_name (codes "WWW.example.org") ≡ fold_name (codes "www.example.org")
unfolding fold_name
same_www = refl

look_in_cache-reuse_example :
    (look_in_cache small_host
      (in_zone small_host small_state noon example_zone
        (codes "www.example.org")
        (codes "A")
        (codes "10.0.0.1")
        false
        (some www_answer)).0
      past_noon
      (codes "WWW.example.org")
      (codes "A")
      (codes "10.0.0.2")
      false).1
    ≡ ok (record (zone_reply small_db example_zone (codes "www.example.org") false www_answer) {
      source = codes "cache";
    })
unfolding zone_reply with_rrsig effective_ttl min_ttl
look_in_cache-reuse_example =
    look_in_cache-reuse small_host small_state noon past_noon example_zone (codes "www.example.org")
      (codes "WWW.example.org") (codes "A") (codes "10.0.0.1") (codes "10.0.0.2") false www_answer
      same_www (omega arith)

abbrev empty_message : Message
empty_message = record new_message { id = 7; qr = 1; rd = 0 }

asked_54 : ask small_host [] (forwarder_at 2 54) ≡ some empty_message
unfolding ask
asked_54 = refl

asked_53 : ask small_host [] (forwarder_at 1 53) ≡ none
unfolding ask
asked_53 = refl

known_udp : known_protocol (codes "udp") ≡ true
unfolding known_protocol
known_udp = refl

try_forwarders-first_example :
    try_forwarders small_host []
      ((forwarder_at 1 53 ∷ []) ++ forwarder_at 2 54 ∷ [])
      (forwarder_at 1 53 ∷ forwarder_at 2 54 ∷ [])
    ≡ (
      set_healthy true 2 (
          marked small_host []
            (forwarder_at 1 53 ∷ [])
            (forwarder_at 1 53 ∷ forwarder_at 2 54 ∷ [])),
      some empty_message,
    )
try_forwarders-first_example =
    try_forwarders-first small_host [] (forwarder_at 1 53 ∷ []) []
      (forwarder_at 1 53 ∷ forwarder_at 2 54 ∷ []) (forwarder_at 2 54) empty_message
      (inr asked_53, tt) known_udp asked_54

transferred :
    axfr small_host small_db (codes "10.0.0.1") (codes "example.org.") (codes "10.0.0.1")
    ≡ records (zone_records small_host small_db example_zone)
unfolding axfr lstrip rstrip
transferred = refl

axfr-Allowed_example :
    (strip (codes "10.0.0.1") ≢ [])
    × (true ≡ true)
    × HasClient small_host (codes "10.0.0.1") (split_at 44 [] (codes "10.0.0.1"))
    × IsTransferOf small_db (codes "example.org.") (zone_records small_host small_db example_zone)
axfr-Allowed_example =
    axfr-Allowed small_host small_db (codes "10.0.0.1") (codes "example.org.") (codes "10.0.0.1")
      (zone_records small_host small_db example_zone) transferred

abbrev row_named : Text → Row
row_named name = record www_row { name = name }

names_ascend :
    Ascending text_lt
      (λ r. r.name)
      (codes "B")
      true
      (row_named (codes "A"))
      (row_named (codes "C") ∷ [])
unfolding text_lt
names_ascend = (refl, tt)

find_covering-Denies_example :
    (found : Row) × (find_covering text_lt
        (λ r. r.name)
        (codes "B")
        true
        (row_named (codes "A") ∷ row_named (codes "C") ∷ [])
      ≡ some found)
    × Denies text_lt
        (λ r. r.name)
        (codes "B")
        true
        (row_named (codes "A"))
        (row_named (codes "A"))
        (row_named (codes "C") ∷ [])
        found
find_covering-Denies_example =
    find_covering-Denies text_lt (λ r. r.name) (codes "B") true (row_named (codes "A"))
      (row_named (codes "C") ∷ []) names_ascend
