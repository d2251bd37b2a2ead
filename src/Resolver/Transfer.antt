-- ===== src/Resolver/Transfer.antt =====
-- `axfr` of app/dnscore/resolver.py.
pub mod Allowed
use nova_dns.Prelude.{
  ℕ, Bool, true, false, not, ◌&&◌, ◌||◌, Option, none, some, List, [], ◌∷◌, ◌++◌, map, ◌==◌,
  if◌then◌else◌, length,
}
use nova_dns.Text.{Text, text_eq, rstrip_dot, dot}
use nova_dns.Wire.Types.{codes}
use nova_dns.Wire.Rdata.{strip}
use nova_dns.Wire.Rdata.Encode.{split_at}
use nova_dns.Wire.Message.{ResourceRecord}
use nova_dns.Db.{Db, Zone, Row, select, select_one}
use nova_dns.Resolver.Host.{Host}
use nova_dns.Resolver.Clients.{has_char}
use nova_dns.Resolver.Zones.{synth_soa_rr, row_to_rr}

-- `(records, error)`
pub data Transfer : Type 0 where
  refused : Transfer
  not_found : Transfer
  records : List ResourceRecord → Transfer

module _ (host : Host) where
  -- the loop over the entries; a ValueError leaves it, with nothing allowed
  unfoldable pub transfer_allowed : Text → List Text → Bool
  unfolding has_char text_eq
  transfer_allowed client_ip [] = false
  transfer_allowed client_ip (e ∷ es) =
      let entry = strip e in
      let rest = transfer_allowed client_ip es in
      let tested : Bool =
        elim (if has_char 47 entry then host.in_network client_ip entry else some false) [
          | none ↦ false
          | some true ↦ true
          | some false ↦ text_eq client_ip entry || rest
        ] in
      if text_eq entry [] then rest else tested

  unfoldable pub owner_name : Text → Text → Text
  unfolding text_eq
  owner_name zone_fqdn name =
      if text_eq name (codes "@") then zone_fqdn else name ++ dot ∷ zone_fqdn

  -- the records of the zone's rows, but for an SOA at the apex
  unfoldable pub other_records : Db → Zone → List ResourceRecord
  unfolding select text_eq owner_name row_to_rr rstrip_dot
  other_records db zone =
      map (λ r. row_to_rr (owner_name (rstrip_dot zone.name ++ dot ∷ []) r.name) r zone.default_ttl)
        (select
          (λ r.
            r.zone_id == zone.id
            && not (text_eq r.name (codes "@") && text_eq r.rtype (codes "SOA")))
          db.records)

  -- the zone's records, between two copies of its SOA
  unfoldable pub zone_records : Db → Zone → List ResourceRecord
  unfolding other_records synth_soa_rr
  zone_records db zone = synth_soa_rr zone ∷ (other_records db zone ++ synth_soa_rr zone ∷ [])

  -- `raw_acl` is the setting "axfr_allowed_clients"
  unfoldable pub axfr : Db → Text → Text → Text → Transfer
  unfolding transfer_allowed zone_records select_one split_at text_eq rstrip_dot
  axfr db raw_acl zone_name client_ip =
      if text_eq (strip raw_acl) []
      then refused
      else if not (host.is_address client_ip && transfer_allowed client_ip (split_at 44 [] raw_acl))
      then refused
      else elim (select_one (λ z. text_eq z.name (rstrip_dot zone_name)) db.zones) [
        | none ↦ not_found
        | some z ↦ records (zone_records db z)
      ]
