-- ===== src/ZoneSigning.antt =====
-- app/dnscore/zonesigning.py: `get_rrsig_for`, and `find_covering_nsec` with `_find_covering_nsec3`,
-- which find the record that proves a name's absence.
pub mod Covering
pub mod Groups
pub mod Material
pub mod Signing
use nova_dns.Prelude.{
  ℕ, zero, suc, ◌+◌, Bool, true, false, not, ◌&&◌, ◌||◌, Option, none, some, List, [], ◌∷◌, ◌++◌,
  ◌==◌, if◌then◌else◌, length, Result, ok, err, ◌>>=◌,
}
use nova_dns.Sort.{sorted}
use nova_dns.Text.{Text, text_eq, rstrip_dot, dot}
use nova_dns.Text.Order.{text_lt, text_le, tuple_lt, tuple_le}
use nova_dns.Wire.Types.{codes}
use nova_dns.Wire.Name.{Bytes}
use nova_dns.Wire.Rdata.{Field, text, num, null, Value, find}
use nova_dns.Db.{Zone, Row, Db, select}
use nova_dns.Dnssec.Names.{canonical_key, nsec3_hash}

covers_type : Text → Option Field → Bool
unfolding text_eq
covers_type rtype (some (text t)) = text_eq t rtype
covers_type rtype _ = false

unfoldable pub get_rrsig_for : Db → ℕ → Text → Text → List Row
unfolding covers_type select text_eq find
get_rrsig_for db zone_id name covered_rtype =
    select (λ r. covers_type covered_rtype (find "type_covered" r.data_json))
      (select (λ r. r.zone_id == zone_id && text_eq r.rtype (codes "RRSIG") && text_eq r.name name)
        db.records)

-- `ofqdn`
unfoldable pub owner_fqdn : Text → Text → Text
unfolding text_eq
owner_fqdn zone_name name = if text_eq name (codes "@") then zone_name else name ++ dot ∷ zone_name

-- The loops over a chain in order, `first` being the entry behind the last. A chain that is walked
-- to its end gives its last entry either way, by the loop or by `entries[-1]`. They differ in the
-- keys alone, and in the last test, which only the NSEC loop has.
module _ {ℓ} {K : Type ℓ} (lt : K → K → Bool) (key_of : Row → K) (q : K) (last_test : Bool) where
  -- does the range from `owner` to `next` cover the key
  unfoldable pub covers : Bool → K → K → Bool
  covers is_last owner next =
      if not (lt owner next)
      then lt owner q || not (lt next q)
      else (lt owner q && not (lt next q)) || (last_test && lt owner q && is_last)

  unfoldable pub find_in_chain : Row → Row → List Row → Row
  unfolding covers
  find_in_chain first row [] = if covers true (key_of row) (key_of first) then row else row
  find_in_chain first row (r ∷ rows) =
      let rest = find_in_chain first r rows in
      if covers false (key_of row) (key_of r) then row else rest

  -- entries, sorted, or none
  unfoldable pub find_covering : List Row → Option Row
  unfolding find_in_chain
  find_covering [] = none
  find_covering (row ∷ rows) = some (find_in_chain row row rows)

row_key : Text → Row → List Text
unfolding canonical_key owner_fqdn
row_key zone_name r = canonical_key (owner_fqdn zone_name r.name)

chain_of : Db → ℕ → Text → List Row
unfolding select text_eq
chain_of db zone_id rtype = select (λ r. r.zone_id == zone_id && text_eq r.rtype rtype) db.records

unfoldable pub find_covering_nsec :
    (Bytes → Bytes) → (Text → Option Bytes) → Db → Zone → Text → Result (Option Row)
unfolding find_covering row_key chain_of canonical_key sorted tuple_lt text_lt nsec3_hash rstrip_dot
find_covering_nsec sha1 idna db zone qname =
    let plain =
      (let key_of = row_key (rstrip_dot zone.name) in
        find_covering tuple_lt key_of (canonical_key qname) true
          (sorted (λ a b. tuple_le (key_of a) (key_of b)) (chain_of db zone.id (codes "NSEC")))) in
    let hashed = (do
      qhash ← nsec3_hash sha1 idna qname zone.nsec3_salt zone.nsec3_iterations
      ok (
          find_covering text_lt (λ r. r.name) qhash false
            (sorted (λ a b. text_le a.name b.name) (chain_of db zone.id (codes "NSEC3"))))) in
    if zone.nsec3_enabled then hashed else ok plain
