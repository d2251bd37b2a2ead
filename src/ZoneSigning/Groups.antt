-- ===== src/ZoneSigning/Groups.antt =====
-- The RRsets of a zone, as `sign_zone` of app/dnscore/zonesigning.py collects them: dictionaries from
-- (name, rtype) to the rows, and from a name to the set of its types.
use nova_dns.Prelude.{
  ℕ, ◌+◌, ◌≡◌, refl, arith, length, Bool, ◌&&◌, ◌||◌, Option, none, some, List, [], ◌∷◌, ◌++◌,
  String, map, if◌then◌else◌,
}
use nova_dns.Prelude.Int.{pos}
use nova_dns.Dict
use nova_dns.Text.{Text, text_eq, dot}
use nova_dns.Wire.Types.{codes}
use nova_dns.Wire.Rdata.{num, text, Value}
use nova_dns.Db.{Zone, Row, exists}

-- what is read of a row that is signed
pub record Item : Type 0 where
  pub ttl : Option ℕ
  pub data_json : Value

pub item_of : Row → Item
item_of r = record { ttl = r.ttl; data_json = r.data_json }

-- a query for one row gives None where there is none
unfoldable pub found_item : Option Row → Option Item
unfolding item_of
found_item none = none
found_item (some r) = some (item_of r)

unfoldable pub pair_eq : Text × Text → Text × Text → Bool
unfolding text_eq
pair_eq (a, b) (c, d) = text_eq a c && text_eq b d

abbrev pub Groups : Type 0
Groups = List ((Text × Text) × List (Option Item))

abbrev pub TypesByName : Type 0
TypesByName = List (Text × List Text)

abbrev is_type : Text → String → Bool
is_type rtype name = text_eq rtype (codes name)

-- rtype IN ('RRSIG','NSEC','NSEC3','NSEC3PARAM')
unfoldable pub is_denial_type : Text → Bool
unfolding text_eq
is_denial_type rtype =
    is_type rtype "RRSIG"
    || is_type rtype "NSEC"
    || is_type rtype "NSEC3"
    || is_type rtype "NSEC3PARAM"

-- the types that signing makes itself
unfoldable pub is_dnssec_type : Text → Bool
unfolding is_denial_type text_eq
is_dnssec_type rtype = is_type rtype "DNSKEY" || is_denial_type rtype

-- groups.setdefault(key, []).append(row)
unfoldable pub add_to_group : Text × Text → Option Item → Groups → Groups
unfolding pair_eq Dict.get Dict.put
add_to_group key row groups = elim (Dict.get pair_eq key groups) [
  | none ↦ Dict.put pair_eq key (row ∷ []) groups
  | some rows ↦ Dict.put pair_eq key (rows ++ row ∷ []) groups
]

-- types.add(rtype)
unfoldable pub add_type : Text → List Text → List Text
unfolding exists text_eq
add_type rtype types = if exists (text_eq rtype) types then types else types ++ rtype ∷ []

-- types_by_name.setdefault(name, set()).add(rtype)
unfoldable pub add_type_of : Text → Text → TypesByName → TypesByName
unfolding add_type Dict.get Dict.put text_eq
add_type_of name rtype types = elim (Dict.get text_eq name types) [
  | none ↦ Dict.put text_eq name (rtype ∷ []) types
  | some ts ↦ Dict.put text_eq name (add_type rtype ts) types
]

-- for r in records: groups…, types_by_name…
unfoldable pub grouped : List Row → Groups → Groups
unfolding add_to_group item_of
grouped [] groups = groups
grouped (r ∷ rows) groups = grouped rows (add_to_group (r.name, r.rtype) (some (item_of r)) groups)

unfoldable pub types_of : List Row → TypesByName → TypesByName
unfolding add_type_of
types_of [] types = types
types_of (r ∷ rows) types = types_of rows (add_type_of r.name r.rtype types)

-- `x or default` on a nullable text
unfoldable pub text_or : Option Text → Text → Text
text_or none default = default
text_or (some []) default = default
text_or (some (c ∷ s)) default = c ∷ s

-- the SOA record, which lives in the zones table
unfoldable pub soa_value : Zone → Text → Value
unfolding text_or
soa_value zone zone_name =
    ("mname", text (text_or zone.soa_mname (codes "ns1." ++ (zone_name ++ dot ∷ []))))
    ∷ ("rname", text (text_or zone.soa_rname (codes "admin." ++ (zone_name ++ dot ∷ []))))
    ∷ ("serial", num (pos zone.soa_serial))
    ∷ ("refresh", num (pos zone.soa_refresh))
    ∷ ("retry", num (pos zone.soa_retry))
    ∷ ("expire", num (pos zone.soa_expire))
    ∷ ("minimum", num (pos zone.soa_minimum))
    ∷ []

-- each entry with the one behind it, the last one with the first: `entries[(i + 1) % n]`
with_next {ℓ} : {A : Type ℓ} → A → A → List A → List (A × A)
with_next first x [] = (x, first) ∷ []
with_next first x (y ∷ ys) = (x, y) ∷ with_next first y ys

unfoldable pub ring {ℓ} : {A : Type ℓ} → List A → List (A × A)
unfolding with_next
ring [] = []
ring (x ∷ xs) = with_next x x xs

length-with_next {ℓ} :
    {A : Type ℓ} (first x : A) (xs : List A) → length (with_next first x xs) ≡ length xs + 1
unfolding with_next
length-with_next first x [] = omega arith
length-with_next first x (y ∷ ys) = omega (arith, length-with_next first y ys)

pub length-ring {ℓ} : {A : Type ℓ} (xs : List A) → length (ring xs) ≡ length xs
unfolding ring
length-ring [] = refl
length-ring (x ∷ xs) = omega (arith, length-with_next x x xs)

-- types_by_name[name]
unfoldable pub types_at : Text → TypesByName → List Text
unfolding Dict.get text_eq
types_at name types = elim (Dict.get text_eq name types) [ none ↦ [] | some ts ↦ ts ]

-- list(types_by_name)
unfoldable pub names_of : TypesByName → List Text
names_of = map (λ e. e.0)
