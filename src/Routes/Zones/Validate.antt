-- ===== src/Routes/Zones/Validate.antt =====
-- `validate_zone` of app/routes/zones.py: its checks in their order.
pub mod Issues
pub mod Duplicates
pub mod Chains
pub mod Circular
pub mod Reports
use Prim.Native.Nat.{max}
use nova_dns.Prelude.{
  ℕ, zero, suc, ◌+◌, ◌-◌, ◌^◌, Bool, true, false, not, ◌&&◌, ◌||◌, Option, none, some, List, [],
  ◌∷◌, ◌++◌, String, map, ltb, leb, ◌==◌, if◌then◌else◌, length, take, Result, ok, err, ◌>>=◌,
  out_of_fuel,
}
use nova_dns.Prelude.Int.{ℤ, pos, negsuc}
use package.text.Mathlib.Text.{◌==◌ as str_eq}
use nova_dns.Dict
use nova_dns.Sort.{sorted}
use nova_dns.Text.{Text, text_eq, fold_name, ends_with, dot}
use nova_dns.Wire.Types.{codes}
use nova_dns.Wire.Rdata.{Codec, Field, num, text, null, Value, find, item_or, as_text}
use nova_dns.Db.{Db, Zone, Row, select, exists}
use nova_dns.Db.Statements.{zone_of, records_of, key_of}
use nova_dns.ZoneSigning.Groups.{TypesByName, types_of}
use nova_dns.Routes.Zones.Requests.{field, is_true}
use nova_dns.Routes.Zones.Validate.Duplicates.{duplicates, cname_conflicts}
use nova_dns.Routes.Zones.Validate.Chains.{
  target_of, cname_map, relative, in_zone_name, circular_issues, Targets,
}
use nova_dns.Routes.Zones.Validate.Issues.{
  Level, critical, high, medium, low, info, fine, Issue, no_records, no_apex_ns, duplicate,
  cname_beside, circular, mx_to_cname, mx_without_target, srv_without_target, ttl_out_of_range,
  ttl_zero, bad_ipv4, bad_ipv6, no_glue, retry_not_smaller, refresh_not_smaller, minimum_high,
  no_key, no_rrsigs, wildcard, nothing_found, level_of, severity, add_if, each, each_of, is_type,
}

-- a target in the zone that is empty counts as none
points_to : List Text → Option Text → Bool
unfolding exists text_eq
points_to names none = false
points_to names (some []) = false
points_to names (some (c ∷ t)) = exists (text_eq (c ∷ t)) names

mx_issues : List Text → Text → Row → Result (List Issue)
unfolding target_of relative points_to is_true field text_eq
mx_issues cname_names suffix r = elim (is_type r "MX") [
  | false ↦ ok []
  | true ↦ target_of r >>= λ target. ok (
      add_if (points_to cname_names (relative suffix target)) (mx_to_cname r.name target)
      ++ add_if (not (is_true (field "target" r.data_json))) (mx_without_target r.name))
]

srv_issues : Row → List Issue
unfolding is_true field text_eq
srv_issues r =
    add_if (is_type r "SRV" && not (is_true (field "target" r.data_json)))
      (srv_without_target r.name)

-- A TTL below 0 is none in this model.
ttl_issues : Row → List Issue
ttl_issues r = elim r.ttl [
  | none ↦ []
  | some ttl ↦
      add_if (ltb 2147483647 ttl) (ttl_out_of_range r.name r.rtype)
      ++ add_if (ttl == 0) (ttl_zero r.name r.rtype)
]

-- ipaddress takes a text, or a number that fits the address
is_address : (Text → Option (List ℕ)) → ℕ → Field → Bool
is_address packed bits (text t) = elim (packed t) [ none ↦ false | some b ↦ true ]
is_address packed bits (num (pos n)) = ltb n (2 ^ bits)
is_address packed bits (num (negsuc n)) = false
is_address packed bits null = false

bad_address : (Text → Option (List ℕ)) → ℕ → Row → Bool
unfolding is_address find
bad_address packed bits r = elim (find "address" r.data_json) [
  | none ↦ false
  | some f ↦ not (is_address packed bits f)
]

address_issues : Codec → Row → List Issue
unfolding bad_address text_eq
address_issues codec r =
    add_if (is_type r "A" && bad_address codec.v4_packed 32 r) (bad_ipv4 r.name)
    ++ add_if (is_type r "AAAA" && bad_address codec.v6_packed 128 r) (bad_ipv6 r.name)

has_glue : List Row → Text → Bool
unfolding exists text_eq
has_glue rows name = exists (λ x. text_eq x.name name && (is_type x "A" || is_type x "AAAA")) rows

glue_issues : List Row → Text → Row → Result (List Issue)
unfolding target_of in_zone_name has_glue text_eq
glue_issues rows suffix r = elim (is_type r "NS" && not (text_eq r.name (codes "@"))) [
  | false ↦ ok []
  | true ↦ target_of r >>= λ target. ok (elim (in_zone_name suffix target) [
    | none ↦ []
    | some name ↦ add_if (not (has_glue rows name)) (no_glue r.name target)
  ])
]

soa_issues : Zone → List Issue
soa_issues zone =
    add_if (leb zone.soa_refresh zone.soa_retry) retry_not_smaller
    ++ (add_if (leb zone.soa_expire zone.soa_refresh) refresh_not_smaller
        ++ add_if (ltb 86400 zone.soa_minimum) minimum_high)

dnssec_issues : Zone → Db → List Issue
unfolding key_of exists records_of text_eq
dnssec_issues zone db = elim zone.dnssec_enabled [
  | false ↦ []
  | true ↦
      (elim (key_of zone.id db) [ none ↦ no_key ∷ [] | some key ↦ [] ])
      ++ add_if (not (exists (λ r. is_type r "RRSIG") (records_of zone.id db))) no_rrsigs
]

-- all that is found, in the order of the checks
unfoldable pub find_issues : Codec → Zone → Db → Result (List Issue)
unfolding records_of exists select duplicates cname_conflicts cname_map fold_name circular_issues
    mx_issues srv_issues ttl_issues address_issues glue_issues soa_issues dnssec_issues each each_of
    text_eq
find_issues codec zone db = do
  let rows = records_of zone.id db
  let suffix = fold_name zone.name
  targets ← cname_map rows []
  chains ← circular_issues targets suffix (map (λ e. e.0) targets)
  mx ← each_of (mx_issues (map (λ e. e.0) targets) suffix) rows
  glue ← each_of (glue_issues rows suffix) rows
  ok (
      add_if (length rows == 0) no_records
      ++ (add_if (not (exists (λ r. text_eq r.name (codes "@") && is_type r "NS") rows)) no_apex_ns
          ++ (duplicates rows
              ++ (cname_conflicts rows
                  ++ (chains
                      ++ (mx
                          ++ (each srv_issues rows
                              ++ (each ttl_issues rows
                                  ++ (each (address_issues codec) rows
                                      ++ (glue
                                          ++ (soa_issues zone
                                              ++ (dnssec_issues zone db
                                                  ++ add_if
                                                      (exists (λ r. text_eq r.name (codes "*"))
                                                        rows)
                                                      wildcard))))))))))))

abbrev pub issue_le : Issue → Issue → Bool
issue_le a b = leb (severity (level_of a)) (severity (level_of b))

-- sorted by severity; one that says that there are none, if there are none
unfoldable pub reported : List Issue → List Issue
unfolding sorted severity level_of
reported [] = nothing_found ∷ []
reported (i ∷ issues) = sorted issue_le (i ∷ issues)

unfoldable pub level_eq : Level → Level → Bool
unfolding severity
level_eq a b = severity a == severity b

-- counts.get(level, 0) + 1
unfoldable pub one_more : Option ℕ → ℕ
one_more none = 1
one_more (some n) = n + 1

unfoldable pub count_levels : List Issue → List (Level × ℕ) → List (Level × ℕ)
unfolding Dict.get Dict.put level_eq level_of one_more
count_levels [] counts = counts
count_levels (i ∷ issues) counts =
    count_levels issues
      (Dict.put level_eq (level_of i) (one_more (Dict.get level_eq (level_of i) counts)) counts)

-- The reply: none for a zone that is not there, else the issues and how many there are of a level.
unfoldable pub validate_zone : Codec → ℕ → Db → Result (Option (List Issue × List (Level × ℕ)))
unfolding zone_of find_issues reported count_levels
validate_zone codec zone_id db = elim (zone_of zone_id db) [
  | none ↦ ok none
  | some zone ↦ do
    issues ← find_issues codec zone db
    let shown = reported issues
    ok (some (shown, count_levels shown []))
]
