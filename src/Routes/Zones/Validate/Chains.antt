-- ===== src/Routes/Zones/Validate/Chains.antt =====
-- The CNAME chains that `validate_zone` of app/routes/zones.py follows within a zone.
use nova_dns.Prelude.{
  ℕ, zero, suc, ◌+◌, ◌-◌, Bool, true, false, Option, none, some, List, [], ◌∷◌, ◌++◌, ltb,
  if◌then◌else◌, length, take, Result, ok, err, ◌>>=◌, out_of_fuel,
}
use nova_dns.Dict
use nova_dns.Text.{Text, text_eq, fold_name, ends_with, dot}
use nova_dns.Wire.Types.{codes}
use nova_dns.Wire.Rdata.{text, item_or, as_text}
use nova_dns.Db.{Row, exists}
use nova_dns.Routes.Zones.Validate.Issues.{Issue, circular, add_if, is_type}

-- r["data"].get("target", "").rstrip(".").lower()
unfoldable pub target_of : Row → Result Text
unfolding item_or as_text fold_name
target_of r = as_text (item_or "target" (text []) r.data_json) >>= λ s. ok (fold_name s)

abbrev pub Targets : Type 0
Targets = List (Text × Text)

-- cname_map
unfoldable pub cname_map : List Row → Targets → Result Targets
unfolding target_of text_eq Dict.put
cname_map [] targets = ok targets
cname_map (r ∷ rows) targets = elim (is_type r "CNAME") [
  | true ↦ target_of r >>= λ t. cname_map rows (Dict.put text_eq r.name t targets)
  | false ↦ cname_map rows targets
]

-- target[: -(len(zone_suffix) + 1)] of a target that ends with "." + zone_suffix
unfoldable pub relative : Text → Text → Option Text
unfolding ends_with
relative suffix target =
    if ends_with target (dot ∷ suffix)
    then some (take (length target - (length suffix + 1)) target)
    else none

-- a name of the zone as it stands in the records, or none where the target leaves the zone
unfoldable pub in_zone_name : Text → Text → Option Text
unfolding text_eq relative
in_zone_name suffix target =
    if text_eq target suffix then some (codes "@") else relative suffix target

-- where a CNAME leads within the zone: an empty target ends the chain
unfoldable pub hop : Targets → Text → Text → Option Text
unfolding Dict.get text_eq in_zone_name
hop targets suffix name = elim (Dict.get text_eq name targets) [
  | none ↦ none
  | some [] ↦ none
  | some (c ∷ t) ↦ in_zone_name suffix (c ∷ t)
]

-- The loop: does the chain from `cur` come back to a name that it has seen, before more than 20?
unfoldable pub chase : Targets → Text → ℕ → List Text → Text → Result Bool
unfolding exists text_eq hop
chase targets suffix zero seen cur = err out_of_fuel
chase targets suffix (suc fuel) seen cur = elim (exists (text_eq cur) seen) [
  | true ↦ ok true
  | false ↦ elim (hop targets suffix cur) [
    | none ↦ ok false
    | some next ↦ elim (ltb 20 (length (cur ∷ seen))) [
      | true ↦ ok false
      | false ↦ chase targets suffix fuel (cur ∷ seen) next
    ]
  ]
]

-- The loop is over by its 21st round.
unfoldable pub is_circular : Targets → Text → Text → Result Bool
unfolding chase
is_circular targets suffix start = chase targets suffix 21 [] start

unfoldable pub circular_issues : Targets → Text → List Text → Result (List Issue)
unfolding is_circular
circular_issues targets suffix [] = ok []
circular_issues targets suffix (start ∷ starts) = do
  found ← is_circular targets suffix start
  rest ← circular_issues targets suffix starts
  ok (add_if found (circular start) ++ rest)
