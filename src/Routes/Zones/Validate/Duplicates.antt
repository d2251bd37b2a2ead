-- ===== src/Routes/Zones/Validate/Duplicates.antt =====
-- The checks of `validate_zone` in app/routes/zones.py on records of one name: the same record more
-- than once, and a CNAME beside other types.
use nova_dns.Prelude.{
  ℕ, ◌+◌, Bool, true, false, not, ◌&&◌, Option, none, some, List, [], ◌∷◌, ltb, ◌==◌, length,
}
use nova_dns.Prelude.Int.{ℤ, pos, negsuc}
use package.text.Mathlib.Text.{◌==◌ as str_eq}
use nova_dns.Dict
use nova_dns.Text.{Text, text_eq}
use nova_dns.Wire.Types.{codes}
use nova_dns.Wire.Rdata.{Field, num, text, null, Value}
use nova_dns.Db.{Row, select, exists}
use nova_dns.ZoneSigning.Groups.{types_of}
use nova_dns.Routes.Zones.Validate.Issues.{Issue, duplicate, cname_beside, add_if, each}

-- Rows of one name, type, data and client, as often as they stand. Texts of json.dumps are equal just
-- when the values are.
int_eq : ℤ → ℤ → Bool
int_eq (pos a) (pos b) = a == b
int_eq (negsuc a) (negsuc b) = a == b
int_eq (pos a) (negsuc b) = false
int_eq (negsuc a) (pos b) = false

field_eq : Field → Field → Bool
unfolding text_eq int_eq
field_eq (num a) (num b) = int_eq a b
field_eq (text a) (text b) = text_eq a b
field_eq null null = true
field_eq a b = false

value_eq : Value → Value → Bool
unfolding field_eq
value_eq [] [] = true
value_eq ((j, a) ∷ v) ((k, b) ∷ w) = str_eq j k && field_eq a b && value_eq v w
value_eq v w = false

match_eq : Option Text → Option Text → Bool
unfolding text_eq
match_eq none none = true
match_eq (some a) (some b) = text_eq a b
match_eq a b = false

same_row : Row → Row → Bool
unfolding text_eq value_eq match_eq
same_row r q =
    text_eq r.name q.name
    && text_eq r.rtype q.rtype
    && value_eq r.data_json q.data_json
    && match_eq r.client_match q.client_match

-- seen.setdefault(key, []).append(r), of which the length is used
count_row : Row → List (Row × ℕ) → List (Row × ℕ)
unfolding Dict.get Dict.put same_row
count_row r seen = elim (Dict.get same_row r seen) [
  | none ↦ Dict.put same_row r 1 seen
  | some n ↦ Dict.put same_row r (n + 1) seen
]

count_rows : List Row → List (Row × ℕ) → List (Row × ℕ)
unfolding count_row
count_rows [] seen = seen
count_rows (r ∷ rows) seen = count_rows rows (count_row r seen)

unfoldable pub duplicates : List Row → List Issue
unfolding count_rows each
duplicates rows =
    each (λ (e : Row × ℕ). add_if (ltb 1 e.1) (duplicate e.0.name e.0.rtype e.1))
      (count_rows rows [])

unfoldable pub cname_conflicts : List Row → List Issue
unfolding types_of each exists select text_eq
cname_conflicts rows =
    each
      (λ (e : Text × List Text).
        add_if (exists (text_eq (codes "CNAME")) e.1 && ltb 1 (length e.1))
          (cname_beside e.0 (select (λ t. not (text_eq t (codes "CNAME"))) e.1)))
      (types_of rows [])
