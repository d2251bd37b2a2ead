-- ===== src/Routes/Zones/Validate/Issues.antt =====
-- The issues that `validate_zone` of app/routes/zones.py can add, and their levels. An issue is one of
-- its messages with the parts that vary; the order of a set of types in a message is that of the
-- records here, and anything in the program.
use nova_dns.Prelude.{ℕ, Bool, List, [], ◌∷◌, ◌++◌, String, if◌then◌else◌, Result, ok, ◌>>=◌}
use nova_dns.Text.{Text, text_eq}
use nova_dns.Wire.Types.{codes}
use nova_dns.Db.{Row}

pub data Level : Type 0 where
  critical high medium low info fine : Level

pub data Issue : Type 0 where
  no_records no_apex_ns : Issue
  duplicate : Text → Text → ℕ → Issue
  cname_beside : Text → List Text → Issue
  circular : Text → Issue
  mx_to_cname : Text → Text → Issue
  mx_without_target srv_without_target : Text → Issue
  ttl_out_of_range ttl_zero : Text → Text → Issue
  bad_ipv4 bad_ipv6 : Text → Issue
  no_glue : Text → Text → Issue
  retry_not_smaller refresh_not_smaller minimum_high : Issue
  no_key no_rrsigs wildcard nothing_found : Issue

-- the level that each message is added with
unfoldable pub level_of : Issue → Level
level_of no_records = high
level_of no_apex_ns = high
level_of (duplicate name rtype n) = low
level_of (cname_beside name types) = critical
level_of (circular start) = critical
level_of (mx_to_cname name target) = high
level_of (mx_without_target name) = critical
level_of (srv_without_target name) = critical
level_of (ttl_out_of_range name rtype) = medium
level_of (ttl_zero name rtype) = low
level_of (bad_ipv4 name) = critical
level_of (bad_ipv6 name) = critical
level_of (no_glue name target) = high
level_of retry_not_smaller = medium
level_of refresh_not_smaller = medium
level_of minimum_high = low
level_of no_key = critical
level_of no_rrsigs = high
level_of wildcard = info
level_of nothing_found = fine

-- severity_order
unfoldable pub severity : Level → ℕ
severity critical = 0
severity high = 1
severity medium = 2
severity low = 3
severity info = 4
severity fine = 5

-- add(…) if the test holds
abbrev pub add_if : Bool → Issue → List Issue
add_if test issue = if test then issue ∷ [] else []

-- the issues that each element gives, in order
unfoldable pub each {ℓ} : {A : Type ℓ} → (A → List Issue) → List A → List Issue
each issues [] = []
each issues (x ∷ xs) = issues x ++ each issues xs

-- the same where the look at an element can raise
unfoldable pub each_of {ℓ} : {A : Type ℓ} → (A → Result (List Issue)) → List A → Result (List Issue)
each_of issues [] = ok []
each_of issues (x ∷ xs) = do first ← issues x; rest ← each_of issues xs; ok (first ++ rest)

abbrev pub is_type : Row → String → Bool
is_type r name = text_eq r.rtype (codes name)
