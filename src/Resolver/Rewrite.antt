-- ===== src/Resolver/Rewrite.antt =====
-- `_apply_rewrite` of app/dnscore/resolver.py.
use nova_dns.Prelude.{
  ℕ, Bool, true, false, not, ◌&&◌, Option, none, some, List, [], ◌∷◌, ◌==◌, ◌+◌, ◌^◌, leb,
  if◌then◌else◌,
}
use nova_dns.Prelude.Int.{pos}
use nova_dns.Sort.{sorted}
use nova_dns.Text.{Text, text_eq, fold_name}
use nova_dns.Text.Order.{text_le, text_lt}
use nova_dns.Wire.Types.{codes}
use nova_dns.Wire.Rdata.{Field, num, find}
use nova_dns.Wire.Message.{ResourceRecord, qclass_in}
use nova_dns.Db.{Db, RewriteRule, select, update, is_set}
use nova_dns.Resolver.Host.{Host}
use nova_dns.Resolver.Clients.{column_matches}

-- value.get("ttl", 300). A TTL that is negative or no number cannot be packed: it is modelled by
-- 2 ^ 32, which cannot be packed either.
unfoldable pub ttl_field : Option Field → ℕ
ttl_field none = 300
ttl_field (some (num (pos n))) = n
ttl_field (some _) = 2 ^ 32

-- not (both ends are given, and the clock is outside)
unfoldable pub in_hours : Text → Option Text → Option Text → Bool
unfolding text_lt
in_hours clock (some (c ∷ s)) (some (d ∷ t)) = text_le (c ∷ s) clock && text_le clock (d ∷ t)
in_hours clock _ _ = true

module _ (host : Host) where
  unfoldable pub pattern_matches : RewriteRule → Text → Bool
  unfolding fold_name text_eq
  pattern_matches r qname =
      let pattern_text = fold_name r.pattern_text in
      if text_eq r.match_type (codes "exact")
      then text_eq qname pattern_text
      else if text_eq r.match_type (codes "wildcard")
      then host.fnmatch qname pattern_text
      else if text_eq r.match_type (codes "regex")
      then (elim (host.re_search pattern_text qname) [ none ↦ false | some b ↦ b ])
      else false

  unfoldable pub rule_applies : Db → Text → Text → Text → RewriteRule → Bool
  unfolding is_set column_matches in_hours pattern_matches
  rule_applies db clock qname client_ip r =
      not (is_set r.client_match && not (column_matches host db client_ip r.client_match))
      && in_hours clock r.time_start r.time_end
      && pattern_matches r qname

  -- the loop: the first rule that applies
  unfoldable pub first_rule : (RewriteRule → Bool) → List RewriteRule → Option RewriteRule
  first_rule applies [] = none
  first_rule applies (r ∷ rules) =
      let rest = first_rule applies rules in if applies r then some r else rest

  -- SELECT ... WHERE enabled=1 AND rtype=? ORDER BY priority ASC
  unfoldable pub rules_for : Db → Text → List RewriteRule
  unfolding select sorted text_eq
  rules_for db qtype =
      sorted (λ a b. leb a.priority b.priority)
        (select (λ r. r.enabled && text_eq r.rtype qtype) db.rewrite_rules)

  -- the database with the rule's hit counted, and the record
  unfoldable pub rewritten_by : Db → Text → Text → Option RewriteRule → Db × Option ResourceRecord
  unfolding update ttl_field find
  rewritten_by db qname qtype none = (db, none)
  rewritten_by db qname qtype (some r) = (
    record db {
      rewrite_rules =
          update (λ s. s.id == r.id) (λ s. record s { hits = s.hits + 1 }) db.rewrite_rules;
    },
    some (record {
      name = qname;
      rtype = qtype;
      rclass = qclass_in;
      ttl = ttl_field (find "ttl" r.rewrite_value);
      value = r.rewrite_value;
    }),
  )

  unfoldable pub apply_rewrite : Db → Text → Text → Text → Text → Db × Option ResourceRecord
  unfolding rules_for first_rule rule_applies rewritten_by fold_name
  apply_rewrite db clock qname qtype client_ip =
      rewritten_by db qname qtype
        (first_rule (rule_applies db clock (fold_name qname) client_ip) (rules_for db qtype))
