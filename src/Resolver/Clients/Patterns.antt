-- ===== src/Resolver/Clients/Patterns.antt =====
-- The patterns of the block lists of app/dnscore/resolver.py, as texts around a base.
use nova_dns.Prelude.{
  ◌≡◌, refl, sym, ◌∙◌, ap, Bool, true, false, some, ◌∷◌, ◌++◌, inl, inr, ◌⊎◌, Bool-cases, arith,
  drop, if◌then◌else◌,
}
use nova_dns.Text.{Text, text_eq, fold_name, starts_with, ends_with, dot}
use nova_dns.Text.Split.{text_eq_iff}
use nova_dns.Text.Matching.{starts_with_iff, ends_with_iff}
use nova_dns.Wire.Types.{codes}
use nova_dns.Resolver.Host.{Host}
use nova_dns.Resolver.Clients.{is_under, domain_matches}

-- The name is the base, or ends with it behind a dot.
abbrev pub IsUnder : Text → Text → Type 0
IsUnder name base = (name ≡ base) ⊎ (before : Text) × (name ≡ before ++ dot ∷ base)

IsUnder-of : (name base : Text) → is_under name base ≡ true → IsUnder name base
unfolding is_under
IsUnder-of name base h = elim (Bool-cases (text_eq name base)) [
  | inl same ↦ inl ((text_eq_iff name base).0 same)
  | inr other ↦ inr ((ends_with_iff name (dot ∷ base)).0 (rw (other, is_under) at h))
]

of-IsUnder : (name base : Text) → IsUnder name base → is_under name base ≡ true
unfolding is_under
of-IsUnder name base (inl same) = rw ((text_eq_iff name base).1 same) refl
of-IsUnder name base (inr below) =
    let t : ends_with name (dot ∷ base) ≡ true = (ends_with_iff name (dot ∷ base)).1 below in
    elim (Bool-cases (text_eq name base)) [
      | inl same ↦ rw same refl
      | inr other ↦ rw (other, t) refl
    ]

-- a pattern that is no regular expression, folded
abbrev HasPattern : Text → Text → Type 0
HasPattern name folded =
    (name ≡ folded) ⊎ (base : Text) × (folded ≡ codes "*." ++ base) × IsUnder name base

abbrev pattern_test : Text → Text → Bool
pattern_test name folded =
    if starts_with folded (codes "*.") then is_under name (drop 2 folded) else text_eq name folded

HasPattern-of : (name folded : Text) → pattern_test name folded ≡ true → HasPattern name folded
HasPattern-of name folded h = elim (Bool-cases (starts_with folded (codes "*."))) [
  | inl wild ↦
      let (base, e) = (starts_with_iff folded (codes "*.")).0 wild in
      let under : is_under name (drop 2 folded) ≡ true = rw wild at h in
      inr (
        base,
        e,
        IsUnder-of name base (ap (λ (t : Text). is_under name (drop 2 t)) (sym e) ∙ under),
      )
  | inr plain ↦ inl ((text_eq_iff name folded).0 (rw plain at h))
]

wild_test :
    (name folded base : Text)
    → folded ≡ codes "*." ++ base
    → IsUnder name base
    → pattern_test name folded ≡ true
wild_test name folded base e under =
    let wild : starts_with folded (codes "*.") ≡ true =
      (starts_with_iff folded (codes "*.")).1 (base, e) in
    rw wild (ap (λ (t : Text). is_under name (drop 2 t)) e ∙ of-IsUnder name base under)

of-HasPattern : (name folded : Text) → HasPattern name folded → pattern_test name folded ≡ true
of-HasPattern name folded (inr (base, e, under)) = wild_test name folded base e under
of-HasPattern name folded (inl same) = elim (Bool-cases (starts_with folded (codes "*."))) [
  | inl wild ↦
      let (base, e) = (starts_with_iff folded (codes "*.")).0 wild in
      wild_test name folded base e (inr (codes "*", same ∙ e))
  | inr plain ↦ rw plain ((text_eq_iff name folded).1 same)
]

module _ (host : Host) where
  -- A pattern has a name, both without closing dots and in lower case: as a regular expression; as
  -- the same name; or as "*." and a name that is the same, or the end of it behind a dot.
  abbrev pub HasName : Text → Text → Bool → Type 0
  HasName name pattern_text true = host.re_search (fold_name pattern_text) name ≡ some true
  HasName name pattern_text false =
      (name ≡ fold_name pattern_text)
      ⊎ (base : Text) × (fold_name pattern_text ≡ codes "*." ++ base) × IsUnder name base

  pub HasName-of :
      (name pattern_text : Text) (is_regex : Bool)
      → domain_matches host name pattern_text is_regex ≡ true
      → HasName name pattern_text is_regex
  unfolding domain_matches
  HasName-of name pattern_text true h = ground arith
  HasName-of name pattern_text false h = HasPattern-of name (fold_name pattern_text) h

  pub of-HasName :
      (name pattern_text : Text) (is_regex : Bool)
      → HasName name pattern_text is_regex
      → domain_matches host name pattern_text is_regex ≡ true
  unfolding domain_matches
  of-HasName name pattern_text true h = rw h refl
  of-HasName name pattern_text false h = of-HasPattern name (fold_name pattern_text) h
