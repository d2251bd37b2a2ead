-- ===== src/Routes/Zones/Validate/Reports.antt =====
-- What the reply of `validate_zone` in app/routes/zones.py is made of.
use mathlib.Core.List.{Perm}
use nova_dns.Prelude.{
  ℕ, zero, suc, ◌+◌, ◌≡◌, refl, sym, ◌∙◌, ap, Option, none, some, List, [], ◌∷◌, arith,
  if◌then◌else◌, inl, inr, Bool-cases, Result, ok, >>=-eq-ok, ==_iff,
}
use nova_dns.Dict
use nova_dns.Dict.Laws.{Decides, get-put_self, get-put_ne}
use nova_dns.Sort.{IsSorted, sorted-IsSorted, sorted-perm}
use nova_dns.Wire.Rdata.{Codec}
use nova_dns.Db.{Db, Zone, select}
use nova_dns.Db.Statements.{zone_of}
use nova_dns.Db.Selecting.{count}
use nova_dns.Routes.Zones.Validate.Issues.{
  Level, critical, high, medium, low, info, fine, Issue, nothing_found, level_of, severity,
}
use nova_dns.Routes.Zones.Validate.{
  find_issues, issue_le, reported, level_eq, one_more, count_levels, validate_zone,
}

level_at : ℕ → Level
level_at zero = critical
level_at (suc zero) = high
level_at (suc (suc zero)) = medium
level_at (suc (suc (suc zero))) = low
level_at (suc (suc (suc (suc zero)))) = info
level_at (suc (suc (suc (suc (suc n))))) = fine

level_at-severity : (l : Level) → level_at (severity l) ≡ l
unfolding level_at severity
level_at-severity critical = refl
level_at-severity high = refl
level_at-severity medium = refl
level_at-severity low = refl
level_at-severity info = refl
level_at-severity fine = refl

level_eq-Decides : Decides level_eq
unfolding level_eq
level_eq-Decides a b = (
  λ h.
      sym (level_at-severity a)
      ∙ ap level_at ((==_iff (severity a) (severity b)).0 h)
      ∙ level_at-severity b,
  λ e. rw e ((==_iff (severity b) (severity b)).1 refl),
)

-- counts.get(level, 0)
abbrev pub number : Option ℕ → ℕ
number none = 0
number (some n) = n

abbrev pub number_of : Level → List (Level × ℕ) → ℕ
number_of level counts = number (Dict.get level_eq level counts)

number-one_more : (o : Option ℕ) → one_more o ≡ number o + 1
unfolding one_more
number-one_more none = refl
number-one_more (some n) = refl

number_of-put :
    (level l : Level) (counts : List (Level × ℕ))
    → number_of level (Dict.put level_eq l (one_more (Dict.get level_eq l counts)) counts)
      ≡ number_of level counts + (if level_eq l level then 1 else 0)
number_of-put level l counts = elim (Bool-cases (level_eq l level)) [
  | inl e ↦
      let same : l ≡ level = (level_eq-Decides l level).0 e in
      rw
        (
          e,
          same,
          get-put_self level_eq level_eq-Decides level (one_more (Dict.get level_eq level counts))
              counts,
        )
        (number-one_more (Dict.get level_eq level counts))
  | inr e ↦ rw (e, get-put_ne level_eq level_eq-Decides l level _ counts e) (omega arith)
]

-- how many issues are of the level
abbrev pub count_of : Level → List Issue → ℕ
count_of level issues = count (λ i. level_eq (level_of i) level) issues

count_of_nil : (level : Level) → count_of level [] ≡ 0
unfolding select
count_of_nil level = refl

count_of-cons :
    (level : Level) (i : Issue) (issues : List Issue)
    → count_of level (i ∷ issues)
      ≡ (if level_eq (level_of i) level then 1 else 0) + count_of level issues
unfolding select
count_of-cons level i issues = elim (Bool-cases (level_eq (level_of i) level)) [
  | inl e ↦ rw (e, select) (omega arith)
  | inr e ↦ rw (e, select) (omega arith)
]

count_levels-number :
    (level : Level) (issues : List Issue) (counts : List (Level × ℕ))
    → number_of level (count_levels issues counts) ≡ number_of level counts + count_of level issues
unfolding count_levels
count_levels-number level [] counts = rw (count_of_nil level) (omega arith)
count_levels-number level (i ∷ issues) counts =
    let here = level_of i in
    let now = Dict.put level_eq here (one_more (Dict.get level_eq here counts)) counts in
    count_levels-number level issues now
    ∙ ap (λ (n : ℕ). n + count_of level issues) (number_of-put level here counts)
    ∙ regroup (number_of level counts) (if level_eq here level then 1 else 0)
        (count_of level issues)
    ∙ ap (λ (n : ℕ). number_of level counts + n) (sym (count_of-cons level i issues))
  where
    regroup : (a b c : ℕ) → a + b + c ≡ a + (b + c)
    regroup a b c = omega arith

-- Nothing is shown as such; else the issues, each as often as it was found, the most severe ones first.
abbrev pub IsReport : List Issue → List Issue → Type 0
IsReport [] shown = shown ≡ nothing_found ∷ []
IsReport (i ∷ issues) shown = IsSorted issue_le shown × Perm shown (i ∷ issues)

reported-IsReport : (issues : List Issue) → IsReport issues (reported issues)
unfolding reported
reported-IsReport [] = refl
reported-IsReport (i ∷ issues) = (
  sorted-IsSorted issue_le (λ x y h. ground arith) (λ x y z h k. ground arith) (i ∷ issues),
  sorted-perm issue_le (i ∷ issues),
)

-- What a reply holds.
pub record IsReply (codec : Codec) (zone : Zone) (db : Db) (shown : List Issue)
    (counts : List (Level × ℕ)) : Type 0 where
  pub found : List Issue
  pub finds : find_issues codec zone db ≡ ok found
  pub report : IsReport found shown
  pub counted : (level : Level) → number_of level counts ≡ count_of level shown

zero_add : (n : ℕ) → 0 + n ≡ n
zero_add n = omega arith

validated :
    (codec : Codec) (zone : Zone) (db : Db) (shown : List Issue) (counts : List (Level × ℕ))
    (found : List Issue)
    → find_issues codec zone db ≡ ok found
    → reported found ≡ shown
    → count_levels (reported found) [] ≡ counts
    → IsReply codec zone db shown counts
unfolding Dict.get
validated codec zone db shown counts found e f g = record {
  found = found;
  finds = e;
  report = rw (← f) (reported-IsReport found);
  counted =
      λ level. rw (← g, f) (count_levels-number level shown [] ∙ zero_add (count_of level shown));
}

-- For a zone that is there, the reply shows the issues that the checks find, each as often, ordered
-- from the most severe level down, or says that there are none; and beside them how many of those shown
-- are of each level.
pub validate_zone-IsReply :
    (codec : Codec) (zone_id : ℕ) (db : Db) (zone : Zone) (shown : List Issue)
    (counts : List (Level × ℕ))
    → zone_of zone_id db ≡ some zone
    → validate_zone codec zone_id db ≡ ok (some (shown, counts))
    → IsReply codec zone db shown counts
unfolding validate_zone
validate_zone-IsReply codec zone_id db zone shown counts here h =
    let (found, finds, e) =
      >>=-eq-ok (find_issues codec zone db) _ (rw (here, validate_zone) at h) in
    let reply = shown_of e in
    validated codec zone db shown counts found finds (ap (λ x. x.0) reply) (ap (λ x. x.1) reply)
  where
    shown_of :
        {a b : List Issue × List (Level × ℕ)}
        → ◌≡◌ {A = Result (Option (List Issue × List (Level × ℕ)))} (ok (some a)) (ok (some b))
        → a ≡ b
    shown_of e = cc
