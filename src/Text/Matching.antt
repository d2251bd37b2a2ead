-- ===== src/Text/Matching.antt =====
-- What the comparisons of texts decide.
use nova_dns.Prelude.{
  ℕ, zero, suc, ◌+◌, ◌-◌, ◌≡◌, refl, ap, ◌∙◌, ◌↔◌, true, [], ◌∷◌, ◌++◌, arith, drop, take, length,
  length-append, leb,
}
use nova_dns.Text.Split.{text_eq_iff}
use nova_dns.Text.{Text, text_eq, starts_with, ends_with}

pub starts_with_iff :
    (s prefix : Text) → (starts_with s prefix ≡ true) ↔ ((rest : Text) × (s ≡ prefix ++ rest))
unfolding starts_with
starts_with_iff s [] = (λ e. (s, refl), λ e. refl)
starts_with_iff [] (p ∷ ps) = (λ e. cc, λ (rest, e). cc)
starts_with_iff (c ∷ s) (p ∷ ps) =
    let (to, from) = starts_with_iff s ps in
    (
      (λ e.
          let q : starts_with s ps ≡ true = ground arith in
          let h : c ≡ p = ground arith in let (rest, r) = to q in (rest, cc)),
      (λ (rest, e).
          let h : c ≡ p = cc in
          let t : starts_with s ps ≡ true = from (rest, cc) in ground (arith, t)),
    )

drop-prefix : (p rest : Text) → drop (length p) (p ++ rest) ≡ rest
drop-prefix [] rest = refl
drop-prefix (c ∷ p) rest = drop-prefix p rest

split_at_length : (n : ℕ) (s : Text) → s ≡ take n s ++ drop n s
split_at_length zero s = refl
split_at_length (suc n) [] = refl
split_at_length (suc n) (c ∷ s) = ap (◌∷◌ c) (split_at_length n s)

pub ends_with_iff :
    (s suffix : Text) → (ends_with s suffix ≡ true) ↔ ((before : Text) × (s ≡ before ++ suffix))
unfolding ends_with
ends_with_iff s suffix = (to, from)
  where
    to : ends_with s suffix ≡ true → (before : Text) × (s ≡ before ++ suffix)
    to e =
        let same : text_eq (drop (length s - length suffix) s) suffix ≡ true = ground arith in
        (
          take (length s - length suffix) s,
          split_at_length (length s - length suffix) s
              ∙ ap (λ (t : Text). take (length s - length suffix) s ++ t)
                  ((text_eq_iff _ suffix).0 same),
        )

    from : (before : Text) × (s ≡ before ++ suffix) → ends_with s suffix ≡ true
    from (before, e) =
        let long : length s ≡ length before + length suffix =
          ap (λ (t : Text). length t) e ∙ length-append before suffix in
        let start : length s - length suffix ≡ length before = omega arith in
        let rest : drop (length s - length suffix) s ≡ suffix =
          ap (λ (k : ℕ). drop k s) start
          ∙ ap (λ (t : Text). drop (length before) t) e
          ∙ drop-prefix before suffix in
        let fits : leb (length suffix) (length s) ≡ true = ground arith in
        rw (fits) ((text_eq_iff _ suffix).1 rest)
