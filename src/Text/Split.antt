-- ===== src/Text/Split.antt =====
-- `split` after `join`, and texts compared as values.
use nova_dns.Prelude.{◌≡◌, ◌≢◌, refl, sym, ap, ◌∙◌, ◌↔◌, true, List, [], ◌∷◌, ◌++◌, arith}
use mathlib.Core.List.{append_assoc, append-nil}
use nova_dns.Text.{Text, dot, text_eq, split_from, split_dot, join_dot}

pub text_eq-to-eq : (a b : Text) → text_eq a b ≡ true → a ≡ b
unfolding text_eq
text_eq-to-eq [] [] h = refl
text_eq-to-eq [] (y ∷ ys) h = cc
text_eq-to-eq (x ∷ xs) [] h = cc
text_eq-to-eq (x ∷ xs) (y ∷ ys) h = ground (arith, text_eq-to-eq xs ys)

pub text_eq_refl : (a : Text) → text_eq a a ≡ true
unfolding text_eq
text_eq_refl [] = refl
text_eq_refl (x ∷ xs) = ground (arith, text_eq_refl xs)

pub text_eq_iff : (a b : Text) → (text_eq a b ≡ true) ↔ (a ≡ b)
text_eq_iff a b = (text_eq-to-eq a b, λ e. rw e (text_eq_refl b))

-- No dot in a label.
abbrev pub NoDot : Text → Type 0
NoDot [] = Unit
NoDot (c ∷ s) = (c ≢ dot) × NoDot s

abbrev pub AllNoDot : List Text → Type 0
AllNoDot [] = Unit
AllNoDot (w ∷ ws) = NoDot w × AllNoDot ws

split_from-word :
    (word s rest : Text) → NoDot s → split_from word (s ++ rest) ≡ split_from (word ++ s) rest
unfolding split_from
split_from-word word [] rest h = rw append-nil
split_from-word word (c ∷ s) rest h =
    ground (arith, split_from-word (word ++ c ∷ []) s rest h.1, append_assoc word (c ∷ []) s)

pub split-join :
    (w : Text) (ws : List Text) → AllNoDot (w ∷ ws) → split_dot (join_dot (w ∷ ws)) ≡ w ∷ ws
unfolding split_from join_dot
split-join w [] h = ap split_dot (sym (append-nil w)) ∙ split_from-word [] w [] h.0
split-join w (v ∷ ws) h =
    split_from-word [] w (dot ∷ join_dot (v ∷ ws)) h.0 ∙ ap (◌∷◌ w) (split-join v ws h.1)
