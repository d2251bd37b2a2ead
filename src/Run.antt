-- ===== src/Run.antt =====
-- Code that changes a state and may raise: what it has changed by then stays changed, as the program's
-- database does, where every statement is committed by itself.
use nova_dns.Prelude.{◌≡◌, refl, Result, ok, err}

-- a call on the state: the state after it, and its result or what it raises
abbrev pub Run : Type 0 → Type 0 → Type 0
Run S A = S → S × Result A

-- what follows a call
unfoldable pub go_on : {S A B : Type 0} → (A → Run S B) → S × Result A → S × Result B
go_on next (s, err e) = (s, err e)
go_on next (s, ok a) = next a s

infixl 5 ◌>>=◌ ◌>>◌
abbrev pub ◌>>=◌ : {S A B : Type 0} → Run S A → (A → Run S B) → Run S B
◌>>=◌ first next s = go_on next (first s)

abbrev pub ◌>>◌ : {S B : Type 0} → Run S (Unit {0}) → Run S B → Run S B
◌>>◌ first second s = go_on (λ done. second) (first s)

abbrev pub pure : {S A : Type 0} → A → Run S A
pure a s = (s, ok a)

-- a computation that leaves the state alone
abbrev pub lift : {S A : Type 0} → Result A → Run S A
lift r s = (s, r)

-- what the state holds
abbrev pub read : {S A : Type 0} → (S → A) → Run S A
read view s = (s, ok (view s))

abbrev pub write : {S : Type 0} → (S → S) → Run S (Unit {0})
write change s = (change s, ok tt)

-- A relation that holds between the states before and after a call, also when it raises; and the
-- rules to show it for a chain of calls.
module _ {S : Type 0} (R : S → S → Type 0) where
  pub record Steps {A : Type 0} (call : Run S A) : Type 0 where
    pub keeps : (s : S) → R s (call s).0

module _ {S : Type 0} (R : S → S → Type 0) (same : (s : S) → R s s)
    (trans : (s t u : S) → R s t → R t u → R s u) where
  pub lift-Steps : {A : Type 0} (r : Result A) → Steps R (lift r)
  lift-Steps r = record { keeps = same }

  pub read-Steps : {A : Type 0} (view : S → A) → Steps R (read view)
  read-Steps view = record { keeps = same }

  pub write-Steps : (change : S → S) → ((s : S) → R s (change s)) → Steps R (write change)
  write-Steps change h = record { keeps = h }

  go_on-R :
      {A B : Type 0} (next : A → Run S B) (s : S) (x : S × Result A)
      → R s x.0
      → ((a : A) → Steps R (next a))
      → R s (go_on next x).0
  unfolding go_on
  go_on-R next s (t, err e) h k = h
  go_on-R next s (t, ok a) h k = trans s t (next a t).0 h ((k a).keeps t)

  pub bind-Steps :
      {A B : Type 0} (first : Run S A) (next : A → Run S B)
      → Steps R first
      → ((a : A) → Steps R (next a))
      → Steps R (first >>= next)
  bind-Steps first next h k = record { keeps = λ s. go_on-R next s (first s) (h.keeps s) k }

-- A chain that ends well has a first part that ended well, with the value and the state that the rest
-- went on from.
pub go_on-eq-ok :
    {S A B : Type 0} (next : A → Run S B) (x : S × Result A) {t : S} {b : B}
    → go_on next x ≡ (t, ok b)
    → (a : A) × (s : S) × (x ≡ (s, ok a)) × (next a s ≡ (t, ok b))
unfolding go_on
go_on-eq-ok next (s, err e) h = cc
go_on-eq-ok next (s, ok a) h = (a, s, refl, h)
