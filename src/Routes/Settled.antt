-- ===== src/Routes/Settled.antt =====
-- How a handler ends that does not raise: it refuses and leaves the site as it was, or the cache is
-- empty afterwards.
use nova_dns.Prelude.{ℕ, ◌≡◌, refl, sym, ◌∙◌, ap, Bool, true, false, Result, ok, err}
use nova_dns.Run.{Run, go_on, go_on-eq-ok, ◌>>=◌, ◌>>◌, pure, lift, read}
use nova_dns.Db.{Db}
use nova_dns.Routes.{
  Site, Reply, done, with_id, with_count, redirected, refused, put_db, on_db, bust_cache, cleared,
  refuse_if,
}

abbrev pub IsDone : Reply → Type 0
IsDone (refused n) = ⊥
IsDone reply = Unit

-- Where the call ends well, it has emptied the cache and does not refuse.
pub record Clears (call : Run Site Reply) : Type 0 where
  pub empties :
      (s t : Site) (r : Reply) → call s ≡ (t, ok r) → (t.cache ≡ cleared s.cache) × IsDone r

-- A refusal leaves all as it was; any other reply comes with an empty cache.
abbrev pub IsSettled : Site → Site → Reply → Type 0
IsSettled s t (refused n) = t ≡ s
IsSettled s t reply = t.cache ≡ cleared s.cache

pub record Settles (call : Run Site Reply) : Type 0 where
  pub settled : (s t : Site) (r : Reply) → call s ≡ (t, ok r) → IsSettled s t r

-- The call leaves the cache alone.
pub record Spares {A : Type 0} (call : Run Site A) : Type 0 where
  pub spares : (s : Site) → (call s).0.cache ≡ s.cache

put_db-cache : {A : Type 0} (s : Site) (x : Db × Result A) → (put_db s x).0.cache ≡ s.cache
unfolding put_db
put_db-cache s (db, r) = refl

pub db-Spares : {A : Type 0} (call : Run Db A) → Spares (on_db call)
db-Spares call = record { spares = λ s. put_db-cache s (call s.db) }

pub lift-Spares : {A : Type 0} (r : Result A) → Spares {A = A} (lift r)
lift-Spares r = record { spares = λ s. refl }

go_on-cache :
    {A B : Type 0} (next : A → Run Site B) (s : Site) (x : Site × Result A)
    → x.0.cache ≡ s.cache
    → ((a : A) → Spares (next a))
    → (go_on next x).0.cache ≡ s.cache
unfolding go_on
go_on-cache next s (t, err e) h k = h
go_on-cache next s (t, ok a) h k = (k a).spares t ∙ h

pub bind-Spares :
    {A B : Type 0} (first : Run Site A) (next : A → Run Site B)
    → Spares first
    → ((a : A) → Spares (next a))
    → Spares (first >>= next)
bind-Spares first next h k = record { spares = λ s. go_on-cache next s (first s) (h.spares s) k }

abbrev reply_of : Result Reply → Reply
reply_of (ok b) = b
reply_of (err e) = done

IsDone-eq : (a b : Reply) → IsDone a → a ≡ b → IsDone b
IsDone-eq a b h e = rw (← e) h

pub bust-Clears : (r : Reply) → IsDone r → Clears (bust_cache >> pure r)
unfolding bust_cache go_on
bust-Clears r d = record {
  empties = λ s t b e. (ap (λ x. x.0.cache) (sym e), IsDone-eq r b d (ap (λ x. reply_of x.1) e));
}

pub bind-Clears :
    {A : Type 0} (first : Run Site A) (next : A → Run Site Reply)
    → Spares first
    → ((a : A) → Clears (next a))
    → Clears (first >>= next)
bind-Clears first next k h = record {
  empties = λ s t b e.
      let (a, u, e1, e2) = go_on-eq-ok next (first s) e in
      let (empty, d) = (h a).empties u t b e2 in
      (empty ∙ ap cleared (ap (λ x. x.0.cache) (sym e1) ∙ k.spares s), d);
}

Clears-IsSettled :
    (s t : Site) (r : Reply) → (t.cache ≡ cleared s.cache) × IsDone r → IsSettled s t r
Clears-IsSettled s t (refused n) h = absurd h.1
Clears-IsSettled s t done h = h.0
Clears-IsSettled s t (with_id n) h = h.0
Clears-IsSettled s t (with_count n) h = h.0
Clears-IsSettled s t (redirected n) h = h.0

pub Clears-Settles : (call : Run Site Reply) → Clears call → Settles call
Clears-Settles call h = record { settled = λ s t r e. Clears-IsSettled s t r (h.empties s t r e) }

IsSettled-eq : (s t : Site) (a b : Reply) → IsSettled s t a → a ≡ b → IsSettled s t b
IsSettled-eq s t a b h e = rw (← e) h

pub refused-Settles : (n : ℕ) → Settles (pure (refused n))
refused-Settles n = record {
  settled =
      λ s t r e. IsSettled-eq s t (refused n) r (ap (λ x. x.0) (sym e)) (ap (λ x. reply_of x.1) e);
}

-- after a look at the database, or a step that touches nothing
pub read-Settles :
    {A : Type 0} (view : Db → A) (next : A → Run Site Reply)
    → ((a : A) → Settles (next a))
    → Settles (on_db (read view) >>= next)
unfolding put_db go_on
read-Settles view next h = record { settled = λ s t r e. (h (view s.db)).settled s t r e }

pub lift-Settles :
    {A : Type 0} (x : Result A) (next : A → Run Site Reply)
    → ((a : A) → Settles (next a))
    → Settles (lift x >>= next)
lift-Settles x next h = record {
  settled = λ s t r e.
      let (a, u, e1, e2) = go_on-eq-ok next (s, x) e in
      let same : u ≡ s = ap (λ x. x.0) (sym e1) in (h a).settled s t r (rw same at e2);
}

pub refuse_if-Settles :
    (test : Bool) (n : ℕ) (next : Run Site Reply) → Settles next → Settles (refuse_if test n next)
unfolding refuse_if
refuse_if-Settles true n next h = refused-Settles n
refuse_if-Settles false n next h = h
