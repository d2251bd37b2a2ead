-- ===== src/Routes/Kept.antt =====
-- The steps of a handler, as far as they keep the invariant of the tables.
use nova_dns.Prelude.{ℕ, Bool, true, false, Option, Result, ok}
use nova_dns.Text.{Text}
use nova_dns.Wire.Rdata.{Value}
use nova_dns.Run.{
  Run, ◌>>=◌, ◌>>◌, pure, lift, read, Steps, lift-Steps, read-Steps, write-Steps, bind-Steps,
}
use nova_dns.Db.{Db}
use nova_dns.Db.Statements.{insert_record, audit}
use nova_dns.Db.Valid.Statements.{Keeps, insert_record-Keeps, audit-Keeps}
use nova_dns.Routes.{Site, Reply, refused, put_db, on_db, bust_cache, refuse_if}

pub Keeps-same : (db : Db) → Keeps db db
Keeps-same db h = h

pub Keeps-trans : (a b c : Db) → Keeps a b → Keeps b c → Keeps a c
Keeps-trans a b c f g h = g (f h)

abbrev pub SiteKeeps : Site → Site → Type 0
SiteKeeps s t = Keeps s.db t.db

SiteKeeps-trans : (a b c : Site) → SiteKeeps a b → SiteKeeps b c → SiteKeeps a c
SiteKeeps-trans a b c f g h = g (f h)

-- chains of statements, and chains of steps of a handler
pub db_then :
    {A B : Type 0} (first : Run Db A) (next : A → Run Db B)
    → Steps Keeps first
    → ((a : A) → Steps Keeps (next a))
    → Steps Keeps (first >>= next)
db_then = bind-Steps Keeps Keeps-same Keeps-trans

pub site_then :
    {A B : Type 0} (first : Run Site A) (next : A → Run Site B)
    → Steps SiteKeeps first
    → ((a : A) → Steps SiteKeeps (next a))
    → Steps SiteKeeps (first >>= next)
site_then = bind-Steps SiteKeeps (λ s h. h) SiteKeeps-trans

pub given : {A : Type 0} (r : Result A) → Steps SiteKeeps (lift r)
given = lift-Steps SiteKeeps (λ s h. h) SiteKeeps-trans

put_db-Keeps :
    {A : Type 0} (s : Site) (x : Db × Result A) → Keeps s.db x.0 → SiteKeeps s (put_db s x).0
unfolding put_db
put_db-Keeps s (db, r) h = h

pub on : {A : Type 0} (call : Run Db A) → Steps Keeps call → Steps SiteKeeps (on_db call)
on call h = record { keeps = λ s. put_db-Keeps s (call s.db) (h.keeps s.db) }

-- a statement, with the rest of the handler
pub on_then :
    {A B : Type 0} (call : Run Db A) (next : A → Run Site B)
    → Steps Keeps call
    → ((a : A) → Steps SiteKeeps (next a))
    → Steps SiteKeeps (on_db call >>= next)
on_then call next h = site_then (on_db call) next (on call h)

pub look_then :
    {A B : Type 0} (view : Db → A) (next : A → Run Site B)
    → ((a : A) → Steps SiteKeeps (next a))
    → Steps SiteKeeps (on_db (read view) >>= next)
look_then view next = on_then (read view) next (read-Steps Keeps Keeps-same Keeps-trans view)

pub lift_then :
    {A B : Type 0} (r : Result A) (next : A → Run Site B)
    → ((a : A) → Steps SiteKeeps (next a))
    → Steps SiteKeeps (lift r >>= next)
lift_then r next = site_then (lift r) next (given r)

pub refuse_if-Steps :
    (test : Bool) (n : ℕ) (next : Run Site Reply)
    → Steps SiteKeeps next
    → Steps SiteKeeps (refuse_if test n next)
unfolding refuse_if
refuse_if-Steps true n next h = given (ok (refused n))
refuse_if-Steps false n next h = h

pub busted : (reply : Reply) → Steps SiteKeeps (bust_cache >> pure reply)
unfolding bust_cache
busted reply =
    site_then bust_cache _ (write-Steps SiteKeeps (λ s h. h) SiteKeeps-trans _ (λ s h. h))
      λ done. given (ok reply)

pub inserted :
    (zone_id : ℕ) (name rtype : Text) (ttl : Option ℕ) (v : Value) (m : Option Text)
    → Steps Keeps (insert_record zone_id name rtype ttl v m)
inserted zone_id name rtype ttl v m = record {
  keeps = insert_record-Keeps zone_id name rtype ttl v m;
}

pub logged : (action category : Text) → Steps Keeps (audit action category)
logged action category = record { keeps = audit-Keeps action category }
