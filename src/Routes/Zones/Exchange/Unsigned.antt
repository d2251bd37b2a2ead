-- ===== src/Routes/Zones/Exchange/Unsigned.antt =====
-- What ends a change of a zone that is not signed: its records stay as they are then.
use nova_dns.Prelude.{
  ℕ, ◌≡◌, refl, Bool, false, some, List, [], ◌∷◌, ok, inl, inr, Bool-cases, ◌==◌,
}
use nova_dns.Text.{Text}
use nova_dns.Run.{go_on}
use nova_dns.Wire.Types.{codes}
use nova_dns.Db.{Db, Zone, select_one, update}
use nova_dns.Db.Statements.{zone_of, next_serial, update_zone, bump_serial, audit}
use nova_dns.ZoneSigning.Signing.{Signer}
use nova_dns.Routes.{Site, Reply, put_db, bust_cache, cleared}
use nova_dns.Routes.Zones.Records.{sign_if, resign, resign_if_enabled, publish}

-- the row that a SELECT finds after an UPDATE of the rows that it looks for
select_one-update :
    {A : Type 0} (p : A → Bool) (change : A → A)
    → ((x : A) → p (change x) ≡ p x)
    → (xs : List A) (x : A) → select_one p xs ≡ some x
    → select_one p (update p change xs) ≡ some (change x)
unfolding select_one update
select_one-update p change h [] x e = absurd (cc e)
select_one-update p change h (y ∷ xs) x e = elim (Bool-cases (p y)) [
  | inl d ↦ let found : some y ≡ some x = rw (d, select_one) at e in rw (d, select_one, h y, d) cc
  | inr d ↦ rw (d, select_one, d) (select_one-update p change h xs x (rw (d, select_one) at e))
]

zone_of-bumped :
    (zone_id : ℕ) (z : Zone) (db : Db)
    → zone_of zone_id db ≡ some z
    → zone_of zone_id (bump_serial zone_id db).0 ≡ some (next_serial z)
unfolding zone_of bump_serial update_zone
zone_of-bumped zone_id z db e =
    select_one-update (λ q. q.id == zone_id) next_serial (λ q. refl) db.zones z e

pub resign_if_enabled-unsigned :
    (s : Signer) (zone_id : ℕ) (z : Zone) (db : Db)
    → zone_of zone_id db ≡ some z
    → z.dnssec_enabled ≡ false
    → resign_if_enabled s zone_id db ≡ (db, ok tt)
unfolding resign_if_enabled resign sign_if go_on
resign_if_enabled-unsigned s zone_id z db e u = rw (e, u) refl

-- the database after the serial number is raised and the action logged
abbrev pub logged_bump : ℕ → Text → Db → Db
logged_bump zone_id action db = (audit action (codes "dns") (bump_serial zone_id db).0).0

pub zone_of-logged_bump :
    (zone_id : ℕ) (z : Zone) (action : Text) (db : Db)
    → zone_of zone_id db ≡ some z
    → zone_of zone_id (logged_bump zone_id action db) ≡ some (next_serial z)
unfolding zone_of audit
zone_of-logged_bump zone_id z action db e = zone_of-bumped zone_id z db e

pub publish-unsigned :
    (s : Signer) (zone_id : ℕ) (z : Zone) (action : Text) (reply : Reply) (site : Site)
    → zone_of zone_id site.db ≡ some z
    → z.dnssec_enabled ≡ false
    → publish s zone_id action reply site
      ≡ (record { db = logged_bump zone_id action site.db; cache = cleared site.cache }, ok reply)
unfolding publish go_on put_db bump_serial update_zone audit bust_cache
publish-unsigned s zone_id z action reply site e u =
    rw
      (resign_if_enabled-unsigned s zone_id (next_serial z) (logged_bump zone_id action site.db)
        (zone_of-logged_bump zone_id z action site.db e) u)
      refl
