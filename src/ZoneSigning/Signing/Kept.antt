-- ===== src/ZoneSigning/Signing/Kept.antt =====
-- What `sign_zone` leaves as it is, on every path through it.
use nova_dns.Prelude.{
  ℕ, ◌≡◌, refl, ◌∙◌, ap, Bool, true, false, not, ◌&&◌, none, Option, List, [], ◌∷◌, ◌++◌, ◌==◌,
  arith, inl, inr, Bool-cases,
}
use mathlib.Core.List.{append-nil}
use nova_dns.Text.{Text}
use nova_dns.Wire.Rdata.{Value}
use nova_dns.Db.{Db, Zone, Row, KeyRow, select, update}
use nova_dns.Db.Statements.{with_record, delete_records, update_zone}
use nova_dns.Db.Selecting.{select-append, select-select}
use nova_dns.ZoneSigning.Groups.{is_dnssec_type}
use nova_dns.ZoneSigning.Signing.{Signer, sign_zone, signed}
use nova_dns.ZoneSigning.Signing.Frame.{is_foreign, Allows, sign_zone-Steps}

-- The zone's own records, the other zones' records and the configuration are the same.
pub record Kept (zone_id : ℕ) (a b : Db) : Type 0 where
  pub foreign : select (is_foreign zone_id) b.records ≡ select (is_foreign zone_id) a.records
  pub other_zones :
      select (λ z. not (z.id == zone_id)) b.zones ≡ select (λ z. not (z.id == zone_id)) a.zones
  pub settings : b.settings ≡ a.settings
  pub block_entries : b.block_entries ≡ a.block_entries
  pub blocklists : b.blocklists ≡ a.blocklists
  pub rewrite_rules : b.rewrite_rules ≡ a.rewrite_rules
  pub forwarders : b.forwarders ≡ a.forwarders

Kept-same : (zone_id : ℕ) (db : Db) → Kept zone_id db db
Kept-same zone_id db = record {
  foreign = refl;
  other_zones = refl;
  settings = refl;
  block_entries = refl;
  blocklists = refl;
  rewrite_rules = refl;
  forwarders = refl;
}

Kept-trans : (zone_id : ℕ) (a b c : Db) → Kept zone_id a b → Kept zone_id b c → Kept zone_id a c
Kept-trans zone_id a b c h k = record {
  foreign = k.foreign ∙ h.foreign;
  other_zones = k.other_zones ∙ h.other_zones;
  settings = k.settings ∙ h.settings;
  block_entries = k.block_entries ∙ h.block_entries;
  blocklists = k.blocklists ∙ h.blocklists;
  rewrite_rules = k.rewrite_rules ∙ h.rewrite_rules;
  forwarders = k.forwarders ∙ h.forwarders;
}

Kept-new_key :
    (zone_id : ℕ) (k : KeyRow) (n : ℕ) (db : Db)
    → Kept zone_id db (record db { dnssec_keys = db.dnssec_keys ++ k ∷ []; next_key_id = n })
Kept-new_key zone_id k n db = record {
  foreign = refl;
  other_zones = refl;
  settings = refl;
  block_entries = refl;
  blocklists = refl;
  rewrite_rules = refl;
  forwarders = refl;
}

-- Every row that is made is of a type that signing makes.
Kept-with_record :
    (zone_id : ℕ) (rtype : Text)
    → is_dnssec_type rtype ≡ true
    → (name : Text) (ttl : Option ℕ) (v : Value) (db : Db)
    → Kept zone_id db (with_record zone_id name rtype ttl v none db)
unfolding with_record is_foreign select
Kept-with_record zone_id rtype h name ttl v db = record {
  foreign = select-append (is_foreign zone_id) db.records _ ∙ rw (own, append-nil) refl;
  other_zones = refl;
  settings = refl;
  block_entries = refl;
  blocklists = refl;
  rewrite_rules = refl;
  forwarders = refl;
}
  where
    own : not (zone_id == zone_id && is_dnssec_type rtype) ≡ false
    own = ground (arith, h)

-- Every row that is deleted is of such a type too.
Kept-delete :
    (zone_id : ℕ) (drop : Row → Bool)
    → ((r : Row) → is_foreign zone_id r ≡ true → not (drop r) ≡ true)
    → (db : Db) → Kept zone_id db (delete_records drop db).0
unfolding delete_records
Kept-delete zone_id drop h db = record {
  foreign = select-select (is_foreign zone_id) (λ r. not (drop r)) h db.records;
  other_zones = refl;
  settings = refl;
  block_entries = refl;
  blocklists = refl;
  rewrite_rules = refl;
  forwarders = refl;
}

Kept-update_zone :
    (zone_id : ℕ) (change : Zone → Zone)
    → ((z : Zone) → (change z).id ≡ z.id)
    → (db : Db) → Kept zone_id db (update_zone change zone_id db).0
unfolding update_zone select
Kept-update_zone zone_id change h db = record {
  foreign = refl;
  other_zones = rest_update db.zones;
  settings = refl;
  block_entries = refl;
  blocklists = refl;
  rewrite_rules = refl;
  forwarders = refl;
}
  where
    rest_update :
        (zones : List Zone)
        → select (λ z. not (z.id == zone_id)) (update (λ z. z.id == zone_id) change zones)
          ≡ select (λ z. not (z.id == zone_id)) zones
    rest_update [] = refl
    rest_update (z ∷ zones) = elim (Bool-cases (z.id == zone_id)) [
      | inl e ↦ rw (e, h z, e) (rest_update zones)
      | inr e ↦ rw (e, e) (ap (◌∷◌ z) (rest_update zones))
    ]

module _ (s : Signer) (zone : Zone) where
  Kept-Allows : Allows s zone (Kept zone.id)
  Kept-Allows = record {
    same = Kept-same zone.id;
    trans = Kept-trans zone.id;
    puts = λ rtype h z name ttl v db e. Kept-with_record zone.id rtype h name ttl v db;
    keys = Kept-new_key zone.id;
    deletes = Kept-delete zone.id;
    marks = λ nsec3. Kept-update_zone zone.id (signed nsec3) (λ z. refl);
  }

  -- Signing a zone, also where it raises midway, leaves every record alone that signing does not make
  -- itself, and all of the other zones, the settings, block lists, rewrite rules and forwarders.
  pub sign_zone-Kept :
      (use_nsec3 : Option Bool) (db : Db) → Kept zone.id db (sign_zone s zone use_nsec3 db).0
  sign_zone-Kept use_nsec3 = (sign_zone-Steps s zone (Kept zone.id) Kept-Allows use_nsec3).keeps
