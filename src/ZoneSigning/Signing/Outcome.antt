-- ===== src/ZoneSigning/Signing/Outcome.antt =====
-- What a call of `sign_zone` that ends well has made.
use nova_dns.Prelude.{
  ℕ, ◌≡◌, refl, sym, ◌∙◌, ap, Bool, true, false, not, ◌&&◌, none, some, Option, ◌==◌, arith, Result,
  ok, err, length,
}
use nova_dns.Text.{Text, text_eq, rstrip_dot}
use nova_dns.Text.Split.{text_eq-to-eq}
use nova_dns.Wire.Types.{codes}
use nova_dns.Wire.Rdata.{Value}
use nova_dns.Run.{go_on, go_on-eq-ok}
use nova_dns.Db.{Db, Zone, Row, KeyRow, update}
use nova_dns.Db.Statements.{zone_of, with_record, delete_records, update_zone}
use nova_dns.Db.Selecting.{select-select, select_none, count}
use nova_dns.ZoneSigning.Groups.{Groups, TypesByName, is_denial_type}
use nova_dns.ZoneSigning.Signing.{
  Signer, Summary, sign_zone, get_or_create_key, publish_dnskey, chain_for, signed, uses_nsec3,
  sign_groups, sign_sets, sign_records, sign_with, finish,
}
use nova_dns.ZoneSigning.Signing.Steps.{chain_for-Steps, sign_groups-Steps, get_or_create_key-Steps}
use nova_dns.ZoneSigning.Signing.Counts.{
  is_of, denial_type, insert_record-eq-ok, count-with_record, chain_for-count, sign_groups-count,
}

-- Two databases with as many records of a type.
abbrev SameCount : ℕ → Text → Db → Db → Type 0
SameCount zone_id rtype a b =
    count (is_of zone_id rtype) b.records ≡ count (is_of zone_id rtype) a.records

SameCount-trans :
    (zone_id : ℕ) (rtype : Text) (a b c : Db)
    → SameCount zone_id rtype a b
    → SameCount zone_id rtype b c
    → SameCount zone_id rtype a c
SameCount-trans zone_id rtype a b c h k = k ∙ h

-- A record of another type does not change the count.
SameCount-with_record :
    (zone_id : ℕ) (counted rtype : Text)
    → text_eq rtype counted ≡ false
    → (z : Zone) (name : Text) (ttl : Option ℕ) (v : Value) (db : Db) → zone_of zone_id db ≡ some z
    → SameCount zone_id counted db (with_record zone_id name rtype ttl v none db)
SameCount-with_record zone_id counted rtype h z name ttl v db e =
    count-with_record zone_id counted name rtype ttl v db ∙ rw h (omega arith)

-- Deleting the rows of certain types from a zone, as seen by a count of one type.
abbrev dropped : ℕ → (Text → Bool) → Row → Bool
dropped zone_id drop_type r = r.zone_id == zone_id && drop_type r.rtype

module _ (zone_id : ℕ) (counted : Text) (drop_type : Text → Bool) where
  dropped_lem :
      (d : Bool)
      → drop_type counted ≡ d
      → (r : Row) → is_of zone_id counted r ≡ true
      → not (dropped zone_id drop_type r) ≡ not d
  dropped_lem d e r h =
      let here : (r.zone_id == zone_id) ≡ true = ground arith in
      let typed : text_eq r.rtype counted ≡ true = ground arith in
      let same : r.rtype ≡ counted = text_eq-to-eq r.rtype counted typed in rw (here, same, e)

  delete-SameCount :
      drop_type counted ≡ false
      → (db : Db) → SameCount zone_id counted db (delete_records (dropped zone_id drop_type) db).0
  unfolding delete_records
  delete-SameCount e db = ap length (
      select-select (is_of zone_id counted) (λ r. not (dropped zone_id drop_type r))
        (dropped_lem false e) db.records)

  delete_none :
      drop_type counted ≡ true
      → (db : Db)
      → count (is_of zone_id counted) (delete_records (dropped zone_id drop_type) db).0.records ≡ 0
  unfolding delete_records
  delete_none e db = ap length (
      select_none (is_of zone_id counted) (λ r. not (dropped zone_id drop_type r))
        (dropped_lem true e) db.records)

abbrev is_dnskey : Text → Bool
is_dnskey rtype = text_eq rtype (codes "DNSKEY")

-- What the counts are after a new DNSKEY record is put in and the old signatures and denials are gone.
record IsFresh (zone_id : ℕ) (db : Db) : Type 0 where
  one_dnskey : count (is_of zone_id (codes "DNSKEY")) db.records ≡ 1
  no_rrsig : count (is_of zone_id (codes "RRSIG")) db.records ≡ 0
  no_chain : (nsec3 : Bool) → count (is_of zone_id (denial_type nsec3)) db.records ≡ 0

module _ (zone_id : ℕ) (ttl : Option ℕ) (v : Value) (db : Db) where
  abbrev cleared : Db
  cleared = (delete_records (dropped zone_id is_dnskey) db).0

  abbrev published : Db
  published = with_record zone_id (codes "@") (codes "DNSKEY") ttl v none cleared

  no_old_chain :
      (nsec3 : Bool)
      → count
          (is_of zone_id (denial_type nsec3))
          (delete_records (dropped zone_id is_denial_type) published).0.records
        ≡ 0
  unfolding is_denial_type text_eq
  no_old_chain true = delete_none zone_id (codes "NSEC3") is_denial_type refl published
  no_old_chain false = delete_none zone_id (codes "NSEC") is_denial_type refl published

  published-IsFresh : IsFresh zone_id (delete_records (dropped zone_id is_denial_type) published).0
  unfolding is_denial_type text_eq
  published-IsFresh = record {
    one_dnskey =
        delete-SameCount zone_id (codes "DNSKEY") is_denial_type refl published
        ∙ count-with_record zone_id (codes "DNSKEY") (codes "@") (codes "DNSKEY") ttl v cleared
        ∙ rw (delete_none zone_id (codes "DNSKEY") is_dnskey refl db) refl;
    no_rrsig = delete_none zone_id (codes "RRSIG") is_denial_type refl published;
    no_chain = no_old_chain;
  }

abbrev numbers : Result Summary → ℕ × ℕ
numbers (ok r) = (r.rrsets_signed, r.nsec_records)
numbers (err e) = (0, 0)

module _ (s : Signer) (zone : Zone) where
  publish_dnskey-IsFresh :
      (raw_hex : Text) (db t : Db)
      → publish_dnskey s zone raw_hex db ≡ (t, ok tt)
      → IsFresh zone.id t × (t.zones ≡ db.zones)
  unfolding publish_dnskey
  publish_dnskey-IsFresh raw_hex db t h =
      let (done, a, e1, h1) = go_on-eq-ok _ _ h in
      let (id, b, e2, h2) = go_on-eq-ok _ _ h1 in
      let put = insert_record-eq-ok zone.id (codes "@") (codes "DNSKEY") _ _ a b id e2 in
      let same_a : a ≡ (delete_records (dropped zone.id is_dnskey) db).0 = ap (λ x. x.0) (sym e1) in
      let same_t : t ≡ (delete_records (dropped zone.id is_denial_type) b).0 =
        ap (λ x. x.0) (sym h2) in
      rw (same_t, put, same_a) (published-IsFresh zone.id _ _ db, refl)

  abbrev SameZones : Db → Db → Type 0
  SameZones a b = b.zones ≡ a.zones

  -- The chain adds no DNSKEY and no RRSIG, and a signature adds nothing else.
  chain_for-SameCount :
      (counted : Text) (nsec3 : Bool) (zone_name : Text) (types : TypesByName) (groups : Groups)
      (db : Db)
      → text_eq (codes "NSEC") counted ≡ false
      → text_eq (codes "NSEC3") counted ≡ false
      → text_eq (codes "NSEC3PARAM") counted ≡ false
      → SameCount zone.id counted db (chain_for s zone nsec3 zone_name types groups db).0
  chain_for-SameCount counted nsec3 zone_name types groups db plain hashed params =
      (chain_for-Steps s zone _ (λ db. refl) (SameCount-trans zone.id counted)
          (SameCount-with_record zone.id counted _ plain)
          (SameCount-with_record zone.id counted _ hashed)
          (SameCount-with_record zone.id counted _ params) nsec3 zone_name types groups).keeps
        db

  sign_groups-SameCount :
      (counted : Text) (key : KeyRow) (zone_name : Text) (groups : Groups) (n : ℕ) (db : Db)
      → text_eq (codes "RRSIG") counted ≡ false
      → SameCount zone.id counted db (sign_groups s zone key zone_name groups n db).0
  sign_groups-SameCount counted key zone_name groups n db h =
      (sign_groups-Steps s zone _ (λ db. refl) (SameCount-trans zone.id counted)
          (SameCount-with_record zone.id counted _ h) key zone_name groups n).keeps
        db

  SameZones-puts :
      (rtype : Text) (z : Zone) (name : Text) (ttl : Option ℕ) (v : Value) (db : Db)
      → zone_of zone.id db ≡ some z
      → SameZones db (with_record zone.id name rtype ttl v none db)
  unfolding with_record
  SameZones-puts rtype z name ttl v db e = refl

  chain_for-SameZones :
      (nsec3 : Bool) (zone_name : Text) (types : TypesByName) (groups : Groups) (db : Db)
      → SameZones db (chain_for s zone nsec3 zone_name types groups db).0
  chain_for-SameZones nsec3 zone_name types groups =
      (chain_for-Steps s zone SameZones (λ db. refl) (λ a b c h k. k ∙ h) (SameZones-puts _)
        (SameZones-puts _) (SameZones-puts _) nsec3 zone_name types groups).keeps

  sign_groups-SameZones :
      (key : KeyRow) (zone_name : Text) (groups : Groups) (n : ℕ) (db : Db)
      → SameZones db (sign_groups s zone key zone_name groups n db).0
  sign_groups-SameZones key zone_name groups n =
      (sign_groups-Steps s zone SameZones (λ db. refl) (λ a b c h k. k ∙ h) (SameZones-puts _) key
        zone_name groups n).keeps

  get_or_create_key-SameZones : (db : Db) → SameZones db (get_or_create_key s zone db).0
  get_or_create_key-SameZones =
      (get_or_create_key-Steps s zone SameZones (λ db. refl) (λ a b c h k. k ∙ h)
        (λ k n db. refl)).keeps

  -- What a signed zone has.
  pub record IsSigned (nsec3 : Bool) (before after : Db) (r : Summary) : Type 0 where
    pub one_dnskey : count (is_of zone.id (codes "DNSKEY")) after.records ≡ 1
    pub signatures : count (is_of zone.id (codes "RRSIG")) after.records ≡ r.rrsets_signed
    pub denials : count (is_of zone.id (denial_type nsec3)) after.records ≡ r.nsec_records
    pub zones : after.zones ≡ update (λ z. z.id == zone.id) (signed nsec3) before.zones

  -- The last steps, from the database with a new DNSKEY record on.
  signed_from :
      (nsec3 : Bool) (zone_name : Text) (types : TypesByName) (groups : Groups) (key : KeyRow)
      (before c f g t : Db) (chain : Groups × ℕ) (n : ℕ) (r : Summary)
      → IsFresh zone.id c
      → c.zones ≡ before.zones
      → chain_for s zone nsec3 zone_name types groups c ≡ (f, ok chain)
      → sign_groups s zone key zone_name chain.0 0 f ≡ (g, ok n)
      → t ≡ (update_zone (signed nsec3) zone.id g).0
      → r.rrsets_signed ≡ n
      → r.nsec_records ≡ chain.1
      → IsSigned nsec3 before t r
  unfolding update_zone text_eq
  signed_from nsec3 zone_name types groups key before c f g t chain n r fresh zones e1 e2 e3 er ed =
      let to_f : (chain_for s zone nsec3 zone_name types groups c).0 ≡ f = ap (λ x. x.0) e1 in
      let to_g : (sign_groups s zone key zone_name chain.0 0 f).0 ≡ g = ap (λ x. x.0) e2 in
      let dnskey_f =
        chain_for-SameCount (codes "DNSKEY") nsec3 zone_name types groups c refl refl refl in
      let dnskey_g = sign_groups-SameCount (codes "DNSKEY") key zone_name chain.0 0 f refl in
      let rrsig_f =
        chain_for-SameCount (codes "RRSIG") nsec3 zone_name types groups c refl refl refl in
      let rrsig_g = sign_groups-count s zone key zone_name chain.0 0 f g n e2 in
      let chain_f = chain_for-count s zone nsec3 zone_name types groups c f chain e1 in
      let chain_g =
        sign_groups-SameCount (denial_type nsec3) key zone_name chain.0 0 f (no_signature nsec3) in
      let zones_f = chain_for-SameZones nsec3 zone_name types groups c in
      let zones_g = sign_groups-SameZones key zone_name chain.0 0 f in
      let no_rrsig_f : count (is_of zone.id (codes "RRSIG")) f.records ≡ 0 =
        rw (← to_f, rrsig_f) fresh.no_rrsig in
      let no_chain_c = fresh.no_chain nsec3 in
      let same_g : SameCount zone.id (denial_type nsec3) f g = rw (← to_g) chain_g in
      let zones_to_g : g.zones ≡ before.zones =
        rw (← to_g, zones_g) (rw (← to_f) zones_f ∙ zones) in
      record {
        one_dnskey = rw (e3, ← to_g, dnskey_g, ← to_f, dnskey_f) fresh.one_dnskey;
        signatures = rw (e3, er) (omega arith);
        denials = rw (e3, ed) (omega arith);
        zones = rw (e3, zones_to_g) refl;
      }
    where
      no_signature : (nsec3 : Bool) → text_eq (codes "RRSIG") (denial_type nsec3) ≡ false
      no_signature true = refl
      no_signature false = refl

  finish_lem :
      (nsec3 : Bool) (key : KeyRow) (denials n : ℕ) (g t : Db) (r : Summary)
      → finish s zone nsec3 key denials n g ≡ (t, ok r)
      → (t ≡ (update_zone (signed nsec3) zone.id g).0)
        × (r.rrsets_signed ≡ n)
        × (r.nsec_records ≡ denials)
  unfolding finish go_on
  finish_lem nsec3 key denials n g t r h =
      (ap (λ x. x.0) (sym h), ap (λ x. (numbers x.1).0) (sym h), ap (λ x. (numbers x.1).1) (sym h))

  sign_sets-IsSigned :
      (nsec3 : Bool) (zone_name : Text) (sets : Groups × TypesByName) (key : KeyRow)
      (before c t : Db) (r : Summary)
      → IsFresh zone.id c
      → c.zones ≡ before.zones
      → sign_sets s zone nsec3 key zone_name sets c ≡ (t, ok r)
      → IsSigned nsec3 before t r
  unfolding sign_sets
  sign_sets-IsSigned nsec3 zone_name (groups, types) key before c t r fresh zones h =
      let (chain, f, e1, h1) = go_on-eq-ok _ _ h in
      let (n, g, e2, h2) = go_on-eq-ok _ _ h1 in
      let (e3, er, ed) = finish_lem nsec3 key chain.1 n g t r h2 in
      signed_from nsec3 zone_name types groups key before c f g t chain n r fresh zones e1 e2 e3 er
        ed

  sign_records-IsSigned :
      (nsec3 : Bool) (zone_name : Text) (key : KeyRow) (before c t : Db) (r : Summary)
      → IsFresh zone.id c
      → c.zones ≡ before.zones
      → sign_records s zone nsec3 key zone_name c ≡ (t, ok r)
      → IsSigned nsec3 before t r
  unfolding sign_records go_on
  sign_records-IsSigned nsec3 zone_name key before c t r fresh zones h =
      sign_sets-IsSigned nsec3 zone_name _ key before c t r fresh zones h

  sign_with-IsSigned :
      (nsec3 : Bool) (key : KeyRow) (before a t : Db) (r : Summary)
      → a.zones ≡ before.zones
      → sign_with s zone nsec3 key a ≡ (t, ok r)
      → IsSigned nsec3 before t r
  unfolding sign_with
  sign_with-IsSigned nsec3 key before a t r zones h =
      let (raw_hex, b, e1, h1) = go_on-eq-ok _ _ h in
      let (done, c, e2, h2) = go_on-eq-ok _ _ h1 in
      let (fresh, kept) = publish_dnskey-IsFresh raw_hex b c e2 in
      let same : a ≡ b = ap (λ x. x.0) e1 in
      sign_records-IsSigned nsec3 (rstrip_dot zone.name) key before c t r fresh
        (kept ∙ rw (← same) zones) h2

  -- When signing ends well, the zone has exactly one DNSKEY record, as many signatures and as many
  -- records of the chain as the summary says, none left over from before; it is marked as signed with
  -- that kind of chain, its serial number is one higher, and no other zone is changed.
  pub sign_zone-IsSigned :
      (use_nsec3 : Option Bool) (db t : Db) (r : Summary)
      → sign_zone s zone use_nsec3 db ≡ (t, ok r)
      → IsSigned (uses_nsec3 zone use_nsec3) db t r
  unfolding sign_zone
  sign_zone-IsSigned use_nsec3 db t r h =
      let (key, a, e1, h1) = go_on-eq-ok _ _ h in
      let to_a : (get_or_create_key s zone db).0 ≡ a = ap (λ x. x.0) e1 in
      sign_with-IsSigned (uses_nsec3 zone use_nsec3) key db a t r
        (rw (← to_a) (get_or_create_key-SameZones db)) h1
