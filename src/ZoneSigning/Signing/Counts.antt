-- ===== src/ZoneSigning/Signing/Counts.antt =====
-- What the numbers in `sign_zone`'s summary count.
use nova_dns.Prelude.{
  ℕ, ◌+◌, ◌≡◌, refl, sym, ◌∙◌, ap, Bool, true, false, ◌&&◌, none, some, Option, List, [], ◌∷◌, ◌==◌,
  arith, if◌then◌else◌, Result, ok, inl, inr, Option-cases, length, length-append,
}
use nova_dns.Text.{Text, text_eq}
use nova_dns.Wire.Types.{codes}
use nova_dns.Wire.Name.{Bytes}
use nova_dns.Wire.Rdata.{Value, text}
use nova_dns.Run.{go_on-eq-ok}
use nova_dns.Db.{Db, Zone, Row, KeyRow, select}
use nova_dns.Db.Statements.{zone_of, with_record, insert_record}
use nova_dns.Db.Selecting.{select-append, count}
use nova_dns.ZoneSigning.Groups.{Groups, TypesByName, Item, ring, length-ring}
use nova_dns.ZoneSigning.Signing.{
  Signer, publish_nsec, publish_nsec3, nsec_chain, nsec3_chain, chain_for, sign_rdatas, sign_items,
  sign_groups,
}

-- the rows of a type in a zone
abbrev pub is_of : ℕ → Text → Row → Bool
is_of zone_id rtype r = r.zone_id == zone_id && text_eq r.rtype rtype

pub insert_record-eq-ok :
    (zone_id : ℕ) (name rtype : Text) (ttl : Option ℕ) (v : Value) (db t : Db) (id : ℕ)
    → insert_record zone_id name rtype ttl v none db ≡ (t, ok id)
    → t ≡ with_record zone_id name rtype ttl v none db
unfolding insert_record
insert_record-eq-ok zone_id name rtype ttl v db t id h = elim (Option-cases (zone_of zone_id db)) [
  | inl e ↦ absurd (cc (rw (e, insert_record) at h))
  | inr (z, e) ↦ cc (rw (e, insert_record) at h)
]

-- A new row is counted where it is of the type.
pub count-with_record :
    (zone_id : ℕ) (counted name rtype : Text) (ttl : Option ℕ) (v : Value) (db : Db)
    → count (is_of zone_id counted) (with_record zone_id name rtype ttl v none db).records
      ≡ count (is_of zone_id counted) db.records + (if text_eq rtype counted then 1 else 0)
unfolding with_record select
count-with_record zone_id counted name rtype ttl v db =
    ap length (select-append (is_of zone_id counted) db.records _)
    ∙ length-append (select (is_of zone_id counted) db.records) _
    ∙ ground arith

-- one row more, and the call ends
count_one :
    (p : Row → Bool) (change : Db → Db) (db a b t : Db) (n : ℕ)
    → db ≡ a
    → b ≡ change a
    → count p (change a).records ≡ count p a.records + 1
    → ◌≡◌ {A = Db × Result ℕ} (b, ok 1) (t, ok n)
    → count p t.records ≡ count p db.records + n
count_one p change db a b t n e put counted h =
    rw (ap (λ x. x.0) (sym h), put, e, counted) (ground arith)

-- a chain is as long as the names that it is made of
chain_end :
    {A : Type 0} (p : Row → Bool) (xs : List A) (db a t : Db) (all : Groups) (chain : Groups × ℕ)
    → count p a.records ≡ count p db.records + length (ring xs)
    → ◌≡◌ {A = Db × Result (Groups × ℕ)} (a, ok (all, length xs)) (t, ok chain)
    → count p t.records ≡ count p db.records + chain.1
chain_end p xs db a t all chain counted h =
    let same : a ≡ t = ap (λ x. x.0) h in
    let long : chain.1 ≡ length xs = cc h in rw (← same) (omega (arith, length-ring xs))

-- the type of the records in the chain
abbrev pub denial_type : Bool → Text
denial_type true = codes "NSEC3"
denial_type false = codes "NSEC"

module _ (s : Signer) (zone : Zone) where
  sign_rdatas-count :
      (key : KeyRow) (zone_name name rtype : Text) (ttl : ℕ) (rdatas : List Bytes) (db t : Db)
      (n : ℕ)
      → sign_rdatas s zone key zone_name name rtype ttl rdatas db ≡ (t, ok n)
      → count (is_of zone.id (codes "RRSIG")) t.records
        ≡ count (is_of zone.id (codes "RRSIG")) db.records + n
  unfolding sign_rdatas text_eq
  sign_rdatas-count key zone_name name rtype ttl [] db t n h = ground arith
  sign_rdatas-count key zone_name name rtype ttl (rdata ∷ rdatas) db t n h =
      let (rrsig, a, e1, h1) = go_on-eq-ok _ _ h in
      let (id, b, e2, h2) = go_on-eq-ok _ _ h1 in
      let put = insert_record-eq-ok zone.id name (codes "RRSIG") _ _ a b id e2 in
      let counted = count-with_record zone.id (codes "RRSIG") name (codes "RRSIG") _ _ a in
      count_one (is_of zone.id (codes "RRSIG")) (with_record zone.id name (codes "RRSIG") _ _ none)
        db a b t n (ap (λ x. x.0) e1) put counted h2

  sign_items-count :
      (key : KeyRow) (zone_name name rtype : Text) (items : List Item) (db t : Db) (n : ℕ)
      → sign_items s zone key zone_name name rtype items db ≡ (t, ok n)
      → count (is_of zone.id (codes "RRSIG")) t.records
        ≡ count (is_of zone.id (codes "RRSIG")) db.records + n
  unfolding sign_items
  sign_items-count key zone_name name rtype [] db t n h = ground arith
  sign_items-count key zone_name name rtype (item ∷ items) db t n h =
      let (rdatas, a, e1, h1) = go_on-eq-ok _ _ h in
      let counted = sign_rdatas-count key zone_name name rtype _ rdatas a t n h1 in
      rw (ap (λ x. x.0) e1) counted

  -- Each set that is counted as signed has a signature more.
  pub sign_groups-count :
      (key : KeyRow) (zone_name : Text) (groups : Groups) (before : ℕ) (db t : Db) (n : ℕ)
      → sign_groups s zone key zone_name groups before db ≡ (t, ok n)
      → count (is_of zone.id (codes "RRSIG")) t.records + before
        ≡ count (is_of zone.id (codes "RRSIG")) db.records + n
  unfolding sign_groups
  sign_groups-count key zone_name [] before db t n h = ground arith
  sign_groups-count key zone_name (((name, rtype), rows) ∷ groups) before db t n h =
      let (one, a, e1, h1) = go_on-eq-ok _ _ h in
      let counted = sign_items-count key zone_name name rtype _ db a one e1 in
      let rest = sign_groups-count key zone_name groups (before + one) a t n h1 in omega arith

  -- Each name in the chain has an NSEC record more.
  publish_nsec-count :
      (zone_name : Text) (types : TypesByName) (pairs : List (Text × Text)) (groups all : Groups)
      (db t : Db)
      → publish_nsec s zone zone_name types pairs groups db ≡ (t, ok all)
      → count (is_of zone.id (codes "NSEC")) t.records
        ≡ count (is_of zone.id (codes "NSEC")) db.records + length pairs
  unfolding publish_nsec text_eq
  publish_nsec-count zone_name types [] groups all db t h = ground arith
  publish_nsec-count zone_name types ((name, next) ∷ rest) groups all db t h =
      let (rdata, a, e1, h1) = go_on-eq-ok _ _ h in
      let (id, b, e2, h2) = go_on-eq-ok _ _ h1 in
      let (row, c, e3, h3) = go_on-eq-ok _ _ h2 in
      let put = insert_record-eq-ok zone.id name (codes "NSEC") _ _ a b id e2 in
      let counted = count-with_record zone.id (codes "NSEC") name (codes "NSEC") _ _ a in
      let here =
        count_one (is_of zone.id (codes "NSEC")) (with_record zone.id name (codes "NSEC") _ _ none)
          db a b b 1 (ap (λ x. x.0) e1) put counted refl in
      let same : c ≡ b = ap (λ x. x.0) (sym e3) in
      let more = publish_nsec-count zone_name types rest _ all c t h3 in
      more ∙ rw same (omega arith)

  publish_nsec3-count :
      (types : TypesByName) (pairs : List ((Text × Text) × (Text × Text))) (groups all : Groups)
      (db t : Db)
      → publish_nsec3 s zone types pairs groups db ≡ (t, ok all)
      → count (is_of zone.id (codes "NSEC3")) t.records
        ≡ count (is_of zone.id (codes "NSEC3")) db.records + length pairs
  unfolding publish_nsec3 text_eq
  publish_nsec3-count types [] groups all db t h = ground arith
  publish_nsec3-count types (((name, hash), (next, next_hash)) ∷ rest) groups all db t h =
      let (rdata, a, e1, h1) = go_on-eq-ok _ _ h in
      let (id, b, e2, h2) = go_on-eq-ok _ _ h1 in
      let (row, c, e3, h3) = go_on-eq-ok _ _ h2 in
      let put = insert_record-eq-ok zone.id _ (codes "NSEC3") _ _ a b id e2 in
      let counted = count-with_record zone.id (codes "NSEC3") _ (codes "NSEC3") _ _ a in
      let here =
        count_one (is_of zone.id (codes "NSEC3")) (with_record zone.id _ (codes "NSEC3") _ _ none)
          db a b b 1 (ap (λ x. x.0) e1) put counted refl in
      let same : c ≡ b = ap (λ x. x.0) (sym e3) in
      let more = publish_nsec3-count types rest _ all c t h3 in more ∙ rw same (omega arith)

  nsec_chain-count :
      (zone_name : Text) (types : TypesByName) (groups : Groups) (db t : Db) (chain : Groups × ℕ)
      → nsec_chain s zone zone_name types groups db ≡ (t, ok chain)
      → count (is_of zone.id (codes "NSEC")) t.records
        ≡ count (is_of zone.id (codes "NSEC")) db.records + chain.1
  unfolding nsec_chain
  nsec_chain-count zone_name types groups db t chain h =
      let (all, a, e1, h1) = go_on-eq-ok _ _ h in
      let counted = publish_nsec-count zone_name types _ groups all db a e1 in
      chain_end (is_of zone.id (codes "NSEC")) _ db a t all chain counted h1

  nsec3_chain-count :
      (zone_name : Text) (types : TypesByName) (groups : Groups) (db t : Db) (chain : Groups × ℕ)
      → nsec3_chain s zone zone_name types groups db ≡ (t, ok chain)
      → count (is_of zone.id (codes "NSEC3")) t.records
        ≡ count (is_of zone.id (codes "NSEC3")) db.records + chain.1
  unfolding nsec3_chain text_eq
  nsec3_chain-count zone_name types groups db t chain h =
      let (raw_hex, a, e1, h1) = go_on-eq-ok _ _ h in
      let (id, b, e2, h2) = go_on-eq-ok _ _ h1 in
      let (hashed, c, e3, h3) = go_on-eq-ok _ _ h2 in
      let (all, d, e4, h4) = go_on-eq-ok _ _ h3 in
      let counted = publish_nsec3-count _ _ groups all c d e4 in
      let whole = chain_end (is_of zone.id (codes "NSEC3")) _ c d t all chain counted h4 in
      let same_c : c ≡ b = ap (λ x. x.0) (sym e3) in
      let same_a : a ≡ db = ap (λ x. x.0) (sym e1) in
      let put =
        insert_record-eq-ok zone.id (codes "@") (codes "NSEC3PARAM") (some zone.default_ttl)
          (("raw_hex", text raw_hex) ∷ []) a b id e2 in
      let none_more =
        count-with_record zone.id (codes "NSEC3") (codes "@") (codes "NSEC3PARAM")
          (some zone.default_ttl) (("raw_hex", text raw_hex) ∷ []) a in
      whole ∙ rw (same_c, put, none_more, same_a) (omega arith)

  pub chain_for-count :
      (nsec3 : Bool) (zone_name : Text) (types : TypesByName) (groups : Groups) (db t : Db)
      (chain : Groups × ℕ)
      → chain_for s zone nsec3 zone_name types groups db ≡ (t, ok chain)
      → count (is_of zone.id (denial_type nsec3)) t.records
        ≡ count (is_of zone.id (denial_type nsec3)) db.records + chain.1
  unfolding chain_for
  chain_for-count true = nsec3_chain-count
  chain_for-count false = nsec_chain-count
