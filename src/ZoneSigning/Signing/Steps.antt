-- ===== src/ZoneSigning/Signing/Steps.antt =====
-- What every step of `sign_zone` keeps to, whatever it raises: a relation between the databases before
-- and after that each of its statements keeps to.
use nova_dns.Prelude.{
  ℕ, ◌≡◌, Bool, true, false, none, some, Option, List, [], ◌∷◌, Result, inl, inr, Option-cases,
  ◌++◌,
}
use nova_dns.Text.{Text}
use nova_dns.Wire.Types.{codes}
use nova_dns.Wire.Name.{Bytes}
use nova_dns.Wire.Rdata.{Value}
use nova_dns.Run.{Run, go_on, Steps, lift-Steps, read-Steps, bind-Steps}
use nova_dns.Db.{Db, Zone, KeyRow}
use nova_dns.Db.Statements.{zone_of, with_record, insert_record}
use nova_dns.Dnssec.KeyTag.{Key}
use nova_dns.ZoneSigning.Groups.{Groups, TypesByName, Item}
use nova_dns.ZoneSigning.Signing.{
  Signer, insert_key, new_key, key_or_new, get_or_create_key, publish_nsec, publish_nsec3,
  nsec_chain, nsec3_chain, chain_for, sign_rdatas, sign_items, sign_groups,
}

module _ (s : Signer) (zone : Zone) (R : Db → Db → Type 0) (same : (db : Db) → R db db)
    (trans : (a b c : Db) → R a b → R b c → R a c) where
  -- the relation allows a new record of the type, in a zone that is there
  abbrev pub Puts : Text → Type 0
  Puts rtype =
      (z : Zone) (name : Text) (ttl : Option ℕ) (v : Value) (db : Db)
      → zone_of zone.id db ≡ some z
      → R db (with_record zone.id name rtype ttl v none db)

  insert_record-R :
      (rtype : Text) (name : Text) (ttl : Option ℕ) (v : Value) (db : Db)
      → Puts rtype
      → R db (insert_record zone.id name rtype ttl v none db).0
  unfolding insert_record
  insert_record-R rtype name ttl v db puts = elim (Option-cases (zone_of zone.id db)) [
    | inl e ↦ rw (e, insert_record) (same db)
    | inr (z, e) ↦ rw (e, insert_record) (puts z name ttl v db e)
  ]

  pub insert_record-Steps :
      (rtype : Text) (name : Text) (ttl : Option ℕ) (v : Value)
      → Puts rtype
      → Steps R (insert_record zone.id name rtype ttl v none)
  insert_record-Steps rtype name ttl v puts = record {
    keeps = λ db. insert_record-R rtype name ttl v db puts;
  }

  -- after a step without effect
  pub then_steps :
      {A B : Type 0} (r : Result A) (next : A → Run Db B)
      → ((a : A) → Steps R (next a))
      → Steps R (λ db. (go_on next (db, r)))
  then_steps r next k = bind-Steps R same trans _ next (lift-Steps R same trans r) k

  module _ (puts : Puts (codes "NSEC")) where
    publish_nsec-Steps :
        (zone_name : Text) (types : TypesByName) (pairs : List (Text × Text)) (groups : Groups)
        → Steps R (publish_nsec s zone zone_name types pairs groups)
    unfolding publish_nsec
    publish_nsec-Steps zone_name types [] groups = lift-Steps R same trans _
    publish_nsec-Steps zone_name types ((name, next) ∷ rest) groups = then_steps _ _ λ rdata.
        bind-Steps R same trans _ _ (insert_record-Steps (codes "NSEC") _ _ _ puts) λ id.
          bind-Steps R same trans _ _ (read-Steps R same trans _)
            λ row. publish_nsec-Steps zone_name types rest _

    nsec_chain-Steps :
        (zone_name : Text) (types : TypesByName) (groups : Groups)
        → Steps R (nsec_chain s zone zone_name types groups)
    unfolding nsec_chain
    nsec_chain-Steps zone_name types groups =
        bind-Steps R same trans _ _ (publish_nsec-Steps zone_name types _ groups)
          λ all. lift-Steps R same trans _

  module _ (puts : Puts (codes "NSEC3")) where
    publish_nsec3-Steps :
        (types : TypesByName) (pairs : List ((Text × Text) × (Text × Text))) (groups : Groups)
        → Steps R (publish_nsec3 s zone types pairs groups)
    unfolding publish_nsec3
    publish_nsec3-Steps types [] groups = lift-Steps R same trans _
    publish_nsec3-Steps types (((name, hash), (next, next_hash)) ∷ rest) groups =
        then_steps _ _ λ rdata.
          bind-Steps R same trans _ _ (insert_record-Steps (codes "NSEC3") _ _ _ puts) λ id.
            bind-Steps R same trans _ _ (read-Steps R same trans _)
              λ row. publish_nsec3-Steps types rest _

    nsec3_chain-Steps :
        Puts (codes "NSEC3PARAM")
        → (zone_name : Text) (types : TypesByName) (groups : Groups)
        → Steps R (nsec3_chain s zone zone_name types groups)
    unfolding nsec3_chain
    nsec3_chain-Steps params zone_name types groups = then_steps _ _ λ raw_hex.
        bind-Steps R same trans _ _ (insert_record-Steps (codes "NSEC3PARAM") _ _ _ params) λ id.
          then_steps _ _ λ hashed.
            bind-Steps R same trans _ _ (publish_nsec3-Steps _ _ groups)
              λ all. lift-Steps R same trans _

  pub chain_for-Steps :
      Puts (codes "NSEC")
      → Puts (codes "NSEC3")
      → Puts (codes "NSEC3PARAM")
      → (nsec3 : Bool) (zone_name : Text) (types : TypesByName) (groups : Groups)
      → Steps R (chain_for s zone nsec3 zone_name types groups)
  unfolding chain_for
  chain_for-Steps plain hashed params true = nsec3_chain-Steps hashed params
  chain_for-Steps plain hashed params false = nsec_chain-Steps plain

  module _ (puts : Puts (codes "RRSIG")) (key : KeyRow) (zone_name : Text) where
    sign_rdatas-Steps :
        (name rtype : Text) (ttl : ℕ) (rdatas : List Bytes)
        → Steps R (sign_rdatas s zone key zone_name name rtype ttl rdatas)
    unfolding sign_rdatas
    sign_rdatas-Steps name rtype ttl [] = lift-Steps R same trans _
    sign_rdatas-Steps name rtype ttl (rdata ∷ rdatas) = then_steps _ _ λ rrsig.
        bind-Steps R same trans _ _ (insert_record-Steps (codes "RRSIG") _ _ _ puts)
          λ id. lift-Steps R same trans _

    sign_items-Steps :
        (name rtype : Text) (items : List Item)
        → Steps R (sign_items s zone key zone_name name rtype items)
    unfolding sign_items
    sign_items-Steps name rtype [] = lift-Steps R same trans _
    sign_items-Steps name rtype (item ∷ items) = then_steps _ _ (sign_rdatas-Steps name rtype _)

    pub sign_groups-Steps :
        (groups : Groups) (n : ℕ) → Steps R (sign_groups s zone key zone_name groups n)
    unfolding sign_groups
    sign_groups-Steps [] n = lift-Steps R same trans _
    sign_groups-Steps (((name, rtype), rows) ∷ groups) n =
        bind-Steps R same trans _ _ (sign_items-Steps name rtype _)
          λ one. sign_groups-Steps groups _

  -- the relation allows a new key
  abbrev pub Keys : Type 0
  Keys =
      (k : KeyRow) (n : ℕ) (db : Db)
      → R db (record db { dnssec_keys = db.dnssec_keys ++ k ∷ []; next_key_id = n })

  insert_key-R :
      Keys → (id : ℕ) (key : Key) (ds : Text) (db : Db) → R db (insert_key id key ds db).0
  unfolding insert_key
  insert_key-R puts id key ds db = elim (Option-cases (zone_of id db)) [
    | inl e ↦ rw (e, insert_key) (same db)
    | inr (z, e) ↦ rw (e, insert_key) (puts _ _ db)
  ]

  key_or_new-Steps : Keys → (found : Option KeyRow) → Steps R (key_or_new s zone found)
  unfolding key_or_new new_key
  key_or_new-Steps puts (some row) = lift-Steps R same trans _
  key_or_new-Steps puts none =
      then_steps _ _ λ key. then_steps _ _ λ ds. record { keeps = insert_key-R puts zone.id key ds }

  pub get_or_create_key-Steps : Keys → Steps R (get_or_create_key s zone)
  unfolding get_or_create_key
  get_or_create_key-Steps puts =
      bind-Steps R same trans _ _ (read-Steps R same trans _) (key_or_new-Steps puts)
