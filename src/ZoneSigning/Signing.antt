-- ===== src/ZoneSigning/Signing.antt =====
-- `get_or_create_key` and `sign_zone` of app/dnscore/zonesigning.py.
pub mod Steps
pub mod Frame
pub mod Kept
pub mod Counts
pub mod Outcome
use nova_dns.Prelude.{
  ℕ, zero, suc, ◌+◌, Bool, true, false, ◌&&◌, Option, none, some, List, [], ◌∷◌, ◌++◌, ltb, ◌==◌,
  if◌then◌else◌, length, or_raise, type_error, err, ok, integrity_error,
}
use nova_dns.Dict
use nova_dns.Sort.{sorted}
use nova_dns.Text.{Text, text_eq, rstrip_dot, lower}
use nova_dns.Text.Order.{text_lt, text_le, tuple_lt, tuple_le}
use nova_dns.Wire.Types.{codes}
use nova_dns.Wire.Name.{Bytes}
use nova_dns.Wire.Bytes.{hex}
use nova_dns.Wire.Rdata.{Codec, text}
use nova_dns.Run.{Run, ◌>>=◌, ◌>>◌, pure, lift, read}
use nova_dns.Db.{Db, Zone, Row, KeyRow, select, select_one}
use nova_dns.Db.Statements.{zone_of, records_of, key_of, insert_record, delete_records, update_zone}
use nova_dns.Dnssec.KeyTag.{Key, generate_key, ds_digest_for_zone}
use nova_dns.Dnssec.Names.{canonical_key}
use nova_dns.Dnssec.Bitmap.{build_nsec_rdata, build_nsec3_rdata}
use nova_dns.Dnssec.Signing.{sign_rrset, or_default}
use nova_dns.ZoneSigning.{owner_fqdn}
use nova_dns.ZoneSigning.Groups.{
  Item, found_item, pair_eq, Groups, TypesByName, is_denial_type, is_dnssec_type, add_type,
  add_type_of, grouped, types_of, soa_value, ring, types_at, names_of,
}
use nova_dns.ZoneSigning.Material.{dnskey_rdata_hex, nsec3param_hex, hash_names, present, rdatas_of}

-- What signing calls of Python's libraries: the codecs, the hashes, the ECDSA signature of a key over
-- bytes, the key pair that is drawn if the zone has none, and the clock in seconds.
pub record Signer : Type 0 where
  pub codec : Codec
  pub sha1 : Bytes → Bytes
  pub sha256 : Bytes → Bytes
  pub sign : Text → Bytes → Bytes
  pub private_pem : Text
  pub pubkey_bytes : Bytes
  pub now : ℕ

pub record Summary : Type 0 where
  pub key_tag : ℕ
  pub algorithm : ℕ
  pub rrsets_signed : ℕ
  pub nsec_records : ℕ
  pub nsec3 : Bool
  pub ds_digest_sha256 : Text

-- INSERT INTO dnssec_keys, and the row that is read back
insert_key : ℕ → Key → Text → Run Db KeyRow
unfolding zone_of
insert_key zone_id key ds db =
    let row : KeyRow = record {
      id = db.next_key_id;
      zone_id = zone_id;
      algorithm = key.algorithm;
      key_tag = key.key_tag;
      flags = key.flags;
      private_key_pem = key.private_key_pem;
      public_key_hex = key.public_key_hex;
      ds_digest_sha256 = ds;
    } in
    elim (zone_of zone_id db) [
      | none ↦ (db, err integrity_error)
      | some zone ↦ (
        record db { dnssec_keys = db.dnssec_keys ++ row ∷ []; next_key_id = db.next_key_id + 1 },
        ok row,
      )
    ]

abbrev pub signed : Bool → Zone → Zone
signed nsec3 z = record z {
  dnssec_enabled = true;
  nsec3_enabled = nsec3;
  soa_serial = z.soa_serial + 1;
}

-- the argument `use_nsec3`, or the zone's own setting
abbrev pub uses_nsec3 : Zone → Option Bool → Bool
uses_nsec3 zone use_nsec3 = elim use_nsec3 [ none ↦ zone.nsec3_enabled | some b ↦ b ]

module _ (s : Signer) (zone : Zone) where
  new_key : Run Db KeyRow
  unfolding insert_key generate_key ds_digest_for_zone
  new_key = do
    key ← lift (generate_key s.sha256 s.private_pem s.pubkey_bytes 257)
    ds ← lift (ds_digest_for_zone s.sha256 s.codec.idna zone.name key.dnskey_rdata_hex)
    insert_key zone.id key ds

  key_or_new : Option KeyRow → Run Db KeyRow
  unfolding new_key
  key_or_new none = new_key
  key_or_new (some row) = pure row

  unfoldable pub get_or_create_key : Run Db KeyRow
  unfolding key_of key_or_new
  get_or_create_key = read (key_of zone.id) >>= key_or_new

  abbrev insert : Text → Text → ℕ → Text → Run Db ℕ
  insert name rtype ttl raw_hex =
      insert_record zone.id name rtype (some ttl) (("raw_hex", text raw_hex) ∷ []) none

  -- the DNSKEY record at the apex, and the old signatures and denials deleted
  publish_dnskey : Text → Run Db (Unit {0})
  unfolding delete_records insert_record text_eq is_denial_type
  publish_dnskey raw_hex = do
    delete_records (λ r. r.zone_id == zone.id && text_eq r.rtype (codes "DNSKEY"))
    id ←
        insert (codes "@") (codes "DNSKEY")
          (if ltb zone.default_ttl 3600 then 3600 else zone.default_ttl) raw_hex
    delete_records (λ r. r.zone_id == zone.id && is_denial_type r.rtype)

  -- SELECT * FROM records WHERE zone_id=? AND rtype NOT IN (…)
  plain_records : Db → List Row
  unfolding select is_dnssec_type records_of
  plain_records db =
      select (λ r. if is_dnssec_type r.rtype then false else true) (records_of zone.id db)

  dnskey_row : Db → Option Item
  unfolding select_one text_eq found_item
  dnskey_row db =
      found_item
        (select_one (λ r. r.zone_id == zone.id && text_eq r.rtype (codes "DNSKEY")) db.records)

  -- the dictionary of RRsets, with the DNSKEY record and the SOA that the zones table holds
  first_groups : Text → Db → Groups
  unfolding grouped plain_records dnskey_row soa_value Dict.put pair_eq
  first_groups zone_name db =
      Dict.put pair_eq (codes "@", codes "SOA")
        (some (record { ttl = some zone.default_ttl; data_json = soa_value zone zone_name }) ∷ [])
        (Dict.put pair_eq (codes "@", codes "DNSKEY") (dnskey_row db ∷ [])
          (grouped (plain_records db) []))

  first_types : Db → TypesByName
  unfolding types_of plain_records add_type_of
  first_types db =
      add_type_of (codes "@") (codes "SOA")
        (add_type_of (codes "@") (codes "DNSKEY") (types_of (plain_records db) []))

  -- SELECT * FROM records WHERE id=?
  row_with : ℕ → Run Db (Option Item)
  unfolding select_one found_item
  row_with id = read (λ db. found_item (select_one (λ r. r.id == id) db.records))

  -- the NSEC chain: each name in order with the next one
  publish_nsec : Text → TypesByName → List (Text × Text) → Groups → Run Db Groups
  unfolding build_nsec_rdata owner_fqdn add_type types_at insert_record row_with Dict.put hex
  publish_nsec zone_name types [] groups = pure groups
  publish_nsec zone_name types ((name, next) ∷ rest) groups = do
    rdata ← lift (
        build_nsec_rdata s.codec.idna (owner_fqdn zone_name next)
          (add_type (codes "RRSIG") (add_type (codes "NSEC") (types_at name types))))
    id ← insert name (codes "NSEC") zone.default_ttl (hex rdata)
    row ← row_with id
    publish_nsec zone_name types rest (Dict.put pair_eq (name, codes "NSEC") (row ∷ []) groups)

  -- the NSEC3 chain: each name and its hash, in the order of the hashes, with the next one
  publish_nsec3 : TypesByName → List ((Text × Text) × (Text × Text)) → Groups → Run Db Groups
  unfolding build_nsec3_rdata add_type types_at insert_record row_with Dict.put hex lower text_eq
  publish_nsec3 types [] groups = pure groups
  publish_nsec3 types (((name, hash), (next, next_hash)) ∷ rest) groups = do
    let here = add_type (codes "RRSIG") (types_at name types)
    let listed = if text_eq name (codes "@") then add_type (codes "NSEC3PARAM") here else here
    rdata ← lift (build_nsec3_rdata next_hash listed zone.nsec3_salt zone.nsec3_iterations 0)
    id ←
        insert_record zone.id (lower hash) (codes "NSEC3") (some zone.default_ttl)
          (("raw_hex", text (hex rdata)) ∷ ("covers_name", text name) ∷ []) none
    row ← row_with id
    publish_nsec3 types rest (Dict.put pair_eq (lower hash, codes "NSEC3") (row ∷ []) groups)

  -- the groups with those of the chain, and the chain's length
  nsec_chain : Text → TypesByName → Groups → Run Db (Groups × ℕ)
  unfolding publish_nsec sorted canonical_key owner_fqdn tuple_lt names_of ring
  nsec_chain zone_name types groups = do
    let key = λ (n : Text). canonical_key (owner_fqdn zone_name n)
    let names_sorted = sorted (λ a b. tuple_le (key a) (key b)) (names_of types)
    all ← publish_nsec zone_name types (ring names_sorted) groups
    pure (all, length names_sorted)

  nsec3_chain : Text → TypesByName → Groups → Run Db (Groups × ℕ)
  unfolding publish_nsec3 nsec3param_hex sorted hash_names text_lt names_of ring add_type_of
      insert_record
  nsec3_chain zone_name types groups = do
    raw_hex ← lift (nsec3param_hex zone.nsec3_salt zone.nsec3_iterations)
    id ← insert (codes "@") (codes "NSEC3PARAM") zone.default_ttl raw_hex
    let types = add_type_of (codes "@") (codes "NSEC3PARAM") types
    hashed ← lift (
        hash_names s.sha1 s.codec.idna zone_name zone.nsec3_salt zone.nsec3_iterations
          (names_of types))
    let names_by_hash = sorted (λ a b. text_le a.1 b.1) hashed
    all ← publish_nsec3 types (ring names_by_hash) groups
    pure (all, length names_by_hash)

  -- An RRSIG over what could be encoded of the set; 1 if there is one. The name of an NSEC3 record is
  -- a hash and never "@", so that its full name is made like the others.
  sign_rdatas : KeyRow → Text → Text → Text → ℕ → List Bytes → Run Db ℕ
  unfolding sign_rrset owner_fqdn insert_record
  sign_rdatas key zone_name name rtype ttl [] = pure 0
  sign_rdatas key zone_name name rtype ttl (rdata ∷ rdatas) = do
    rrsig ← lift (
        sign_rrset s.sign s.codec.idna s.now key.private_key_pem key.key_tag zone_name
          (owner_fqdn zone_name name) rtype ttl (rdata ∷ rdatas) none none)
    id ←
        insert_record zone.id name (codes "RRSIG") (some ttl)
          (("raw_hex", text rrsig.raw_hex) ∷ ("type_covered", text rtype) ∷ []) none
    pure 1

  sign_items : KeyRow → Text → Text → Text → List Item → Run Db ℕ
  unfolding sign_rdatas rdatas_of or_default
  sign_items key zone_name name rtype [] = pure 0
  sign_items key zone_name name rtype (item ∷ items) = do
    rdatas ← lift (rdatas_of s.codec rtype (item ∷ items))
    sign_rdatas key zone_name name rtype (or_default item.ttl zone.default_ttl) rdatas

  -- `count` sets are signed before
  pub sign_groups : KeyRow → Text → Groups → ℕ → Run Db ℕ
  unfolding sign_items present
  sign_groups key zone_name [] count = pure count
  sign_groups key zone_name (((name, rtype), rows) ∷ groups) count = do
    one ← sign_items key zone_name name rtype (present rows)
    sign_groups key zone_name groups (count + one)

  pub chain_for : Bool → Text → TypesByName → Groups → Run Db (Groups × ℕ)
  unfolding nsec3_chain nsec_chain
  chain_for true = nsec3_chain
  chain_for false = nsec_chain

  -- the zone is marked, and what has been done is summed up
  pub finish : Bool → KeyRow → ℕ → ℕ → Run Db Summary
  unfolding update_zone
  finish nsec3 key denial_count signed_count = do
    update_zone (signed nsec3) zone.id
    pure (record {
      key_tag = key.key_tag;
      algorithm = key.algorithm;
      rrsets_signed = signed_count;
      nsec_records = denial_count;
      nsec3 = nsec3;
      ds_digest_sha256 = key.ds_digest_sha256;
    })

  pub sign_sets : Bool → KeyRow → Text → Groups × TypesByName → Run Db Summary
  unfolding chain_for sign_groups finish
  sign_sets nsec3 key zone_name (groups, types) = do
    chain ← chain_for nsec3 zone_name types groups
    signed_count ← sign_groups key zone_name chain.0 0
    finish nsec3 key chain.1 signed_count

  pub sign_records : Bool → KeyRow → Text → Run Db Summary
  unfolding first_groups first_types sign_sets
  sign_records nsec3 key zone_name = do
    sets ← read (λ db. (first_groups zone_name db, first_types db))
    sign_sets nsec3 key zone_name sets

  pub sign_with : Bool → KeyRow → Run Db Summary
  unfolding dnskey_rdata_hex publish_dnskey sign_records rstrip_dot
  sign_with nsec3 key = do
    raw_hex ← lift (dnskey_rdata_hex key)
    publish_dnskey raw_hex
    sign_records nsec3 key (rstrip_dot zone.name)

  unfoldable pub sign_zone : Option Bool → Run Db Summary
  unfolding get_or_create_key sign_with
  sign_zone use_nsec3 = do key ← get_or_create_key; sign_with (uses_nsec3 zone use_nsec3) key
