-- ===== src/ZoneSigning/Signing/Frame.antt =====
-- `sign_zone` keeps to every relation that allows the statements of which it is made.
use nova_dns.Prelude.{ℕ, ◌≡◌, refl, Bool, true, not, ◌&&◌, Option, ◌==◌, arith}
use nova_dns.Text.{Text, text_eq, rstrip_dot}
use nova_dns.Wire.Types.{codes}
use nova_dns.Run.{Steps, lift-Steps, read-Steps, bind-Steps}
use nova_dns.Db.{Db, Zone, Row, KeyRow}
use nova_dns.Db.Statements.{delete_records, update_zone}
use nova_dns.ZoneSigning.Groups.{Groups, TypesByName, is_dnssec_type, is_denial_type}
use nova_dns.ZoneSigning.Signing.{
  Signer, sign_zone, sign_with, sign_records, sign_sets, finish, publish_dnskey, uses_nsec3, signed,
}
use nova_dns.ZoneSigning.Signing.Steps.{
  Puts, Keys, chain_for-Steps, sign_groups-Steps, get_or_create_key-Steps, insert_record-Steps,
  then_steps,
}

-- a row that signing the zone must not touch: of another zone, or of a type that signing does not make
unfoldable pub is_foreign : ℕ → Row → Bool
is_foreign zone_id r = not (r.zone_id == zone_id && is_dnssec_type r.rtype)

-- What a relation must allow.
pub record Allows (s : Signer) (zone : Zone) (R : Db → Db → Type 0) : Type 0 where
  pub same : (db : Db) → R db db
  pub trans : (a b c : Db) → R a b → R b c → R a c
  pub puts : (rtype : Text) → is_dnssec_type rtype ≡ true → Puts s zone R same trans rtype
  pub keys : Keys s zone R same trans
  pub deletes :
      (drop : Row → Bool)
      → ((r : Row) → is_foreign zone.id r ≡ true → not (drop r) ≡ true)
      → (db : Db) → R db (delete_records drop db).0
  pub marks : (nsec3 : Bool) (db : Db) → R db (update_zone (signed nsec3) zone.id db).0

module _ (s : Signer) (zone : Zone) (R : Db → Db → Type 0) (a : Allows s zone R) where
  open a use {same, trans, puts, keys, deletes, marks}

  publish_dnskey-Steps : (raw_hex : Text) → Steps R (publish_dnskey s zone raw_hex)
  unfolding publish_dnskey is_foreign is_dnssec_type text_eq
  publish_dnskey-Steps raw_hex =
      bind-Steps R same trans _ _ (record { keeps = deletes _ keeps_dnskey })
        λ done.
          bind-Steps R same trans _ _
            (insert_record-Steps s zone R same trans (codes "DNSKEY") _ _ _
              (puts (codes "DNSKEY") refl))
            λ id. record { keeps = deletes _ keeps_denials }
    where
      keeps_dnskey :
          (r : Row)
          → is_foreign zone.id r ≡ true
          → not (r.zone_id == zone.id && text_eq r.rtype (codes "DNSKEY")) ≡ true
      keeps_dnskey r h = ground arith

      keeps_denials :
          (r : Row)
          → is_foreign zone.id r ≡ true
          → not (r.zone_id == zone.id && is_denial_type r.rtype) ≡ true
      keeps_denials r h = ground arith

  finish-Steps :
      (nsec3 : Bool) (key : KeyRow) (denials n : ℕ) → Steps R (finish s zone nsec3 key denials n)
  unfolding finish
  finish-Steps nsec3 key denials n =
      bind-Steps R same trans _ _ (record { keeps = marks nsec3 }) λ done. lift-Steps R same trans _

  sign_sets-Steps :
      (nsec3 : Bool) (key : KeyRow) (zone_name : Text) (sets : Groups × TypesByName)
      → Steps R (sign_sets s zone nsec3 key zone_name sets)
  unfolding sign_sets is_dnssec_type text_eq
  sign_sets-Steps nsec3 key zone_name (groups, types) =
      bind-Steps R same trans _ _
        (chain_for-Steps s zone R same trans (puts _ refl) (puts _ refl) (puts _ refl) nsec3
          zone_name types groups)
        λ chain.
          bind-Steps R same trans _ _
            (sign_groups-Steps s zone R same trans (puts _ refl) key zone_name chain.0 0)
            λ n. finish-Steps nsec3 key chain.1 n

  sign_with-Steps : (nsec3 : Bool) (key : KeyRow) → Steps R (sign_with s zone nsec3 key)
  unfolding sign_with sign_records
  sign_with-Steps nsec3 key = then_steps s zone R same trans _ _ λ raw_hex.
      bind-Steps R same trans _ _ (publish_dnskey-Steps raw_hex) λ done.
        bind-Steps R same trans _ _ (read-Steps R same trans _)
          λ sets. sign_sets-Steps nsec3 key (rstrip_dot zone.name) sets

  pub sign_zone-Steps : (use_nsec3 : Option Bool) → Steps R (sign_zone s zone use_nsec3)
  unfolding sign_zone
  sign_zone-Steps use_nsec3 =
      bind-Steps R same trans _ _ (get_or_create_key-Steps s zone R same trans keys)
        λ key. sign_with-Steps (uses_nsec3 zone use_nsec3) key
