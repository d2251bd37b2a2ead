-- ===== src/Dnssec/Signing.antt =====
-- `sign_rrset` of app/dnscore/dnssec.py. The signature of a key, r and s in 32 bytes each, is the
-- cryptography package's: a function of the key and the signed bytes.
use nova_dns.Prelude.{
  ℕ, zero, suc, ◌+◌, ◌-◌, Option, none, some, List, [], ◌∷◌, ◌++◌, length, Result, ok, ◌>>=◌,
  or_raise, key_error,
}
use nova_dns.Prelude.Int.{pos}
use nova_dns.Sort.{sorted}
use nova_dns.Text.{Text, lower}
use nova_dns.Text.Order.{text_le, text_lt}
use nova_dns.Wire.Types.{qtype, number_of}
use nova_dns.Wire.Name.{Bytes, encode_name}
use nova_dns.Wire.Bytes.{pack8, pack16, pack32, hex}
use nova_dns.Wire.Message.{qclass_in}
use nova_dns.Dnssec.KeyTag.{algorithm_ecdsap256sha256}
use nova_dns.Dnssec.Names.{count_labels}

-- `x or default` on an optional number: 0 counts as not given
unfoldable pub or_default : Option ℕ → ℕ → ℕ
or_default none d = d
or_default (some zero) d = d
or_default (some (suc n)) d = suc n

-- each RR of the set in wire form
canonical_rrs : Bytes → ℕ → ℕ → List Bytes → Result Bytes
unfolding pack16 pack32
canonical_rrs owner_wire type_covered ttl [] = ok []
canonical_rrs owner_wire type_covered ttl (rdata ∷ rdatas) = do
  b1 ← pack16 (pos type_covered)
  b2 ← pack16 (pos qclass_in)
  b3 ← pack32 (pos ttl)
  b4 ← pack16 (pos (length rdata))
  rest ← canonical_rrs owner_wire type_covered ttl rdatas
  ok (owner_wire ++ (b1 ++ (b2 ++ (b3 ++ (b4 ++ (rdata ++ rest))))))

pub record Signature : Type 0 where
  pub raw_hex : Text
  pub type_covered : Text
  pub expiration : ℕ
  pub inception : ℕ

module _ (sign : Text → Bytes → Bytes) (idna : Text → Option Bytes) where
  -- the RRSIG data up to the signature
  rrsig_prefix : ℕ → ℕ → ℕ → ℕ → ℕ → ℕ → Bytes → Result Bytes
  unfolding pack8 pack16 pack32
  rrsig_prefix type_covered labels ttl expiration inception key_tag signer = do
    b1 ← pack16 (pos type_covered)
    b2 ← pack8 (pos algorithm_ecdsap256sha256)
    b3 ← pack8 (pos labels)
    b4 ← pack32 (pos ttl)
    b5 ← pack32 (pos expiration)
    b6 ← pack32 (pos inception)
    b7 ← pack16 (pos key_tag)
    ok (b1 ++ (b2 ++ (b3 ++ (b4 ++ (b5 ++ (b6 ++ (b7 ++ signer)))))))

  -- `now` is in seconds
  unfoldable pub sign_rrset :
      ℕ → Text → ℕ → Text → Text → Text → ℕ → List Bytes → Option ℕ → Option ℕ → Result Signature
  unfolding or_default canonical_rrs rrsig_prefix encode_name lower count_labels number_of sorted
      text_lt hex
  sign_rrset now private_key_pem key_tag zone_name owner_fqdn rtype ttl rdatas inception
        expiration =
      do
        let start = or_default inception (now - 3600)
        let end = or_default expiration (now + 2592000)
        signer ← encode_name idna (lower zone_name)
        owner_wire ← encode_name idna (lower owner_fqdn)
        type_covered ← or_raise key_error (number_of qtype rtype)
        prefix ← rrsig_prefix type_covered (count_labels owner_fqdn) ttl end start key_tag signer
        rrs ← canonical_rrs owner_wire type_covered ttl (sorted text_le rdatas)
        let signature = sign private_key_pem (prefix ++ rrs)
        ok (record {
          raw_hex = hex (prefix ++ signature);
          type_covered = rtype;
          expiration = end;
          inception = start;
        })
