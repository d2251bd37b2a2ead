-- ===== src/ZoneSigning/Material.antt =====
-- What `sign_zone` of app/dnscore/zonesigning.py computes before it writes: the data of the DNSKEY
-- and NSEC3PARAM records, the hashed names, and the encoded records of a set.
use nova_dns.Prelude.{
  ℕ, Option, none, some, List, [], ◌∷◌, ◌++◌, length, Result, ok, err, dns_error, ◌>>=◌,
}
use nova_dns.Prelude.Int.{pos}
use nova_dns.Text.{Text}
use nova_dns.Wire.Name.{Bytes}
use nova_dns.Wire.Bytes.{pack8, pack16, hex, from_hex}
use nova_dns.Wire.Rdata.{Codec}
use nova_dns.Wire.Rdata.Encode.{encode_rdata}
use nova_dns.Db.{KeyRow}
use nova_dns.Dnssec.Names.{nsec3_hash, salt_bytes}
use nova_dns.ZoneSigning.{owner_fqdn}
use nova_dns.ZoneSigning.Groups.{Item}

unfoldable pub dnskey_rdata_hex : KeyRow → Result Text
unfolding pack16 pack8 from_hex hex
dnskey_rdata_hex key = do
  b1 ← pack16 (pos key.flags)
  b2 ← pack8 (pos 3)
  b3 ← pack8 (pos key.algorithm)
  public ← from_hex key.public_key_hex
  ok (hex (b1 ++ (b2 ++ (b3 ++ public))))

-- the NSEC3PARAM record's data, in hex
unfoldable pub nsec3param_hex : Text → ℕ → Result Text
unfolding salt_bytes pack8 pack16 hex
nsec3param_hex salt iterations = do
  bytes ← salt_bytes salt
  b1 ← pack8 (pos 1)
  b2 ← pack8 (pos 0)
  b3 ← pack16 (pos iterations)
  b4 ← pack8 (pos (length bytes))
  ok (hex (b1 ++ (b2 ++ (b3 ++ b4))) ++ salt)

-- each name with the hash of its full name
unfoldable pub hash_names :
    (Bytes → Bytes)
    → (Text → Option Bytes)
    → Text
    → Text
    → ℕ
    → List Text
    → Result (List (Text × Text))
unfolding nsec3_hash owner_fqdn
hash_names sha1 idna zone_name salt iterations [] = ok []
hash_names sha1 idna zone_name salt iterations (name ∷ names) = do
  hash ← nsec3_hash sha1 idna (owner_fqdn zone_name name) salt iterations
  rest ← hash_names sha1 idna zone_name salt iterations names
  ok ((name, hash) ∷ rest)

-- [r for r in rows if r is not None]
unfoldable pub present : List (Option Item) → List Item
present [] = []
present (none ∷ rows) = present rows
present (some item ∷ rows) = item ∷ present rows

-- `except wire.DNSError: continue`, which catches no other exception
keep_encoded : Result Bytes → Result (List Bytes) → Result (List Bytes)
keep_encoded (ok bytes) rest = rest >>= λ more. ok (bytes ∷ more)
keep_encoded (err dns_error) rest = rest
keep_encoded (err other) rest = err other

unfoldable pub rdatas_of : Codec → Text → List Item → Result (List Bytes)
unfolding keep_encoded encode_rdata
rdatas_of codec rtype [] = ok []
rdatas_of codec rtype (item ∷ items) =
    keep_encoded (encode_rdata codec rtype item.data_json) (rdatas_of codec rtype items)
