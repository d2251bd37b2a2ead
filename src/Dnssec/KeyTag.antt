-- ===== src/Dnssec/KeyTag.antt =====
-- `_dnskey_rdata`, `_key_tag`, `_ds_digest`, `ds_digest_for_zone` and `generate_key` of
-- app/dnscore/dnssec.py.
use nova_dns.Prelude.{
  ℕ, ◌+◌, ◌*◌, ◌/◌, ◌%◌, ◌<◌, ◌≡◌, Bool, true, not, Option, List, [], ◌∷◌, ◌++◌, arith,
  if◌then◌else◌, Result, ok, ◌>>=◌,
}
use nova_dns.Prelude.Int.{pos}
use nova_dns.Text.{Text, lower}
use nova_dns.Wire.Name.{Bytes, encode_name}
use nova_dns.Wire.Bytes.{pack8, pack16, hex, from_hex}

abbrev pub algorithm_ecdsap256sha256 : ℕ
algorithm_ecdsap256sha256 = 13

unfoldable pub dnskey_rdata : ℕ → Bytes → Result Bytes
unfolding pack16 pack8
dnskey_rdata flags pubkey_bytes = do
  b1 ← pack16 (pos flags)
  b2 ← pack8 (pos 3)
  b3 ← pack8 (pos algorithm_ecdsap256sha256)
  ok (b1 ++ (b2 ++ (b3 ++ pubkey_bytes)))

-- the loop: `even` is whether the index is
tag_total : Bool → ℕ → Bytes → ℕ
tag_total even total [] = total
tag_total even total (b ∷ bs) = tag_total (not even) (total + (if even then b * 256 else b)) bs

unfoldable pub key_tag : Bytes → ℕ
unfolding tag_total
key_tag rdata = let total = tag_total true 0 rdata in (total + total / 65536 % 65536) % 65536

-- the digests, over SHA-256
unfoldable pub ds_digest : (Bytes → Bytes) → Bytes → Bytes → Text
unfolding hex
ds_digest sha256 rdata owner_wire = hex (sha256 (owner_wire ++ rdata))

unfoldable pub ds_digest_for_zone :
    (Bytes → Bytes) → (Text → Option Bytes) → Text → Text → Result Text
unfolding lower encode_name from_hex hex
ds_digest_for_zone sha256 idna zone_name dnskey_rdata_hex = do
  owner_wire ← encode_name idna (lower zone_name)
  rdata ← from_hex dnskey_rdata_hex
  ok (hex (sha256 (owner_wire ++ rdata)))

pub record Key : Type 0 where
  pub private_key_pem : Text
  pub public_key_hex : Text
  pub key_tag : ℕ
  pub flags : ℕ
  pub algorithm : ℕ
  pub ds_digest_sha256 : Text
  pub dnskey_rdata_hex : Text

-- The key pair is the cryptography package's: its PEM text, and x and y in 32 bytes each.
unfoldable pub generate_key : (Bytes → Bytes) → Text → Bytes → ℕ → Result Key
unfolding dnskey_rdata key_tag ds_digest hex
generate_key sha256 private_pem pubkey_bytes flags = do
  rdata ← dnskey_rdata flags pubkey_bytes
  ok (record {
    private_key_pem = private_pem;
    public_key_hex = hex pubkey_bytes;
    key_tag = key_tag rdata;
    flags = flags;
    algorithm = algorithm_ecdsap256sha256;
    ds_digest_sha256 = ds_digest sha256 rdata (0 ∷ []);
    dnskey_rdata_hex = hex rdata;
  })

-- RFC 4034, Appendix B: the data as words of 16 bits, an odd last byte being a word's high half.
pub words : Bytes → List ℕ
words [] = []
words (b ∷ []) = b * 256 ∷ []
words (b ∷ c ∷ bs) = (b * 256 + c) ∷ words bs

pub sum : List ℕ → ℕ
sum [] = 0
sum (n ∷ ns) = n + sum ns

tag_total-words : (total : ℕ) (bs : Bytes) → tag_total true total bs ≡ total + sum (words bs)
unfolding tag_total words sum
tag_total-words total [] = omega arith
tag_total-words total (b ∷ []) = omega arith
tag_total-words total (b ∷ c ∷ bs) = omega (arith, tag_total-words (total + b * 256 + c) bs)

-- The key tag is the sum of the 16-bit words with the carry added in once, and fits 16 bits.
pub key_tag-words :
    (rdata : Bytes)
    → (key_tag rdata ≡ (sum (words rdata) + sum (words rdata) / 65536 % 65536) % 65536)
      × (key_tag rdata < 65536)
unfolding key_tag
key_tag-words rdata = (rw (tag_total-words 0 rdata) (omega arith), omega arith)
