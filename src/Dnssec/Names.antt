-- ===== src/Dnssec/Names.antt =====
-- `canonical_key`, `_count_labels` and `nsec3_hash` of app/dnscore/dnssec.py.
use mathlib.Core.List.{reverse}
use nova_dns.Prelude.{
  ℕ, zero, suc, ◌+◌, Option, List, [], ◌∷◌, ◌++◌, if◌then◌else◌, Result, ok, ◌>>=◌,
}
use nova_dns.Text.{Text, text_eq, fold_name, rstrip_dot, split_dot, split_from, lower}
use nova_dns.Wire.Name.{Bytes, encode_name}
use nova_dns.Wire.Bytes.{from_hex}
use nova_dns.Dnssec.Base32.{base32hex_encode}

-- labels right to left, in lower case; () for the root
unfoldable pub canonical_key : Text → List Text
unfolding fold_name text_eq split_from
canonical_key fqdn =
    let name = fold_name fqdn in if text_eq name [] then [] else reverse (split_dot name)

count_set : List Text → ℕ
unfolding text_eq
count_set [] = 0
count_set (l ∷ ls) = (if text_eq l [] then 0 else 1) + count_set ls

unfoldable pub count_labels : Text → ℕ
unfolding count_set rstrip_dot text_eq split_from
count_labels fqdn =
    let name = rstrip_dot fqdn in if text_eq name [] then 0 else count_set (split_dot name)

-- bytes.fromhex(salt_hex) if salt_hex else b""
unfoldable pub salt_bytes : Text → Result Bytes
unfolding text_eq from_hex
salt_bytes salt_hex = if text_eq salt_hex [] then ok [] else from_hex salt_hex

-- H(… H(H(x || salt) || salt) …), the rounds after the first
rounds : (Bytes → Bytes) → Bytes → ℕ → Bytes → Bytes
rounds sha1 salt zero digest = digest
rounds sha1 salt (suc n) digest = rounds sha1 salt n (sha1 (digest ++ salt))

unfoldable pub nsec3_hash : (Bytes → Bytes) → (Text → Option Bytes) → Text → Text → ℕ → Result Text
unfolding rounds salt_bytes encode_name lower base32hex_encode
nsec3_hash sha1 idna owner_fqdn salt_hex iterations = do
  salt ← salt_bytes salt_hex
  x ← encode_name idna (lower owner_fqdn)
  ok (base32hex_encode (rounds sha1 salt iterations (sha1 (x ++ salt))))
