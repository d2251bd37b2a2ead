-- ===== src/Wire/Rdata/Encode.antt =====
-- `encode_rdata` of app/dnscore/wire.py.
use nova_dns.Prelude.{
  ℕ, zero, suc, Bool, true, false, ◌||◌, Option, none, some, List, [], ◌∷◌, ◌++◌, map, String, ltb,
  leb, ◌==◌, if◌then◌else◌, length, drop, take, Result, ok, err, ◌>>=◌, or_raise, value_error,
  dns_error, unicode_error,
}
use nova_dns.Prelude.Int.{ℤ, pos, negsuc}
use nova_dns.Sort.{sorted}
use nova_dns.Text.{Text, text_eq, is_ascii}
use nova_dns.Wire.Types.{codes}
use nova_dns.Wire.Name.{Bytes, encode_name, utf8, is_surrogate}
use nova_dns.Wire.Bytes.{pack8, pack16, pack32, from_hex}
use nova_dns.Wire.Rdata.{
  Field, num, text, null, Value, Codec, Kind, a, aaaa, target, mx, txt, soa, srv, caa, naptr, tlsa,
  sshfp, ds, https, opaque, kind_of, find, item, item_or, as_text, int_of_field, strip, lstrip,
  rstrip,
}

-- bytes([n]) and bytearray.append(n): ValueError past 255
byte_of : ℕ → Result Bytes
byte_of n = if ltb n 256 then ok (n ∷ []) else err value_error

-- s.encode("ascii")
ascii_bytes : Text → Result Bytes
unfolding is_ascii
ascii_bytes s = if is_ascii s then ok s else err unicode_error

has_surrogate : Text → Bool
unfolding is_surrogate
has_surrogate [] = false
has_surrogate (c ∷ s) = is_surrogate c || has_surrogate s

-- s.encode("utf-8")
utf8_bytes : Text → Result Bytes
unfolding has_surrogate utf8
utf8_bytes s = if has_surrogate s then err unicode_error else ok (utf8 s)

-- The bytes behind their length in one byte.
counted : Bytes → Result Bytes
unfolding byte_of
counted b = do n ← byte_of (length b); ok (n ++ b)

-- [text[i:i + 255] for i in range(0, len(text), 255)]; fuel of the text's length is enough
chunks : ℕ → Text → List Text
chunks zero s = []
chunks (suc f) [] = []
chunks (suc f) (c ∷ s) = take 255 (c ∷ s) ∷ chunks f (drop 255 (c ∷ s))

-- ... or [""]
chunks_or_empty : Text → List Text
unfolding chunks
chunks_or_empty [] = [] ∷ []
chunks_or_empty (c ∷ s) = chunks (length (c ∷ s)) (c ∷ s)

encode_chunks : List Text → Result Bytes
unfolding counted utf8_bytes
encode_chunks [] = ok []
encode_chunks (c ∷ cs) = do
  b ← utf8_bytes c
  first ← counted b
  rest ← encode_chunks cs
  ok (first ++ rest)

-- s.split(sep)
unfoldable pub split_at : ℕ → Text → Text → List Text
split_at sep word [] = word ∷ []
split_at sep word (c ∷ s) =
    let next = split_at sep [] s in
    let more = split_at sep (word ++ c ∷ []) s in if c == sep then word ∷ next else more

-- [p.strip() for p in s.split(",") if p.strip()]
unfoldable pub comma_parts : Text → List Text
unfolding split_at lstrip rstrip text_eq
comma_parts s = keep (map strip (split_at 44 [] s))
  where
    keep : List Text → List Text
    keep [] = []
    keep (p ∷ ps) = let rest = keep ps in if text_eq p [] then rest else p ∷ rest

-- bytes([len(x)]) + x.encode("ascii")
ascii_string : Text → Result Bytes
unfolding byte_of ascii_bytes
ascii_string x = do n ← byte_of (length x); b ← ascii_bytes x; ok (n ++ b)

-- b"".join(bytes([len(a)]) + a.encode("ascii") for a in names)
encode_strings : List Text → Result Bytes
unfolding ascii_string
encode_strings [] = ok []
encode_strings (s ∷ ss) = do first ← ascii_string s; rest ← encode_strings ss; ok (first ++ rest)

pack_all : (Text → Option Bytes) → List Text → Result Bytes
pack_all packed [] = ok []
pack_all packed (s ∷ ss) = do
  b ← or_raise value_error (packed s)
  rest ← pack_all packed ss
  ok (b ++ rest)

-- the truth value of `value.get(k)`
is_set : Option Field → Bool
is_set none = false
is_set (some null) = false
is_set (some (num (pos zero))) = false
is_set (some (num (pos (suc n)))) = true
is_set (some (num (negsuc n))) = true
is_set (some (text [])) = false
is_set (some (text (c ∷ s))) = true

-- value.get(k) not in (None, "")
is_given : Option Field → Bool
is_given none = false
is_given (some null) = false
is_given (some (num n)) = true
is_given (some (text [])) = false
is_given (some (text (c ∷ s))) = true

abbrev Param : Type 0
Param = ℕ × Bytes

-- A SvcParam, if its field is given: `test` says so, and `pack` makes its bytes.
param : ℕ → Bool → Result Bytes → Result (List Param)
param key given bytes = if given then (do b ← bytes; ok ((key, b) ∷ [])) else ok []

write_params : List Param → Result Bytes
write_params [] = ok []
write_params ((key, b) ∷ ps) = do
  k ← pack16 (pos key)
  n ← pack16 (pos (length b))
  rest ← write_params ps
  ok (k ++ (n ++ (b ++ rest)))

abbrev by_key : Param → Param → Bool
by_key (k, _) (j, _) = leb k j

int_item : String → Value → Result ℤ
unfolding item int_of_field
int_item k v = do f ← item k v; int_of_field f

int_item_or : String → ℤ → Value → Result ℤ
unfolding item_or int_of_field
int_item_or k default v = int_of_field (item_or k (num default) v)

text_item : String → Value → Result Text
unfolding item as_text
text_item k v = do f ← item k v; as_text f

text_item_or : String → Text → Value → Result Text
unfolding item_or as_text
text_item_or k default v = as_text (item_or k (text default) v)

string_item : String → Value → Result Bytes
unfolding text_item_or ascii_string
string_item k v = do x ← text_item_or k [] v; ascii_string x

module _ (k : Codec) where
  name_item : String → Value → Result Bytes
  unfolding text_item encode_name
  name_item key v = do t ← text_item key v; encode_name k.idna t

  -- the address families; `ipaddress` raises a ValueError on a bad text
  address : (Text → Option Bytes) → Value → Result Bytes
  unfolding text_item
  address packed v = do t ← text_item "address" v; or_raise value_error (packed t)

  encode_soa : Value → Result Bytes
  unfolding name_item int_item pack32
  encode_soa v = do
    mname ← name_item "mname" v
    rname ← name_item "rname" v
    serial ← int_item "serial" v
    refresh ← int_item "refresh" v
    retry ← int_item "retry" v
    expire ← int_item "expire" v
    minimum ← int_item "minimum" v
    b1 ← pack32 serial
    b2 ← pack32 refresh
    b3 ← pack32 retry
    b4 ← pack32 expire
    b5 ← pack32 minimum
    ok (mname ++ (rname ++ (b1 ++ (b2 ++ (b3 ++ (b4 ++ b5))))))

  encode_srv : Value → Result Bytes
  unfolding name_item int_item pack16
  encode_srv v = do
    priority ← int_item "priority" v
    weight ← int_item "weight" v
    port ← int_item "port" v
    b1 ← pack16 priority
    b2 ← pack16 weight
    b3 ← pack16 port
    name ← name_item "target" v
    ok (b1 ++ (b2 ++ (b3 ++ name)))

  encode_caa : Value → Result Bytes
  unfolding text_item int_item_or ascii_bytes pack8
  encode_caa v = do
    t ← text_item "tag" v
    tag ← ascii_bytes t
    flags ← int_item_or "flags" (pos 0) v
    b1 ← pack8 flags
    b2 ← pack8 (pos (length tag))
    s ← text_item "value" v
    rest ← ascii_bytes s
    ok (b1 ++ (b2 ++ (tag ++ rest)))

  encode_naptr : Value → Result Bytes
  unfolding int_item_or text_item_or pack16 string_item encode_name
  encode_naptr v = do
    order ← int_item_or "order" (pos 0) v
    preference ← int_item_or "preference" (pos 0) v
    b1 ← pack16 order
    b2 ← pack16 preference
    flags ← string_item "flags" v
    service ← string_item "service" v
    regexp ← string_item "regexp" v
    replacement ← text_item_or "replacement" (codes ".") v
    name ← encode_name k.idna replacement
    ok (b1 ++ (b2 ++ (flags ++ (service ++ (regexp ++ name)))))

  encode_tlsa : Value → Result Bytes
  unfolding int_item_or text_item_or pack8 from_hex
  encode_tlsa v = do
    t ← text_item_or "cert_data" [] v
    cert_data ← from_hex t
    usage ← int_item_or "usage" (pos 3) v
    selector ← int_item_or "selector" (pos 1) v
    matching_type ← int_item_or "matching_type" (pos 1) v
    b1 ← pack8 usage
    b2 ← pack8 selector
    b3 ← pack8 matching_type
    ok (b1 ++ (b2 ++ (b3 ++ cert_data)))

  encode_sshfp : Value → Result Bytes
  unfolding int_item_or text_item_or pack8 from_hex
  encode_sshfp v = do
    t ← text_item_or "fingerprint" [] v
    fingerprint ← from_hex t
    algorithm ← int_item_or "algorithm" (pos 4) v
    fp_type ← int_item_or "fp_type" (pos 2) v
    b1 ← pack8 algorithm
    b2 ← pack8 fp_type
    ok (b1 ++ (b2 ++ fingerprint))

  encode_ds : Value → Result Bytes
  unfolding int_item int_item_or text_item_or pack8 pack16 from_hex
  encode_ds v = do
    t ← text_item_or "digest" [] v
    digest ← from_hex t
    key_tag ← int_item "key_tag" v
    algorithm ← int_item_or "algorithm" (pos 13) v
    digest_type ← int_item_or "digest_type" (pos 2) v
    b1 ← pack16 key_tag
    b2 ← pack8 algorithm
    b3 ← pack8 digest_type
    ok (b1 ++ (b2 ++ (b3 ++ digest)))

  encode_https : Value → Result Bytes
  unfolding int_item_or text_item_or text_item int_item pack16 encode_name find is_set is_given
      param comma_parts encode_strings pack_all write_params sorted
  encode_https v = do
    priority ← int_item_or "priority" (pos 1) v
    b1 ← pack16 priority
    t ← text_item_or "target" (codes ".") v
    name ← encode_name k.idna t
    alpn ←
        param 1 (is_set (find "alpn" v)) (do s ← text_item "alpn" v; encode_strings (comma_parts s))
    port ← param 3 (is_given (find "port" v)) (do n ← int_item "port" v; pack16 n)
    ipv4hint ←
        param 4 (is_set (find "ipv4hint" v))
          (do s ← text_item "ipv4hint" v; pack_all k.v4_packed (comma_parts s))
    ipv6hint ←
        param 6 (is_set (find "ipv6hint" v))
          (do s ← text_item "ipv6hint" v; pack_all k.v6_packed (comma_parts s))
    params ← write_params (sorted by_key (alpn ++ (port ++ (ipv4hint ++ ipv6hint))))
    ok (b1 ++ (name ++ params))

  -- the types with no encoder of their own: the stored bytes, if the value has them
  raw_field : Option Field → Result Bytes
  raw_field none = err dns_error
  raw_field (some f) = do t ← (if is_set (some f) then as_text f else ok []); from_hex t

  encode_kind : Kind → Value → Result Bytes
  unfolding address name_item int_item pack16 text_item_or encode_chunks chunks_or_empty encode_soa
      encode_srv encode_caa encode_naptr encode_tlsa encode_sshfp encode_ds encode_https raw_field
      find
  encode_kind a v = address k.v4_packed v
  encode_kind aaaa v = address k.v6_packed v
  encode_kind target v = name_item "target" v
  encode_kind mx v = do
    priority ← int_item "priority" v
    b ← pack16 priority
    name ← name_item "target" v
    ok (b ++ name)
  encode_kind txt v = do t ← text_item_or "text" [] v; encode_chunks (chunks_or_empty t)
  encode_kind soa v = encode_soa v
  encode_kind srv v = encode_srv v
  encode_kind caa v = encode_caa v
  encode_kind naptr v = encode_naptr v
  encode_kind tlsa v = encode_tlsa v
  encode_kind sshfp v = encode_sshfp v
  encode_kind ds v = encode_ds v
  encode_kind https v = encode_https v
  encode_kind opaque v = raw_field (find "raw_hex" v)

  unfoldable pub encode_rdata : Text → Value → Result Bytes
  unfolding encode_kind kind_of
  encode_rdata rtype v = encode_kind (kind_of rtype) v
