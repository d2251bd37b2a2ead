-- ===== src/Wire/Rdata/Decode.antt =====
-- `decode_rdata` of app/dnscore/wire.py.
pub mod Endings
use nova_dns.Prelude.{
  ℕ, zero, suc, ◌+◌, ◌-◌, ◌*◌, Bool, true, false, ◌&&◌, Option, none, some, List, [], ◌∷◌, ◌++◌,
  String, ltb, leb, ◌==◌, if◌then◌else◌, length, drop, take, Result, ok, err, ◌>>=◌, ◌>>◌, guard,
  or_raise, value_error, struct_error, unicode_error, out_of_fuel,
}
use package.text.Mathlib.Text.{◌==◌ as str_eq}
use nova_dns.Prelude.Int.{pos}
use nova_dns.Dict
use nova_dns.Text.{Text, is_ascii}
use nova_dns.Wire.Name.{Bytes, slice, decode_name, decode_ascii}
use nova_dns.Wire.Bytes.{unpack8, unpack16, unpack32, byte_at, hex}
use nova_dns.Wire.Rdata.{
  Field, num, text, Value, Codec, Kind, a, aaaa, target, mx, txt, soa, srv, caa, naptr, tlsa, sshfp,
  ds, https, opaque, kind_of,
}

-- msg[start:end]
abbrev pub part : Bytes → ℕ → ℕ → Bytes
part msg start end = slice msg start (end - start)

abbrev nat_field : ℕ → Field
nat_field n = num (pos n)

-- b.decode("ascii")
strict_ascii : Bytes → Result Text
unfolding is_ascii
strict_ascii b = if is_ascii b then ok b else err unicode_error

-- `read_str`: a text behind its length, and the offset behind it
read_str : Bytes → ℕ → Result (Text × ℕ)
unfolding decode_ascii
read_str msg p = do n ← byte_at msg p; ok (decode_ascii (slice msg (p + 1) n), p + 1 + n)

-- ",".join(parts)
join_comma : List Text → Text
join_comma [] = []
join_comma (w ∷ []) = w
join_comma (w ∷ v ∷ ws) = w ++ 44 ∷ join_comma (v ∷ ws)

-- the loop over the alpn names; each round reads one byte at least
alpn_names : ℕ → Bytes → ℕ → Result (List Text)
unfolding decode_ascii
alpn_names zero pval q = err out_of_fuel
alpn_names (suc f) pval q =
    let read = (do
      n ← byte_at pval q
      rest ← alpn_names f pval (q + 1 + n)
      ok (decode_ascii (slice pval (q + 1) n) ∷ rest)) in
    if ltb q (length pval) then read else ok []

-- the addresses of a hint, of `size` bytes each; fuel of its length is enough
hint_texts : ℕ → (Bytes → Option Text) → ℕ → Bytes → Result (List Text)
hint_texts zero text_of size b = ok []
hint_texts (suc f) text_of size [] = ok []
hint_texts (suc f) text_of size (c ∷ b) = do
  t ← or_raise value_error (text_of (take size (c ∷ b)))
  rest ← hint_texts f text_of size (drop size (c ∷ b))
  ok (t ∷ rest)

-- struct.unpack("!H", pval): the two bytes, and no more
exactly_16 : Bytes → Result ℕ
unfolding unpack16
exactly_16 pval = if length pval == 2 then unpack16 pval 0 else err struct_error

-- result[key] = ",".join(parts)
set_texts : String → List Text → Value → Value
unfolding join_comma Dict.put
set_texts key parts v = Dict.put str_eq key (text (join_comma parts)) v

-- the loop of TXT over the character strings
txt_loop : (Bytes → Text) → ℕ → Bytes → ℕ → ℕ → Result Text
txt_loop utf8_replace zero msg p end = err out_of_fuel
txt_loop utf8_replace (suc f) msg p end =
    let read = (do
      n ← byte_at msg p
      rest ← txt_loop utf8_replace f msg (p + 1 + n) end
      ok (utf8_replace (slice msg (p + 1) n) ++ rest)) in
    if ltb p end then read else ok []

module _ (k : Codec) where
  -- what one SvcParam adds to the value
  svc_param : ℕ → Bytes → Value → Result Value
  unfolding set_texts alpn_names hint_texts exactly_16 Dict.put
  svc_param key pval v =
      if key == 1
      then (do names ← alpn_names (suc (length pval)) pval 0; ok (set_texts "alpn" names v))
      else if key == 3
      then (do n ← exactly_16 pval; ok (Dict.put str_eq "port" (nat_field n) v))
      else if key == 4
      then (do ips ← hint_texts (length pval) k.v4_text 4 pval; ok (set_texts "ipv4hint" ips v))
      else if key == 6
      then (do ips ← hint_texts (length pval) k.v6_text 16 pval; ok (set_texts "ipv6hint" ips v))
      else ok v

  svc_loop : ℕ → Bytes → ℕ → ℕ → Value → Result Value
  unfolding svc_param unpack16
  svc_loop zero msg p end v = err out_of_fuel
  svc_loop (suc f) msg p end v =
      let next = (do
        key ← unpack16 msg p
        n ← unpack16 msg (p + 2)
        v' ← svc_param key (slice msg (p + 4) n) v
        svc_loop f msg (p + 4 + n) end v') in
      if ltb p end then next else ok v

  decode_soa : Bytes → ℕ → Result Value
  unfolding decode_name unpack32
  decode_soa msg o = do
    (mname, p) ← decode_name msg o
    (rname, q) ← decode_name msg p
    serial ← unpack32 msg q
    refresh ← unpack32 msg (q + 4)
    retry ← unpack32 msg (q + 8)
    expire ← unpack32 msg (q + 12)
    minimum ← unpack32 msg (q + 16)
    ok (
        ("mname", text mname)
        ∷ ("rname", text rname)
        ∷ ("serial", nat_field serial)
        ∷ ("refresh", nat_field refresh)
        ∷ ("retry", nat_field retry)
        ∷ ("expire", nat_field expire)
        ∷ ("minimum", nat_field minimum)
        ∷ [])

  decode_srv : Bytes → ℕ → Result Value
  unfolding decode_name unpack16
  decode_srv msg o = do
    priority ← unpack16 msg o
    weight ← unpack16 msg (o + 2)
    port ← unpack16 msg (o + 4)
    (name, _) ← decode_name msg (o + 6)
    ok (
        ("priority", nat_field priority)
        ∷ ("weight", nat_field weight)
        ∷ ("port", nat_field port)
        ∷ ("target", text name)
        ∷ [])

  decode_caa : Bytes → ℕ → ℕ → Result Value
  unfolding strict_ascii
  decode_caa msg o end = do
    flags ← byte_at msg o
    n ← byte_at msg (o + 1)
    tag ← strict_ascii (slice msg (o + 2) n)
    value ← strict_ascii (part msg (o + 2 + n) end)
    ok (("flags", nat_field flags) ∷ ("tag", text tag) ∷ ("value", text value) ∷ [])

  decode_naptr : Bytes → ℕ → Result Value
  unfolding read_str decode_name unpack16
  decode_naptr msg o = do
    order ← unpack16 msg o
    preference ← unpack16 msg (o + 2)
    (flags, p) ← read_str msg (o + 4)
    (service, q) ← read_str msg p
    (regexp, r) ← read_str msg q
    (replacement, _) ← decode_name msg r
    ok (
        ("order", nat_field order)
        ∷ ("preference", nat_field preference)
        ∷ ("flags", text flags)
        ∷ ("service", text service)
        ∷ ("regexp", text regexp)
        ∷ ("replacement", text replacement)
        ∷ [])

  decode_tlsa : Bytes → ℕ → ℕ → Result Value
  unfolding hex
  decode_tlsa msg o end = do
    usage ← byte_at msg o
    selector ← byte_at msg (o + 1)
    matching_type ← byte_at msg (o + 2)
    ok (
        ("usage", nat_field usage)
        ∷ ("selector", nat_field selector)
        ∷ ("matching_type", nat_field matching_type)
        ∷ ("cert_data", text (hex (part msg (o + 3) end)))
        ∷ [])

  decode_sshfp : Bytes → ℕ → ℕ → Result Value
  unfolding hex
  decode_sshfp msg o end = do
    algorithm ← byte_at msg o
    fp_type ← byte_at msg (o + 1)
    ok (
        ("algorithm", nat_field algorithm)
        ∷ ("fp_type", nat_field fp_type)
        ∷ ("fingerprint", text (hex (part msg (o + 2) end)))
        ∷ [])

  decode_ds : Bytes → ℕ → ℕ → Result Value
  unfolding hex unpack16 unpack8
  decode_ds msg o end = do
    key_tag ← unpack16 msg o
    algorithm ← unpack8 msg (o + 2)
    digest_type ← unpack8 msg (o + 3)
    ok (
        ("key_tag", nat_field key_tag)
        ∷ ("algorithm", nat_field algorithm)
        ∷ ("digest_type", nat_field digest_type)
        ∷ ("digest", text (hex (part msg (o + 4) end)))
        ∷ [])

  decode_https : Bytes → ℕ → ℕ → ℕ → Result Value
  unfolding svc_loop decode_name unpack16
  decode_https msg o rdlength end = do
    priority ← unpack16 msg o
    (name, p) ← decode_name msg (o + 2)
    svc_loop (suc rdlength) msg p end
        (("priority", nat_field priority) ∷ ("target", text name) ∷ [])

  -- ipaddress of a slice: the text, or a ValueError
  address_of : (Bytes → Option Text) → Bytes → Result Value
  address_of text_of b = do t ← or_raise value_error (text_of b); ok (("address", text t) ∷ [])

  decode_kind : Kind → Bytes → ℕ → ℕ → Result Value
  unfolding address_of decode_name unpack16 txt_loop decode_soa decode_srv decode_caa decode_naptr
      decode_tlsa decode_sshfp decode_ds decode_https hex
  decode_kind a msg o rdlength = address_of k.v4_text (part msg o (o + rdlength))
  decode_kind aaaa msg o rdlength = address_of k.v6_text (part msg o (o + rdlength))
  decode_kind target msg o rdlength = do
    (name, _) ← decode_name msg o
    ok (("target", text name) ∷ [])
  decode_kind mx msg o rdlength = do
    priority ← unpack16 msg o
    (name, _) ← decode_name msg (o + 2)
    ok (("priority", nat_field priority) ∷ ("target", text name) ∷ [])
  decode_kind txt msg o rdlength = do
    t ← txt_loop k.utf8_replace (suc rdlength) msg o (o + rdlength)
    ok (("text", text t) ∷ [])
  decode_kind soa msg o rdlength = decode_soa msg o
  decode_kind srv msg o rdlength = decode_srv msg o
  decode_kind caa msg o rdlength = decode_caa msg o (o + rdlength)
  decode_kind naptr msg o rdlength = decode_naptr msg o
  decode_kind tlsa msg o rdlength = decode_tlsa msg o (o + rdlength)
  decode_kind sshfp msg o rdlength = decode_sshfp msg o (o + rdlength)
  decode_kind ds msg o rdlength = decode_ds msg o (o + rdlength)
  decode_kind https msg o rdlength = decode_https msg o rdlength (o + rdlength)
  decode_kind opaque msg o rdlength = ok (("raw_hex", text (hex (part msg o (o + rdlength)))) ∷ [])

  unfoldable pub decode_rdata : Text → Bytes → ℕ → ℕ → Result Value
  unfolding decode_kind kind_of
  decode_rdata rtype msg o rdlength = decode_kind (kind_of rtype) msg o rdlength
