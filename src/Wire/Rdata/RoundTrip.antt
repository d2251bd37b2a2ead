-- ===== src/Wire/Rdata/RoundTrip.antt =====
-- The round trip of record data, `encode_rdata` and `decode_rdata` of app/dnscore/wire.py.
use nova_dns.Prelude.{
  ℕ, ◌+◌, ◌-◌, ◌<◌, ◌≡◌, refl, [], ◌∷◌, ◌++◌, arith, length, drop, drop-past, drop-advance,
  length-append, slice-drop, ok, ◌∙◌, ap,
}
use mathlib.Core.List.{append_assoc}
use nova_dns.Prelude.Int.{pos}
use nova_dns.Text.{Text}
use nova_dns.Wire.Name.{Bytes}
use nova_dns.Wire.Name.RoundTrip.{IsWireName, wire_form, encode_name-dotted, decode_name-drop}
use nova_dns.Wire.Bytes.{hex}
use nova_dns.Wire.Bytes.Laws.{
  be16, be32, pack8_lem, pack16_lem, pack32_lem, unpack8_lem, unpack16_lem, unpack32_lem, AllBytes,
  from_hex-hex,
}
use nova_dns.Wire.Rdata.{Field, num, text, Value, Codec, target, mx, soa, srv, ds, opaque, kind_of}
use nova_dns.Wire.Rdata.Encode.{encode_rdata}
use nova_dns.Wire.Rdata.Decode.{decode_rdata, part}

abbrev pub nat : ℕ → Field
nat n = num (pos n)

module _ (k : Codec) where
  -- The record data is encoded to bytes that decode to it wherever they stand.
  pub record RoundTrips (rtype : Text) (v : Value) : Type 0 where
    pub bytes : Bytes
    pub encodes : encode_rdata k rtype v ≡ ok bytes
    pub short : length bytes < 65536
    pub decodes :
        (msg rest : Bytes) (o : ℕ)
        → drop o msg ≡ bytes ++ rest
        → decode_rdata k rtype msg o (length bytes) ≡ ok v

  slice_part :
      (msg rest b : Bytes) (o end : ℕ)
      → drop o msg ≡ b ++ rest
      → o + length b ≡ end
      → part msg o end ≡ b
  slice_part msg rest b o end h e =
      let n : end - o ≡ length b = omega arith in rw n (slice-drop o msg b rest h)

  -- the types with no codec of their own: the bytes are kept as they are
  opaque_encodes :
      (rtype : Text) (b : Bytes)
      → kind_of rtype ≡ opaque
      → AllBytes b
      → encode_rdata k rtype (("raw_hex", text (hex b)) ∷ []) ≡ ok b
  unfolding encode_rdata hex
  opaque_encodes rtype [] kd h = rw kd
  opaque_encodes rtype (c ∷ b) kd h = rw kd (from_hex-hex (c ∷ b) h)

  pub RoundTrips-opaque :
      (rtype : Text) (b : Bytes)
      → kind_of rtype ≡ opaque
      → AllBytes b
      → length b < 65536
      → RoundTrips rtype (("raw_hex", text (hex b)) ∷ [])
  unfolding decode_rdata
  RoundTrips-opaque rtype b kd h short = record {
    bytes = b;
    encodes = opaque_encodes rtype b kd h;
    short = short;
    decodes = λ msg rest o e. rw (kd, slice_part msg rest b o (o + length b) e refl);
  }

  pub RoundTrips-target :
      (rtype name : Text)
      → kind_of rtype ≡ target
      → (n : IsWireName name) → length (wire_form n.labels) < 65536
      → RoundTrips rtype (("target", text name) ∷ [])
  unfolding encode_rdata decode_rdata
  RoundTrips-target rtype name kd n short = record {
    bytes = wire_form n.labels;
    encodes = rw (kd, encode_name-dotted k.idna name n);
    short = short;
    decodes = λ msg rest o e. rw (kd, decode_name-drop msg rest o name n e);
  }

  -- MX data, a priority within 16 bits and a name of plain labels, round-trips.
  pub RoundTrips-mx :
      (rtype name : Text) (priority : ℕ)
      → kind_of rtype ≡ mx
      → priority < 65536
      → (n : IsWireName name) → length (wire_form n.labels) < 65534
      → RoundTrips rtype (("priority", nat priority) ∷ ("target", text name) ∷ [])
  unfolding encode_rdata decode_rdata
  RoundTrips-mx rtype name priority kd fits n short = record {
    bytes = be16 priority ++ wire_form n.labels;
    encodes = rw (kd, pack16_lem priority fits, encode_name-dotted k.idna name n);
    short = omega arith;
    decodes = λ msg rest o e. rw (
      kd,
      unpack16_lem msg o priority _ e,
      decode_name-drop msg rest (o + 2) name n
          (drop-advance o (o + 2) msg (be16 priority) _ e refl),
    );
  }

  -- SRV data, three numbers within 16 bits and a name of plain labels, round-trips.
  pub RoundTrips-srv :
      (rtype name : Text) (priority weight port : ℕ)
      → kind_of rtype ≡ srv
      → priority < 65536
      → weight < 65536
      → port < 65536
      → (n : IsWireName name) → length (wire_form n.labels) < 65530
      → RoundTrips rtype (
          ("priority", nat priority)
          ∷ ("weight", nat weight)
          ∷ ("port", nat port)
          ∷ ("target", text name)
          ∷ [])
  unfolding encode_rdata decode_rdata
  RoundTrips-srv rtype name priority weight port kd h1 h2 h3 n short = record {
    bytes = be16 priority ++ (be16 weight ++ (be16 port ++ wire_form n.labels));
    encodes = rw (
      kd,
      pack16_lem priority h1,
      pack16_lem weight h2,
      pack16_lem port h3,
      encode_name-dotted k.idna name n,
    );
    short = omega arith;
    decodes = λ msg rest o e.
        let e2 = drop-advance o (o + 2) msg (be16 priority) _ e refl in
        let e4 = drop-advance (o + 2) (o + 4) msg (be16 weight) _ e2 (omega arith) in
        let e6 = drop-advance (o + 4) (o + 6) msg (be16 port) _ e4 (omega arith) in
        rw (
          kd,
          unpack16_lem msg o priority _ e,
          unpack16_lem msg (o + 2) weight _ e2,
          unpack16_lem msg (o + 4) port _ e4,
          decode_name-drop msg rest (o + 6) name n e6,
        );
  }

  -- SOA data, two names of plain labels and five numbers within 32 bits, round-trips.
  pub RoundTrips-soa :
      (rtype mname rname : Text) (serial refresh retry expire minimum : ℕ)
      → kind_of rtype ≡ soa
      → (m : IsWireName mname) (r : IsWireName rname) → serial < 4294967296
      → refresh < 4294967296
      → retry < 4294967296
      → expire < 4294967296
      → minimum < 4294967296
      → length (wire_form m.labels) + length (wire_form r.labels) < 65516
      → RoundTrips rtype (
          ("mname", text mname)
          ∷ ("rname", text rname)
          ∷ ("serial", nat serial)
          ∷ ("refresh", nat refresh)
          ∷ ("retry", nat retry)
          ∷ ("expire", nat expire)
          ∷ ("minimum", nat minimum)
          ∷ [])
  unfolding encode_rdata decode_rdata
  RoundTrips-soa rtype mname rname serial refresh retry expire minimum kd m r h1 h2 h3 h4 h5 short =
      let w1 = wire_form m.labels in
      let w2 = wire_form r.labels in
      let tail = be32 serial ++ (be32 refresh ++ (be32 retry ++ (be32 expire ++ be32 minimum))) in
      record {
        bytes = w1 ++ (w2 ++ tail);
        encodes = rw (
          kd,
          encode_name-dotted k.idna mname m,
          encode_name-dotted k.idna rname r,
          pack32_lem serial h1,
          pack32_lem refresh h2,
          pack32_lem retry h3,
          pack32_lem expire h4,
          pack32_lem minimum h5,
        );
        short = omega (arith, length-append w1 (w2 ++ tail), length-append w2 tail);
        decodes = λ msg rest o e.
            let e0 =
              e
              ∙ append_assoc w1 (w2 ++ tail) rest
              ∙ ap (λ t. w1 ++ t) (append_assoc w2 tail rest) in
            let p = o + length w1 in
            let e1 = drop-past o msg w1 _ e0 in
            let q = p + length w2 in
            let s1 = drop-past p msg w2 _ e1 in
            let s2 = drop-advance q (q + 4) msg (be32 serial) _ s1 refl in
            let s3 = drop-advance (q + 4) (q + 8) msg (be32 refresh) _ s2 (omega arith) in
            let s4 = drop-advance (q + 8) (q + 12) msg (be32 retry) _ s3 (omega arith) in
            let s5 = drop-advance (q + 12) (q + 16) msg (be32 expire) _ s4 (omega arith) in
            rw (
              kd,
              decode_name-drop msg _ o mname m e0,
              decode_name-drop msg _ p rname r e1,
              unpack32_lem msg q serial _ s1 h1,
              unpack32_lem msg (q + 4) refresh _ s2 h2,
              unpack32_lem msg (q + 8) retry _ s3 h3,
              unpack32_lem msg (q + 12) expire _ s4 h4,
              unpack32_lem msg (q + 16) minimum _ s5 h5,
            );
      }

  -- DS data, its numbers within their fields and a digest of any bytes, round-trips.
  pub RoundTrips-ds :
      (rtype : Text) (key_tag algorithm digest_type : ℕ) (digest : Bytes)
      → kind_of rtype ≡ ds
      → key_tag < 65536
      → algorithm < 256
      → digest_type < 256
      → AllBytes digest
      → length digest < 65532
      → RoundTrips rtype (
          ("key_tag", nat key_tag)
          ∷ ("algorithm", nat algorithm)
          ∷ ("digest_type", nat digest_type)
          ∷ ("digest", text (hex digest))
          ∷ [])
  unfolding encode_rdata decode_rdata
  RoundTrips-ds rtype key_tag algorithm digest_type digest kd h1 h2 h3 hb short = record {
    bytes = be16 key_tag ++ (algorithm ∷ digest_type ∷ digest);
    encodes = rw (
      kd,
      from_hex-hex digest hb,
      pack16_lem key_tag h1,
      pack8_lem algorithm h2,
      pack8_lem digest_type h3,
    );
    short = omega arith;
    decodes = λ msg rest o e.
        let e2 = drop-advance o (o + 2) msg (be16 key_tag) _ e refl in
        let e3 = drop-advance (o + 2) (o + 3) msg (algorithm ∷ []) _ e2 (omega arith) in
        let e4 = drop-advance (o + 3) (o + 4) msg (digest_type ∷ []) _ e3 (omega arith) in
        rw (
          kd,
          unpack16_lem msg o key_tag _ e,
          unpack8_lem msg (o + 2) algorithm _ e2,
          unpack8_lem msg (o + 3) digest_type _ e3,
          slice_part msg rest digest (o + 4)
              (o + length (be16 key_tag ++ (algorithm ∷ digest_type ∷ digest))) e4 (omega arith),
        );
  }
