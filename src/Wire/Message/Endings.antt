-- ===== src/Wire/Message/Endings.antt =====
-- The end of `from_wire` of app/dnscore/wire.py, and the fuel of the loops that it calls.
use nova_dns.Prelude.{
  ℕ, zero, suc, ◌+◌, ◌≢◌, Bool, true, false, arith, Result, ok, err, out_of_fuel, guard, dns_error,
  not, ltb, length,
}
use nova_dns.Text.{Text}
use nova_dns.Wire.Types.{type_name}
use nova_dns.Wire.Name.{Bytes, slice}
use nova_dns.Wire.Rdata.Decode.{decode_rdata}
use nova_dns.Wire.Rdata.{Codec, Value}
use nova_dns.Wire.Rdata.Decode.Endings.{
  Ends, Ends-ok, Ends-then, Ends-unpack16, Ends-unpack32, Ends-decode_name, decode_rdata_ends,
}
use nova_dns.Wire.Message.{
  value_or_raw, raw_unless_cut, from_wire, read_questions, read_rr, read_rr_section,
}

Ends-guard : (b : Bool) → Ends (guard b dns_error)
Ends-guard true = Ends-ok tt
Ends-guard false = record { not_cut = λ e. cc }

Ends-value_or_raw : (r : Result Value) (raw : Bytes) → Ends r → Ends (value_or_raw r raw)
unfolding value_or_raw raw_unless_cut
Ends-value_or_raw (ok v) raw h = h
Ends-value_or_raw (err e) raw h = record { not_cut = λ c. h.not_cut (ground arith) }

Ends-read_questions : (n : ℕ) (msg : Bytes) (o : ℕ) → Ends (read_questions n msg o)
unfolding read_questions
Ends-read_questions zero msg o = Ends-ok _
Ends-read_questions (suc n) msg o = Ends-then _ _ (Ends-decode_name msg o) (λ (name, p).
    Ends-then _ _ (Ends-unpack16 msg p) (λ qtype_num.
      Ends-then _ _ (Ends-unpack16 msg (p + 2))
        (λ qclass. Ends-then _ _ (Ends-read_questions n msg (p + 4)) (λ rest. Ends-ok _))))

module _ (k : Codec) where
  Ends-value :
      (name : Text) (msg : Bytes) (o n : ℕ)
      → Ends (value_or_raw (decode_rdata k name msg o n) (slice msg o n))
  Ends-value name msg o n =
      Ends-value_or_raw _ _ (record { not_cut = decode_rdata_ends k name msg o n })

  Ends-read_rr : (msg : Bytes) (o : ℕ) → Ends (read_rr k msg o)
  unfolding read_rr
  Ends-read_rr msg o = Ends-then _ _ (Ends-decode_name msg o) (λ (name, p).
      Ends-then _ _ (Ends-unpack16 msg p) (λ rtype_num.
        Ends-then _ _ (Ends-unpack16 msg (p + 2)) (λ rclass.
          Ends-then _ _ (Ends-unpack32 msg (p + 4)) (λ ttl.
            Ends-then _ _ (Ends-unpack16 msg (p + 8)) (λ rdlength.
              Ends-then _ _ (Ends-value (type_name rtype_num) msg (p + 10) rdlength)
                (λ value. Ends-ok _))))))

  Ends-read_rr_section : (n : ℕ) (msg : Bytes) (o : ℕ) → Ends (read_rr_section k n msg o)
  unfolding read_rr_section
  Ends-read_rr_section zero msg o = Ends-ok _
  Ends-read_rr_section (suc n) msg o =
      Ends-then _ _ (Ends-read_rr msg o)
        (λ (rr, p). Ends-then _ _ (Ends-read_rr_section n msg p) (λ rest. Ends-ok _))

  Ends-from_wire : (msg : Bytes) → Ends (from_wire k msg)
  unfolding from_wire
  Ends-from_wire msg = Ends-then _ _ (Ends-guard (not (ltb (length msg) 12))) (λ long.
      Ends-then _ _ (Ends-unpack16 msg 0) (λ id. Ends-then _ _ (Ends-unpack16 msg 2) (λ flags.
        Ends-then _ _ (Ends-unpack16 msg 4) (λ qdcount.
          Ends-then _ _ (Ends-unpack16 msg 6) (λ ancount.
            Ends-then _ _ (Ends-unpack16 msg 8) (λ nscount.
              Ends-then _ _ (Ends-unpack16 msg 10) (λ arcount.
                Ends-then _ _ (Ends-read_questions qdcount msg 12) (λ (questions, o).
                  Ends-then _ _ (Ends-read_rr_section ancount msg o) (λ (answers, p).
                    Ends-then _ _ (Ends-read_rr_section nscount msg p) (λ (authorities, q).
                      Ends-then _ _ (Ends-read_rr_section arcount msg q)
                        (λ rest. Ends-ok _)))))))))))

  -- Reading a packet ends with a message or with the program's own error, whatever the bytes.
  pub from_wire_ends : (msg : Bytes) → from_wire k msg ≢ err out_of_fuel
  from_wire_ends msg = (Ends-from_wire msg).not_cut
