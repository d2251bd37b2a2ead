-- ===== src/Wire/Rdata/Shapes.antt =====
-- Record data of the types with a codec of numbers, plain names and bytes, and that all of it
-- round-trips.
use nova_dns.Prelude.{ℕ, ◌+◌, ◌<◌, ◌≡◌, [], ◌∷◌, length}
use nova_dns.Text.{Text}
use nova_dns.Wire.Name.{Bytes}
use nova_dns.Wire.Name.RoundTrip.{IsWireName, wire_form}
use nova_dns.Wire.Bytes.{hex}
use nova_dns.Wire.Bytes.Laws.{AllBytes}
use nova_dns.Wire.Rdata.{Value, Codec, Kind, text, target, mx, soa, srv, ds, opaque, kind_of}
use nova_dns.Wire.Rdata.RoundTrip.{
  RoundTrips, nat, RoundTrips-opaque, RoundTrips-target, RoundTrips-mx, RoundTrips-srv,
  RoundTrips-soa, RoundTrips-ds,
}

pub data Shape : Type 0 where
  raw_bytes : Bytes → Shape
  one_name : Text → Shape
  exchange : ℕ → Text → Shape
  service : ℕ → ℕ → ℕ → Text → Shape
  authority : Text → Text → ℕ → ℕ → ℕ → ℕ → ℕ → Shape
  signer : ℕ → ℕ → ℕ → Bytes → Shape

-- what the codec branches on
abbrev pub kind_for : Shape → Kind
kind_for (raw_bytes b) = opaque
kind_for (one_name name) = target
kind_for (exchange priority name) = mx
kind_for (service priority weight port name) = srv
kind_for (authority mname rname serial refresh retry expire minimum) = soa
kind_for (signer key_tag algorithm digest_type digest) = ds

abbrev pub value_of : Shape → Value
value_of (raw_bytes b) = ("raw_hex", text (hex b)) ∷ []
value_of (one_name name) = ("target", text name) ∷ []
value_of (exchange priority name) = ("priority", nat priority) ∷ ("target", text name) ∷ []
value_of (service priority weight port name) =
    ("priority", nat priority)
    ∷ ("weight", nat weight)
    ∷ ("port", nat port)
    ∷ ("target", text name)
    ∷ []
value_of (authority mname rname serial refresh retry expire minimum) =
    ("mname", text mname)
    ∷ ("rname", text rname)
    ∷ ("serial", nat serial)
    ∷ ("refresh", nat refresh)
    ∷ ("retry", nat retry)
    ∷ ("expire", nat expire)
    ∷ ("minimum", nat minimum)
    ∷ []
value_of (signer key_tag algorithm digest_type digest) =
    ("key_tag", nat key_tag)
    ∷ ("algorithm", nat algorithm)
    ∷ ("digest_type", nat digest_type)
    ∷ ("digest", text (hex digest))
    ∷ []

-- Numbers within their fields, names of plain labels, bytes, and all of it within 65535 bytes.
abbrev pub Fits : Shape → Type 0
Fits (raw_bytes b) = AllBytes b × (length b < 65536)
Fits (one_name name) = (n : IsWireName name) × (length (wire_form n.labels) < 65536)
Fits (exchange priority name) =
    (n : IsWireName name) × (length (wire_form n.labels) < 65534) × (priority < 65536)
Fits (service priority weight port name) =
    (n : IsWireName name) × (length (wire_form n.labels) < 65530)
    × (priority < 65536)
    × (weight < 65536)
    × (port < 65536)
Fits (authority mname rname serial refresh retry expire minimum) =
    (m : IsWireName mname) × (r : IsWireName rname) × (length (wire_form m.labels)
        + length (wire_form r.labels)
      < 65516)
    × (serial < 4294967296)
    × (refresh < 4294967296)
    × (retry < 4294967296)
    × (expire < 4294967296)
    × (minimum < 4294967296)
Fits (signer key_tag algorithm digest_type digest) =
    AllBytes digest
    × (length digest < 65532)
    × (key_tag < 65536)
    × (algorithm < 256)
    × (digest_type < 256)

-- Record data that fits its type, be it of MX, SRV, SOA or DS, a single name or raw bytes, is encoded
-- to bytes that decode to the same data wherever they stand in a message.
pub RoundTrips-value_of :
    (k : Codec) (rtype : Text) (shape : Shape)
    → kind_of rtype ≡ kind_for shape
    → Fits shape
    → RoundTrips k rtype (value_of shape)
RoundTrips-value_of k rtype (raw_bytes b) e (h, short) = RoundTrips-opaque k rtype b e h short
RoundTrips-value_of k rtype (one_name name) e (n, short) = RoundTrips-target k rtype name e n short
RoundTrips-value_of k rtype (exchange priority name) e (n, short, p) =
    RoundTrips-mx k rtype name priority e p n short
RoundTrips-value_of k rtype (service priority weight port name) e (n, short, p, w, q) =
    RoundTrips-srv k rtype name priority weight port e p w q n short
RoundTrips-value_of k rtype (authority mname rname serial refresh retry expire minimum) e h =
    RoundTrips-soa k rtype mname rname serial refresh retry expire minimum e h.0 h.1 h.3 h.4 h.5 h.6
      h.7 h.2
RoundTrips-value_of k rtype (signer key_tag algorithm digest_type digest) e h =
    RoundTrips-ds k rtype key_tag algorithm digest_type digest e h.2 h.3 h.4 h.0 h.1
