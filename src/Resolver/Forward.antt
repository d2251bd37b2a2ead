-- ===== src/Resolver/Forward.antt =====
-- Forwarding of app/dnscore/resolver.py: `_get_forwarders` and `_forward_query`.
pub mod Failover
use nova_dns.Prelude.{
  ℕ, Bool, true, false, not, ◌&&◌, ◌||◌, Option, none, some, List, [], ◌∷◌, ◌==◌, leb,
  if◌then◌else◌, Result, ok, err, ◌>>=◌,
}
use nova_dns.Sort.{sorted}
use nova_dns.Text.{Text, text_eq, fold_name}
use nova_dns.Wire.Types.{codes}
use nova_dns.Wire.Name.{Bytes}
use nova_dns.Wire.Rdata.{text}
use nova_dns.Wire.Message.{
  Message, Question, ResourceRecord, new_message, qclass_in, from_wire, to_wire,
}
use nova_dns.Db.{Db, Forwarder, select, select_one, update}
use nova_dns.Resolver.Host.{Host}
use nova_dns.Resolver.Clients.{is_under}

is_none : Option Text → Bool
is_none none = true
is_none (some t) = false

under_column : Text → Option Text → Bool
unfolding is_under fold_name
under_column qname none = false
under_column qname (some d) = is_under qname (fold_name d)

by_priority : Forwarder → Forwarder → Bool
by_priority a b = leb a.priority b.priority

-- the first conditional forwarder of the name alone, or all the general ones
unfoldable pub get_forwarders : Db → Text → List Forwarder
unfolding select select_one sorted fold_name is_none under_column by_priority
get_forwarders db qname =
    let conditional =
      sorted by_priority
        (select (λ f. f.enabled && not (is_none f.condition_domain)) db.forwarders) in
    let general =
      sorted by_priority (select (λ f. f.enabled && is_none f.condition_domain) db.forwarders) in
    elim (select_one (λ f. under_column (fold_name qname) f.condition_domain) conditional) [
      | some f ↦ f ∷ []
      | none ↦ general
    ]

-- the EDNS0 record, with its extended flags
unfoldable pub opt_record : ℕ → ResourceRecord
opt_record ttl = record {
  name = codes ".";
  rtype = codes "OPT";
  rclass = 1232;
  ttl = ttl;
  value = ("raw_hex", text []) ∷ [];
}

-- the DO bit of the extended flags
abbrev pub dnssec_ok_flag : ℕ
dnssec_ok_flag = 0x8000

unfoldable pub request : ℕ → Text → Text → Bool → Message
unfolding opt_record
request query_id qname qtype want_dnssec = record new_message {
  id = query_id;
  rd = 1;
  questions = record { name = qname; qtype = qtype; qclass = qclass_in } ∷ [];
  additionals = if want_dnssec then opt_record dnssec_ok_flag ∷ [] else [];
}

unfoldable pub known_protocol : Text → Bool
unfolding text_eq
known_protocol p =
    text_eq p (codes "udp")
    || text_eq p (codes "tcp")
    || text_eq p (codes "dot")
    || text_eq p (codes "doh")

unfoldable pub set_healthy : Bool → ℕ → List Forwarder → List Forwarder
unfolding update
set_healthy healthy id forwarders =
    update (λ f. f.id == id) (λ f. record f { healthy = healthy }) forwarders

module _ (host : Host) where
  -- what one forwarder answers, or none: no exchange, or bytes that are no message
  unfoldable pub ask : Bytes → Forwarder → Option Message
  unfolding from_wire
  ask payload f = elim (host.exchange f payload) [
    | none ↦ none
    | some d ↦ elim (from_wire host.codec d) [ ok m ↦ some m | err e ↦ none ]
  ]

  -- the loop over the forwarders; `table` is the table of all of them
  unfoldable pub try_forwarders :
      Bytes → List Forwarder → List Forwarder → List Forwarder × Option Message
  unfolding ask known_protocol set_healthy
  try_forwarders payload [] table = (table, none)
  try_forwarders payload (f ∷ fs) table = elim (known_protocol f.protocol) [
    | false ↦ try_forwarders payload fs table
    | true ↦ elim (ask payload f) [
      | some m ↦ (set_healthy true f.id table, some m)
      | none ↦ try_forwarders payload fs (set_healthy false f.id table)
    ]
  ]

  unfoldable pub forward_query :
      Db → ℕ → Text → Text → List Forwarder → Bool → Result (Db × Option Message)
  unfolding request to_wire try_forwarders
  forward_query db query_id qname qtype forwarders want_dnssec = do
    payload ← to_wire host.codec (request query_id qname qtype want_dnssec)
    let (table, answer) = try_forwarders payload forwarders db.forwarders
    ok (record db { forwarders = table }, answer)
