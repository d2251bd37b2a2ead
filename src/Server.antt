-- ===== src/Server.antt =====
-- app/dnscore/server.py: `_process`, `_safe_process` and the frame of `_handle_tcp_conn`, which is in
-- Tcp. The sockets and the threads are not modelled; a packet is handled in one step.
pub mod Tcp
pub mod Access
pub mod Reply
pub mod Failure
use nova_dns.Prelude.{
  ℕ, ◌+◌, ◌/◌, ◌%◌, Bool, true, false, not, ◌&&◌, Option, none, some, List, [], ◌∷◌, ◌++◌, ◌==◌,
  if◌then◌else◌, length, Result, ok, err, ◌>>=◌,
}
use nova_dns.Prelude.Int.{pos}
use nova_dns.Text.{Text, text_eq}
use nova_dns.Wire.Types.{codes}
use nova_dns.Wire.Name.{Bytes}
use nova_dns.Wire.Bytes.{pack16}
use nova_dns.Wire.Message.{Message, Question, ResourceRecord, new_message, from_wire, to_wire}
use nova_dns.RateLimit.{RateLimiter, allow}
use nova_dns.Db.{Db, exists}
use nova_dns.Resolver.Host.{Host, Moment}
use nova_dns.Resolver.State.{State, new_state, get_setting, is_allowed_by_acl}
use nova_dns.Resolver.Forward.{opt_record}
use nova_dns.Resolver.Transfer
use nova_dns.Resolver.Pipeline
use nova_dns.Resolver.Pipeline.{resolve, servfail, nxdomain, refused}

pub record Stats : Type 0 where
  pub queries : ℕ
  pub refused_acl : ℕ
  pub rate_limited : ℕ
  pub errors : ℕ

-- the part of `DNSServer` that a packet reads or changes
pub record Server : Type 0 where
  pub resolver : State
  pub rate_limiter : RateLimiter
  pub stats : Stats

abbrev pub new_server : Db → Server
new_server db = record {
  resolver = new_state db;
  rate_limiter = record { capacity = 200; refill_per_sec = 100; buckets = [] };
  stats = record { queries = 0; refused_acl = 0; rate_limited = 0; errors = 0 };
}

abbrev pub formerr : ℕ
formerr = 1

is_opt : ResourceRecord → Bool
unfolding text_eq
is_opt rr = text_eq rr.rtype (codes "OPT")

unfoldable pub wants_edns : Message → Bool
unfolding exists is_opt
wants_edns query = exists is_opt query.additionals

-- rr.ttl & 0x00008000
unfoldable pub wants_dnssec : Message → Bool
unfolding exists is_opt
wants_dnssec query = exists (λ rr. is_opt rr && rr.ttl / 32768 % 2 == 1) query.additionals

-- `resp`, as `_process` sets it up
unfoldable pub response_to : Message → Message
response_to query = record new_message {
  id = query.id;
  qr = 1;
  opcode = query.opcode;
  rd = query.rd;
  ra = 1;
  questions = query.questions;
}

unfoldable pub with_reply : Message → Message → Pipeline.Reply → Message
unfolding wants_edns opt_record
with_reply query resp reply = record resp {
  aa = if reply.is_authoritative then 1 else 0;
  rcode = reply.rcode;
  answers = reply.answers;
  authorities = reply.authority;
  additionals = if wants_edns query then opt_record 0 ∷ [] else [];
}

unfoldable pub with_transfer : Message → Transfer.Transfer → Message
with_transfer resp Transfer.Transfer.refused = record resp { rcode = refused }
with_transfer resp Transfer.Transfer.not_found = record resp { rcode = nxdomain }
with_transfer resp (Transfer.Transfer.records rrs) = record resp {
  aa = 1;
  rcode = 0;
  answers = rrs;
}

module _ (host : Host) where
  -- a zone transfer, by TCP alone
  unfoldable pub transfer : Server → Moment → Message → Text → Text → Bool → Server × Message
  unfolding with_transfer get_setting Transfer.axfr
  transfer s m resp qname client_ip via_tcp = elim via_tcp [
    | false ↦ (s, record resp { rcode = refused })
    | true ↦
        let (t, raw_acl) = get_setting s.resolver m.now (codes "axfr_allowed_clients") [] in
        (
          record s { resolver = t },
          with_transfer resp (Transfer.axfr host t.db raw_acl qname client_ip),
        )
  ]

  unfoldable pub answer :
      Server → Moment → Message → Message → Text → Question → Server × Result Message
  unfolding resolve with_reply wants_dnssec
  answer s m query resp client_ip q =
      let (t, reply) = resolve host s.resolver m q.name q.qtype client_ip (wants_dnssec query) in
      (
        record s { resolver = t },
        elim reply [ err e ↦ err e | ok r ↦ ok (with_reply query resp r) ],
      )

  -- the first question, for a client that is let through
  unfoldable pub serve :
      Server → Moment → Message → Message → Text → Bool → Question → Server × Result Message
  unfolding transfer answer text_eq
  serve s m query resp client_ip via_tcp q = elim (text_eq q.qtype (codes "AXFR")) [
    | true ↦ let (t, reply) = transfer s m resp q.name client_ip via_tcp in (t, ok reply)
    | false ↦ answer s m query resp client_ip q
  ]

  -- the rate limiter
  unfoldable pub limited :
      Server → Moment → Message → Message → Text → Bool → Question → Server × Result Message
  unfolding allow serve
  limited s m query resp client_ip via_tcp q =
      let (limiter, allowed) = allow s.rate_limiter m.now client_ip in
      let t = record s { rate_limiter = limiter } in
      elim allowed [
        | false ↦ (
          record t { stats = record s.stats { rate_limited = s.stats.rate_limited + 1 } },
          ok (record resp { rcode = refused }),
        )
        | true ↦ serve t m query resp client_ip via_tcp q
      ]

  -- the access list
  unfoldable pub admitted :
      Server → Moment → Message → Message → Text → Bool → Question → Server × Result Message
  unfolding is_allowed_by_acl limited
  admitted s m query resp client_ip via_tcp q =
      let (r, acl_ok) = is_allowed_by_acl host s.resolver m.now client_ip in
      let t = record s { resolver = r } in
      elim acl_ok [
        | false ↦ (
          record t { stats = record s.stats { refused_acl = s.stats.refused_acl + 1 } },
          ok (record resp { rcode = refused }),
        )
        | true ↦ limited t m query resp client_ip via_tcp q
      ]

  unfoldable pub asked :
      Server → Moment → Message → Text → Bool → List Question → Server × Result Message
  unfolding response_to admitted
  asked s m query client_ip via_tcp [] = (s, ok (record (response_to query) { rcode = formerr }))
  asked s m query client_ip via_tcp (q ∷ qs) =
      admitted s m query (response_to query) client_ip via_tcp q

  -- the response to a query that was parsed
  unfoldable pub respond : Server → Moment → Message → Text → Bool → Server × Result Message
  unfolding asked
  respond s m query client_ip via_tcp = asked s m query client_ip via_tcp query.questions

  -- `_process`
  unfoldable pub process : Server → Moment → Bytes → Text → Bool → Server × Result Bytes
  unfolding from_wire respond to_wire
  process s m packet client_ip via_tcp = elim (from_wire host.codec packet) [
    | err e ↦ (s, err e)
    | ok query ↦
        let (t, resp) = respond s m query client_ip via_tcp in (t, resp >>= to_wire host.codec)
  ]

  -- the reply to a packet that `_process` failed on
  unfoldable pub failure_reply : Bytes → Result Bytes
  unfolding from_wire to_wire
  failure_reply packet = do
    query ← from_wire host.codec packet
    to_wire host.codec (record new_message {
      id = query.id;
      qr = 1;
      rd = query.rd;
      ra = 1;
      rcode = servfail;
      questions = query.questions;
    })

  -- `_safe_process`; `none` is that nothing is sent
  unfoldable pub safe_process : Server → Moment → Bytes → Text → Bool → Server × Option Bytes
  unfolding process failure_reply
  safe_process s m packet client_ip via_tcp =
      let counted = record s { stats = record s.stats { queries = s.stats.queries + 1 } } in
      let (t, result) = process counted m packet client_ip via_tcp in
      elim result [
        | ok bytes ↦ (t, some bytes)
        | err e ↦ (
          record t { stats = record t.stats { errors = t.stats.errors + 1 } },
          elim (failure_reply packet) [ ok bytes ↦ some bytes | err e ↦ none ],
        )
      ]

-- What `_handle_tcp_conn` sends for a response: its length in two bytes, and the response. A length
-- over 16 bits raises, and nothing is sent.
unfoldable pub tcp_frame : Bytes → Result Bytes
unfolding pack16
tcp_frame bytes = do prefix ← pack16 (pos (length bytes)); ok (prefix ++ bytes)
