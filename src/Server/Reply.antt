-- ===== src/Server/Reply.antt =====
-- What every response that `_process` of app/dnscore/server.py makes has of its query.
use nova_dns.Prelude.{
  ℕ, ◌≡◌, refl, Bool, true, false, List, [], ◌∷◌, inl, inr, Bool-cases, Result, ok, err,
}
use nova_dns.Text.{Text, text_eq}
use nova_dns.Wire.Types.{codes}
use nova_dns.Wire.Message.{Message, Question}
use nova_dns.RateLimit.{allow}
use nova_dns.Resolver.Host.{Host, Moment}
use nova_dns.Resolver.State.{is_allowed_by_acl}
use nova_dns.Resolver.Transfer
use nova_dns.Resolver.Pipeline
use nova_dns.Resolver.Pipeline.{resolve}
use nova_dns.Server.{
  Server, response_to, with_reply, with_transfer, transfer, answer, serve, limited, admitted, asked,
  respond,
}

-- The identifier, the opcode, RD and the questions are the query's, and QR and RA are set.
pub record Echoes (query resp : Message) : Type 0 where
  pub id : resp.id ≡ query.id
  pub qr : resp.qr ≡ 1
  pub opcode : resp.opcode ≡ query.opcode
  pub rd : resp.rd ≡ query.rd
  pub ra : resp.ra ≡ 1
  pub questions : resp.questions ≡ query.questions

abbrev pub AllEcho : Message → Result Message → Type 0
AllEcho query (ok resp) = Echoes query resp
AllEcho query (err e) = Unit

with_rcode-Echoes :
    (query : Message) (rcode : ℕ) → Echoes query (record (response_to query) { rcode = rcode })
unfolding response_to
with_rcode-Echoes query rcode = record {
  id = refl;
  qr = refl;
  opcode = refl;
  rd = refl;
  ra = refl;
  questions = refl;
}

with_reply-Echoes :
    (query : Message) (reply : Result Pipeline.Reply)
    → AllEcho query
        (elim reply [ err e ↦ err e | ok r ↦ ok (with_reply query (response_to query) r) ])
unfolding response_to with_reply
with_reply-Echoes query (err e) = tt
with_reply-Echoes query (ok r) = record {
  id = refl;
  qr = refl;
  opcode = refl;
  rd = refl;
  ra = refl;
  questions = refl;
}

with_transfer-Echoes :
    (query : Message) (t : Transfer.Transfer) → Echoes query (with_transfer (response_to query) t)
unfolding response_to with_transfer
with_transfer-Echoes query Transfer.Transfer.refused = with_rcode-Echoes query 5
with_transfer-Echoes query Transfer.Transfer.not_found = with_rcode-Echoes query 3
with_transfer-Echoes query (Transfer.Transfer.records rrs) = record {
  id = refl;
  qr = refl;
  opcode = refl;
  rd = refl;
  ra = refl;
  questions = refl;
}

module _ (host : Host) (m : Moment) (query : Message) (ip : Text) where
  transfer-Echoes :
      (s : Server) (via_tcp : Bool) (qname : Text)
      → Echoes query (transfer host s m (response_to query) qname ip via_tcp).1
  unfolding transfer
  transfer-Echoes s false qname = with_rcode-Echoes query 5
  transfer-Echoes s true qname = with_transfer-Echoes query _

  serve-Echoes :
      (s : Server) (via_tcp : Bool) (q : Question)
      → AllEcho query (serve host s m query (response_to query) ip via_tcp q).1
  unfolding serve answer
  serve-Echoes s via_tcp q = elim (Bool-cases (text_eq q.qtype (codes "AXFR"))) [
    | inl axfr ↦ rw (axfr, serve) (transfer-Echoes s via_tcp q.name)
    | inr other ↦ rw (other, serve, answer) (with_reply-Echoes query _)
  ]

  limited-Echoes :
      (s : Server) (via_tcp : Bool) (q : Question)
      → AllEcho query (limited host s m query (response_to query) ip via_tcp q).1
  unfolding limited
  limited-Echoes s via_tcp q = elim (Bool-cases (allow s.rate_limiter m.now ip).1) [
    | inl allowed ↦
        rw (allowed, limited)
          (serve-Echoes (record s { rate_limiter = (allow s.rate_limiter m.now ip).0 }) via_tcp q)
    | inr over ↦ rw (over, limited) (with_rcode-Echoes query 5)
  ]

  admitted-Echoes :
      (s : Server) (via_tcp : Bool) (q : Question)
      → AllEcho query (admitted host s m query (response_to query) ip via_tcp q).1
  unfolding admitted
  admitted-Echoes s via_tcp q = elim (Bool-cases (is_allowed_by_acl host s.resolver m.now ip).1) [
    | inl inside ↦
        rw (inside, admitted)
          (limited-Echoes (record s { resolver = (is_allowed_by_acl host s.resolver m.now ip).0 })
            via_tcp q)
    | inr out ↦ rw (out, admitted) (with_rcode-Echoes query 5)
  ]

-- Whatever path a query takes through `_process`, the response that is made for it, unless it raises,
-- has its identifier, its opcode, its RD bit and its questions, and is marked as a response with
-- recursion available.
pub respond-Echoes :
    (host : Host) (s : Server) (m : Moment) (query : Message) (ip : Text) (via_tcp : Bool)
    → AllEcho query (respond host s m query ip via_tcp).1
unfolding respond asked
respond-Echoes host s m query ip via_tcp = go query.questions
  where
    go : (qs : List Question) → AllEcho query (asked host s m query ip via_tcp qs).1
    go [] = with_rcode-Echoes query 1
    go (q ∷ qs) = admitted-Echoes host m query ip s via_tcp q
