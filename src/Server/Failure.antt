-- ===== src/Server/Failure.antt =====
-- The replies that `_safe_process` of app/dnscore/server.py sends, those to a query that `_process`
-- fails on among them.
use nova_dns.Prelude.{◌+◌, ◌≡◌, ◌⊎◌, Bool, some, Result, ok}
use nova_dns.Text.{Text}
use nova_dns.Wire.Name.{Bytes}
use nova_dns.Wire.Message.{Message, new_message, from_wire, to_wire}
use nova_dns.Resolver.Host.{Host, Moment}
use nova_dns.Server.{Server, respond, safe_process}
use nova_dns.Server.Reply.{Echoes}

-- The reply to a query that failed: SERVFAIL with its identifier, RD bit and questions, opcode 0
-- whatever that of the query, and no records.
abbrev pub failed : Message → Message
failed query = record new_message {
  id = query.id;
  qr = 1;
  rd = query.rd;
  ra = 1;
  rcode = 2;
  questions = query.questions;
}

module _ (host : Host) (s : Server) (m : Moment) (packet : Bytes) (ip : Text) (via_tcp : Bool)
    (query : Message) (read : from_wire host.codec packet ≡ ok query) where
  abbrev counted : Server
  counted = record s { stats = record s.stats { queries = s.stats.queries + 1 } }

  abbrev made : Result Message
  made = (respond host counted m query ip via_tcp).1

  -- what is sent, and the message that it packs
  abbrev pub IsSent : Bytes → Message → Type 0
  IsSent b resp =
      ((safe_process host s m packet ip via_tcp).1 ≡ some b)
      × (to_wire host.codec resp ≡ ok b)
      × (Echoes query resp ⊎ (resp ≡ failed query))
