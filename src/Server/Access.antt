-- ===== src/Server/Access.antt =====
-- To whom app/dnscore/server.py gives no zone: whoever asks by UDP.
use nova_dns.Prelude.{◌≡◌, true, false, List, ◌∷◌, Bool-cases, inl, inr, ok, ap, ◌∙◌}
use nova_dns.Text.{Text, text_eq}
use nova_dns.Wire.Types.{codes}
use nova_dns.Wire.Message.{Message, Question}
use nova_dns.RateLimit.{allow}
use nova_dns.Resolver.Host.{Host, Moment}
use nova_dns.Resolver.State.{is_allowed_by_acl}
use nova_dns.Resolver.Pipeline.{refused}
use nova_dns.Server.{Server, response_to, transfer, serve, limited, admitted, asked, respond}

-- A transfer that is asked for by UDP gets no record, whoever asks.
pub respond-udp_transfer :
    (host : Host) (s : Server) (m : Moment) (query : Message) (ip : Text) (q : Question)
    (qs : List Question)
    → query.questions ≡ q ∷ qs
    → text_eq q.qtype (codes "AXFR") ≡ true
    → (respond host s m query ip false).1 ≡ ok (record (response_to query) { rcode = refused })
unfolding respond asked admitted limited serve transfer
respond-udp_transfer host s m query ip q qs e axfr =
    ap (λ l. (asked host s m query ip false l).1) e
    ∙ elim (Bool-cases (is_allowed_by_acl host s.resolver m.now ip).1) [
      | inl inside ↦ elim (Bool-cases (allow s.rate_limiter m.now ip).1) [
        | inl allowed ↦ rw (inside, asked, admitted, allowed, limited, axfr, serve)
        | inr over ↦ rw (inside, asked, admitted, over, limited)
      ]
      | inr out ↦ rw (out, asked, admitted)
    ]
