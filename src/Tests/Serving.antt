-- ===== src/Tests/Serving.antt =====
-- The server.
use nova_dns.Prelude.{length, take, drop, arith, ◌≡◌, refl, true, false, [], ◌∷◌, ok}
use nova_dns.Text.{text_eq}
use nova_dns.Wire.Types.{codes}
use nova_dns.Wire.Name.{Bytes}
use nova_dns.Wire.Bytes.{unpack16}
use nova_dns.Server.Tcp.{handle_tcp, framed, handle_tcp-MakeUp}
use nova_dns.Resolver.Pipeline.{refused}
use nova_dns.Server.{respond, response_to, safe_process}
use nova_dns.Server.Reply.{AllEcho, respond-Echoes}
use nova_dns.Wire.Message.{Message, new_message}
use nova_dns.Server.Access.{respond-udp_transfer}
use nova_dns.Tests.Data.{small_host, small_server, noon, query_for}

respond-Echoes_example :
    AllEcho
      (query_for (codes "www.example.org") (codes "A"))
      (respond small_host small_server noon
        (query_for (codes "www.example.org") (codes "A"))
        (codes "10.0.0.1")
        false).1
respond-Echoes_example =
    respond-Echoes small_host small_server noon (query_for (codes "www.example.org") (codes "A"))
      (codes "10.0.0.1") false

is_axfr : text_eq (codes "AXFR") (codes "AXFR") ≡ true
unfolding text_eq
is_axfr = refl

respond-udp_transfer_example :
    (respond small_host small_server noon
      (query_for (codes "example.org") (codes "AXFR"))
      (codes "10.0.0.1")
      false).1
    ≡ ok (record (response_to (query_for (codes "example.org") (codes "AXFR"))) { rcode = refused })
respond-udp_transfer_example =
    respond-udp_transfer small_host small_server noon
      (query_for (codes "example.org") (codes "AXFR")) (codes "10.0.0.1")
      (record { name = codes "example.org"; qtype = codes "AXFR"; qclass = 1 }) [] refl is_axfr

-- a query for the root
abbrev packet : Bytes
packet = 0 ∷ 5 ∷ 1 ∷ 0 ∷ 0 ∷ 1 ∷ 0 ∷ 0 ∷ 0 ∷ 0 ∷ 0 ∷ 0 ∷ 0 ∷ 0 ∷ 1 ∷ 0 ∷ 1 ∷ []

abbrev root_query : Message
root_query = record new_message {
  id = 5;
  questions = record { name = codes "."; qtype = codes "A"; qclass = 1 } ∷ [];
}

size_of_packet : unpack16 (0 ∷ 17 ∷ []) 0 ≡ ok (length packet)
unfolding unpack16
size_of_packet = refl

-- the query in two chunks
handle_tcp-MakeUp_example :
    handle_tcp small_host small_server noon
      (codes "10.0.0.1")
      (0 ∷ 17 ∷ [])
      (take 5 packet ∷ drop 5 packet ∷ [])
    ≡ (
      (safe_process small_host small_server noon packet (codes "10.0.0.1") true).0,
      framed (safe_process small_host small_server noon packet (codes "10.0.0.1") true).1,
    )
handle_tcp-MakeUp_example =
    handle_tcp-MakeUp small_host small_server noon (codes "10.0.0.1") (0 ∷ 17 ∷ []) packet
      (take 5 packet ∷ drop 5 packet ∷ []) (omega arith) size_of_packet
      (omega arith, drop 5 packet, refl, (omega arith, [], refl, refl))
