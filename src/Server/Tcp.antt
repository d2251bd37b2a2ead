-- ===== src/Server/Tcp.antt =====
-- `_handle_tcp_conn` of app/dnscore/server.py. What `conn.recv` returns, call by call, is a list: the
-- connection is closed behind its end, where each further call returns no byte.
use nova_dns.Prelude.{
  ℕ, ◌+◌, ◌<◌, ◌≡◌, sym, ap, ◌∙◌, true, false, Option, none, some, List, [], ◌∷◌, ◌++◌, arith,
  length, length-append, ◌==◌, ltb, if◌then◌else◌, ok, err,
}
use mathlib.Core.List.{append_assoc, append-nil}
use nova_dns.Text.{Text}
use nova_dns.Wire.Name.{Bytes}
use nova_dns.Wire.Bytes.{unpack16}
use nova_dns.Resolver.Host.{Host, Moment}
use nova_dns.Server.{Server, safe_process, tcp_frame}

-- the loop that collects a message of `len` bytes
unfoldable pub read_body : ℕ → Bytes → List Bytes → Bytes
read_body len got [] = got
read_body len got (chunk ∷ chunks) =
    let rest = read_body len (got ++ chunk) chunks in
    if ltb (length got) len then (if length chunk == 0 then got else rest) else got

-- what is sent for a response: nothing for none, or where its length has no 16 bits
unfoldable pub framed : Option Bytes → Option Bytes
unfolding tcp_frame
framed none = none
framed (some []) = none
framed (some (b ∷ bytes)) = elim (tcp_frame (b ∷ bytes)) [ ok f ↦ some f | err e ↦ none ]

module _ (host : Host) where
  -- `first` is what the first call, for the two bytes of the length, returns
  unfoldable pub handle_tcp : Server → Moment → Text → Bytes → List Bytes → Server × Option Bytes
  unfolding unpack16 read_body safe_process framed
  handle_tcp s m client_ip first chunks =
      if ltb (length first) 2 then (s, none) else elim (unpack16 first 0) [
        | err e ↦ (s, none)
        | ok len ↦
            let (t, resp) = safe_process host s m (read_body len [] chunks) client_ip true in
            (t, framed resp)
      ]

  -- The chunks, none of them empty, make up the message.
  abbrev pub MakeUp : List Bytes → Bytes → Type 0
  MakeUp [] message = message ≡ []
  MakeUp (chunk ∷ chunks) message =
      (0 < length chunk) × (rest : Bytes) × (message ≡ chunk ++ rest) × MakeUp chunks rest

  read_body-MakeUp :
      (len : ℕ) (got : Bytes) (chunks : List Bytes) (message : Bytes)
      → MakeUp chunks message
      → len ≡ length got + length message
      → read_body len got chunks ≡ got ++ message
  unfolding read_body
  read_body-MakeUp len got [] message e n = rw e (sym (append-nil got))
  read_body-MakeUp len got (chunk ∷ chunks) message (some_bytes, rest, e, up) n =
      let long : length message ≡ length chunk + length rest =
        ap (λ (b : Bytes). length b) e ∙ length-append chunk rest in
      let more : ltb (length got) len ≡ true = ground (arith, long) in
      let full : (length chunk == 0) ≡ false = ground (arith) in
      rw (more, full)
        (read_body-MakeUp len (got ++ chunk) chunks rest up
            (omega (arith, long, length-append got chunk))
          ∙ append_assoc got chunk rest
          ∙ ap (λ (b : Bytes). got ++ b) (sym e))

  -- Where the two bytes of the length come in one piece, then however the message behind them is cut
  -- into chunks, it is answered like the whole message.
  pub handle_tcp-MakeUp :
      (s : Server) (m : Moment) (client_ip : Text) (first message : Bytes) (chunks : List Bytes)
      → 1 < length first
      → unpack16 first 0 ≡ ok (length message)
      → MakeUp chunks message
      → handle_tcp s m client_ip first chunks ≡ (
        (safe_process host s m message client_ip true).0,
        framed (safe_process host s m message client_ip true).1,
      )
  unfolding handle_tcp
  handle_tcp-MakeUp s m client_ip first message chunks two len up =
      let whole : ltb (length first) 2 ≡ false = ground (arith) in
      rw (whole, len, read_body-MakeUp (length message) [] chunks message up (omega arith))
