-- ===== src/Resolver/Pipeline/Logging.antt =====
-- What `resolve` of app/dnscore/resolver.py writes to the query log, on every path through it.
use nova_dns.Prelude.{◌≡◌, ◌⊎◌, Bool, false, Option, List, [], ◌∷◌, ◌++◌, Result, ok, err}
use nova_dns.Text.{Text}
use nova_dns.Wire.Message.{Message}
use nova_dns.Cache
use nova_dns.Db.{Db, LogRow}
use nova_dns.Resolver.Host.{Host, Moment}
use nova_dns.Resolver.State.{State, is_allowed_by_acl}
use nova_dns.Resolver.Pipeline.{Reply, forwarded}

-- The rows that were logged before a query and its outcome: a reply is logged in one more row, with
-- who asked for what, and with the code and the source of the reply; an exception is not logged.
abbrev pub IsLogged : Text → Text → Text → List LogRow → State × Result Reply → Type 0
IsLogged qname qtype ip rows (t, ok reply) =
    t.db.query_log
    ≡ rows
      ++ record {
        client_ip = ip;
        qname = qname;
        qtype = qtype;
        rcode = reply.rcode;
        source = reply.source;
      }
        ∷ []
IsLogged qname qtype ip rows (t, err e) = t.db.query_log ≡ rows

module _ (host : Host) (m : Moment) (qname qtype ip : Text) (d : Bool) where
  abbrev Logged : List LogRow → State × Result Reply → Type 0
  Logged = IsLogged qname qtype ip

  -- The same, or a refusal without records of a client that the access list leaves out, which is not
  -- logged.
  abbrev pub Accounts : State → State × Result Reply → Type 0
  Accounts s x =
      Logged s.db.query_log x
      ⊎ ((is_allowed_by_acl host s m.now ip).1 ≡ false)
        × (r : Reply) × (x.1 ≡ ok r)
        × (r.rcode ≡ 5)
        × (r.answers ≡ [])
        × (x.0.db.query_log ≡ s.db.query_log)

  after : State → Result (Db × Option Message) → State × Result Reply
  after s (err e) = (s, err e)
  after s (ok r) = forwarded host s m qname qtype ip d r
