-- ===== src/Lib.antt =====
-- NovaDNS: a model of its DNS core in app/dnscore, and of the routes that edit its zones.
--
-- A packet comes to the server (server.py), which reads it with the wire format (wire.py), checks
-- the access list and the rate limiter (ratelimit.py) and asks the resolver (resolver.py). The
-- resolver goes through maintenance, access list, block lists, rewrite rules, cache (cache.py),
-- zones of its own, with the records that sign them (zonesigning.py, dnssec.py), and forwarders.
-- The zones and records are edited over the web (app/routes/zones.py), which signs a zone again
-- after each change and empties the resolver's cache.
--
-- Which file models which part, each with the source's names for its functions:
--   Wire         app/dnscore/wire.py: Types, Name, Bytes (struct, bytes.fromhex), Rdata, Message
--   Cache        app/dnscore/cache.py
--   RateLimit    app/dnscore/ratelimit.py
--   Dnssec       app/dnscore/dnssec.py: Base32, KeyTag, Names, Bitmap, Signing
--   ZoneSigning  app/dnscore/zonesigning.py: the lookups of signatures and denials; Signing has
--                sign_zone, over Groups and Material
--   Db           the tables of app/schema.sql, as lists of rows; Statements has the SQL that changes
--                them
--   Run          code that changes a state and may raise
--   Routes       the site, that is the database and the cache; Zones is app/routes/zones.py:
--                Records, Creating and Reverse have the handlers, Requests what they read of a
--                request, Validate has validate_zone, Exchange the import and the exports of a
--                file, and Dispatch the other requests that change the database
--   Resolver     app/dnscore/resolver.py: State, Clients, Zones, Rewrite, Forward, Transfer, and
--                Pipeline, which is resolve; Host has what it calls of Python and the network
--   Server       app/dnscore/server.py: _process, _safe_process, and in Tcp _handle_tcp_conn
--   Text, Dict, Sort, Prelude  what is used of Python's str, dict, sorted, exceptions and int
--   Tests        the results at concrete inputs
--
-- How state and errors are modelled: a method that changes its object takes the state and returns
-- it with the result; an exception is an `err` of `Result`, and the state that comes with it is
-- what the program has changed by then. Every reading of a clock within one call of the resolver or
-- of sign_zone is the same, in microseconds. A text is a list of code points, a byte string a list
-- of numbers below 256.
--
-- Bounds: `decode_name` walks on fuel, the message's length for the labels up to each pointer and
-- 128 for the pointers, which is the source's own limit; the loops of `decode_rdata` walk on the
-- number of bytes that are left. A loop that its fuel cuts short would give `out_of_fuel`, which is
-- no error of the program.
--
-- Parameters: IDNA, UTF-8 with replacement and `ipaddress` (Wire.Rdata, `Codec`), hashes and the
-- ECDSA signature (arguments in Dnssec), address tests, regular expressions, fnmatch and the
-- exchange with an upstream (Resolver.Host), the key pair that is drawn for a zone
-- (ZoneSigning.Signing, `Signer`), `ip_network` (Routes.Zones.Reverse), and JSON, YAML and CSV
-- (Routes.Zones.Exchange.Entries). `lower` and `upper` are those of ASCII.
--
-- The tables hold no number below 0: where a request brings one, the handler ends with
-- `below_zero`, which is no error of the program. JSON values are texts, integers and null. The
-- loop over a CNAME chain walks on fuel 21, its own limit.
--
-- Not modelled: sockets, threads and locks (a call is one step), the trace and the latencies of the
-- resolver; of app/routes/zones.py the pages and the export as a zone file; the details and
-- the user in the audit log, and times of change; the other web routes in app/routes and app/utils.
pub mod Prelude
pub mod Text
pub mod Dict
pub mod Sort
pub mod Cache
pub mod RateLimit
pub mod Wire
pub mod Dnssec
pub mod Run
pub mod Db
pub mod ZoneSigning
pub mod Routes
pub mod Resolver
pub mod Server
pub mod Tests
