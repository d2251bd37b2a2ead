-- ===== src/Resolver/Host.antt =====
-- What the resolver calls of Python's library and of the network, as parameters.
use nova_dns.Prelude.{ℕ, Bool, Option}
use nova_dns.Text.{Text}
use nova_dns.Db.{Forwarder}
use nova_dns.Wire.Name.{Bytes}
use nova_dns.Wire.Rdata.{Codec}

-- `none` is an exception: a ValueError of `ipaddress`, a `re.error`, a failed exchange.
-- `in_network ip net` is `ip_address(ip) in ip_network(net, strict=False)`.
pub record Host : Type 0 where
  pub codec : Codec
  pub sha1 : Bytes → Bytes
  pub is_address : Text → Bool
  pub in_network : Text → Text → Option Bool
  pub re_search : Text → Text → Option Bool
  pub fnmatch : Text → Text → Bool
  pub exchange : Forwarder → Bytes → Option Bytes

-- What one call reads of the outside: the clock in microseconds, the wall clock's "HH:MM", and the
-- identifier that `new_query_id` draws. Every reading of the clock in a call is the same.
pub record Moment : Type 0 where
  pub now : ℕ
  pub clock : Text
  pub query_id : ℕ
