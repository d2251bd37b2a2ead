-- ===== src/Tests/Data.antt =====
-- A host without a network, a small database, and messages.
use nova_dns.Prelude.{ℕ, ◌==◌, if◌then◌else◌, true, false, Option, none, some, [], ◌∷◌}
use nova_dns.Prelude.Int.{pos}
use nova_dns.Text.{Text, text_eq}
use nova_dns.Wire.Types.{codes}
use nova_dns.Wire.Name.{Bytes}
use nova_dns.Wire.Rdata.{num, text, Value, Codec}
use nova_dns.Wire.Message.{Message, new_message}
use nova_dns.Db.{Db, Zone, Row, BlockEntry, Forwarder}
use nova_dns.Resolver.Host.{Host, Moment}
use nova_dns.Resolver.State.{State, new_state}
use nova_dns.Server.{Server, new_server}

-- addresses are four or sixteen characters, each its own byte
abbrev pub plain_codec : Codec
plain_codec = record {
  idna = λ s. some s;
  utf8_replace = λ b. b;
  v4_packed = λ s. some s;
  v4_text = λ b. some b;
  v6_packed = λ s. some s;
  v6_text = λ b. some b;
}

abbrev pub no_message : Bytes
no_message = []

-- Every upstream fails but the one of port 54, which answers with an empty message.
abbrev pub empty_response : Bytes
empty_response = 0 ∷ 7 ∷ 128 ∷ 0 ∷ 0 ∷ 0 ∷ 0 ∷ 0 ∷ 0 ∷ 0 ∷ 0 ∷ 0 ∷ []

abbrev pub has_port_54 : ℕ → Option Bytes
has_port_54 port = if port == 54 then some empty_response else none

abbrev pub small_host : Host
small_host = record {
  codec = plain_codec;
  sha1 = λ b. b;
  is_address = λ s. true;
  in_network = λ ip net. some false;
  re_search = λ p s. some false;
  fnmatch = λ s p. text_eq s p;
  exchange = λ f b. has_port_54 f.port;
}

abbrev pub example_zone : Zone
example_zone = record {
  id = 1;
  name = codes "example.org";
  ztype = codes "authoritative";
  default_ttl = 3600;
  soa_mname = none;
  soa_rname = none;
  soa_serial = 1;
  soa_refresh = 2;
  soa_retry = 3;
  soa_expire = 4;
  soa_minimum = 5;
  dnssec_enabled = false;
  nsec3_enabled = false;
  nsec3_salt = [];
  nsec3_iterations = 0;
}

abbrev pub www_row : Row
www_row = record {
  id = 1;
  zone_id = 1;
  name = codes "www";
  rtype = codes "A";
  ttl = none;
  data_json = ("address", text (codes "abcd")) ∷ [];
  client_match = none;
}

abbrev pub ads_entry : BlockEntry
ads_entry = record {
  blocklist_id = none;
  domain = codes "*.ads.net";
  list_type = codes "block";
  is_regex = false;
  client_match = none;
}

abbrev pub small_db : Db
small_db = record {
  settings =
      (codes "acl_networks", codes "10.0.0.1, 10.0.0.2")
      ∷ (codes "axfr_allowed_clients", codes "10.0.0.1")
      ∷ [];
  maintenance = false;
  zones = example_zone ∷ [];
  records = www_row ∷ [];
  block_entries = ads_entry ∷ [];
  blocklists = [];
  client_groups = [];
  client_group_entries = [];
  rewrite_rules = [];
  forwarders = [];
  query_log = [];
  clients = [];
  dnssec_keys = [];
  audit_log = [];
  next_zone_id = 2;
  next_record_id = 2;
  next_key_id = 1;
}

abbrev pub small_state : State
small_state = new_state small_db

abbrev pub small_server : Server
small_server = new_server small_db

-- 100 s after the start of the clock
abbrev pub noon : Moment
noon = record { now = 100_000_000; clock = codes "12:00"; query_id = 7 }

-- 1 s later
abbrev pub past_noon : Moment
past_noon = record { now = 101_000_000; clock = codes "12:00"; query_id = 8 }

abbrev pub query_for : Text → Text → Message
query_for name qtype = record new_message {
  id = 5;
  questions = record { name = name; qtype = qtype; qclass = 1 } ∷ [];
}

abbrev pub mx_value : Value
mx_value = ("priority", num (pos 10)) ∷ ("target", text (codes "a.b.")) ∷ []

-- a response with an MX record
abbrev pub mx_message : Message
mx_message = record new_message {
  id = 5;
  qr = 1;
  questions = record { name = codes "b."; qtype = codes "MX"; qclass = 1 } ∷ [];
  answers =
      record { name = codes "b."; rtype = codes "MX"; rclass = 1; ttl = 60; value = mx_value } ∷ [];
}

abbrev pub forwarder_at : ℕ → ℕ → Forwarder
forwarder_at id port = record {
  id = id;
  address = codes "10.0.0.9";
  port = port;
  protocol = codes "udp";
  enabled = true;
  priority = id;
  condition_domain = none;
  healthy = true;
}
