-- ===== src/Routes/Zones/Reverse.antt =====
-- The reverse zones of app/routes/zones.py: `_reverse_zone_name`, `new_reverse_zone` and
-- `add_ptr_convenience`. A network is what `ipaddress.ip_network(…, strict=False)` gives.
use mathlib.Core.List.{reverse}
use nova_dns.Prelude.{
  ℕ, ◌/◌, ◌%◌, not, Option, none, some, [], ◌∷◌, ◌++◌, ◌==◌, map, if◌then◌else◌, take,
}
use nova_dns.Text.{Text, text_eq, rstrip_dot, split_from, split_dot, join_dot, dot}
use nova_dns.Wire.Types.{codes}
use nova_dns.Wire.Rdata.{Field, num, text, null, Value, item_or, strip, lstrip, rstrip}
use nova_dns.Run.{Run, ◌>>=◌, ◌>>◌, pure, lift, read}
use nova_dns.Db.{Zone, select}
use nova_dns.Db.Statements.{zone_of, insert_record, insert_zone, audit}
use nova_dns.ZoneSigning.Signing.{Signer}
use nova_dns.Routes.{
  Site, Reply, with_id, redirected, refused, put_db, on_db, bust_cache, refuse_if,
}
use nova_dns.Routes.Zones.Requests.{field, number_text, ttl_of, stripped}
use nova_dns.Routes.Zones.Records.{with_zone, zone_found, quoted, publish}
use nova_dns.Routes.Zones.Creating.{Form, form_get, form_ttl, name_taken, stripped_of, under}

-- The prefix length, and the network address: `str(…)` of an IPv4 one, `.exploded` of an IPv6 one.
pub data Network : Type 0 where
  v4 : ℕ → Text → Network
  v6 : ℕ → Text → Network

-- the first `n` octets of the address, last one first, and the suffix
abbrev octets_name : ℕ → Text → Text
octets_name n address = join_dot (reverse (take n (split_dot address))) ++ codes ".in-addr.arpa"

-- the nibbles of the address, without colons
nibbles_of : Text → Text
unfolding select
nibbles_of = select (λ c. not (c == 58))

-- _reverse_zone_name
unfoldable pub reverse_zone_name : Network → Option Text
unfolding split_from join_dot nibbles_of
reverse_zone_name (v4 prefixlen address) =
    if prefixlen == 24
    then some (octets_name 3 address)
    else if prefixlen == 16
    then some (octets_name 2 address)
    else if prefixlen == 8
    then some (octets_name 1 address)
    else none
reverse_zone_name (v6 prefixlen exploded) =
    if prefixlen % 4 == 0
    then some (
        join_dot (map (λ c. c ∷ []) (reverse (take (prefixlen / 4) (nibbles_of exploded))))
        ++ codes ".ip6.arpa")
    else none

unfoldable pub create_reverse : Text → Text → ℕ → Run Site Reply
unfolding insert_zone insert_record audit quoted bust_cache put_db
create_reverse network zone_name ttl = do
  zone_id ← on_db (insert_zone zone_name ttl (under "ns1." zone_name) (under "admin." zone_name))
  id ← on_db (
      insert_record zone_id (codes "@") (codes "NS") (some ttl)
        (("target", text (under "ns1." zone_name)) ∷ []) none)
  on_db (
      audit (quoted (codes "Created reverse DNS zone ") zone_name (codes " for " ++ network))
        (codes "dns"))
  bust_cache
  pure (redirected zone_id)

-- a network that has a name of its own, which is not empty
unfoldable pub name_reverse : Text → ℕ → Option Text → Run Site Reply
unfolding name_taken create_reverse put_db refuse_if
name_reverse network ttl none = pure (refused 200)
name_reverse network ttl (some zone_name) = on_db (read (name_taken zone_name)) >>= λ taken.
    refuse_if taken 200 (create_reverse network zone_name ttl)

unfoldable pub name_network : Text → ℕ → Option Network → Run Site Reply
unfolding name_reverse reverse_zone_name
name_network network ttl none = pure (refused 200)
name_network network ttl (some net) = name_reverse network ttl (reverse_zone_name net)

-- The page that is shown again with an error has status 200. `ip_network` gives none for a ValueError.
unfoldable pub new_reverse_zone : (Text → Option Network) → Form → Run Site Reply
unfolding form_get form_ttl name_network lstrip rstrip
new_reverse_zone ip_network form = do
  let network = stripped_of "network" form
  ttl ← lift (form_ttl "default_ttl" form)
  name_network network ttl (ip_network network)

-- f"{v}"
field_text : Field → Text
unfolding number_text
field_text (num n) = number_text n
field_text (text t) = t
field_text null = codes "None"

-- The target ends with a dot and is never empty, so that the test of it never refuses.
unfoldable pub add_ptr : Signer → Zone → ℕ → Text → Text → Field → Run Site Reply
unfolding insert_record publish put_db quoted ttl_of text_eq refuse_if
add_ptr s zone zone_id host_part target ttl = refuse_if (text_eq host_part []) 400 (
    lift (ttl_of ttl) >>= λ n.
    on_db (insert_record zone_id host_part (codes "PTR") n (("target", text target) ∷ []) none)
    >>= λ id.
        publish s zone_id
          (quoted (codes "Added PTR record ") host_part
            (quoted (codes " -> ") target (quoted (codes " in zone ") zone.name [])))
          (with_id id))

unfoldable pub add_ptr_convenience : Signer → ℕ → Value → Run Site Reply
unfolding zone_found zone_of field field_text stripped add_ptr put_db lstrip rstrip rstrip_dot
    item_or
add_ptr_convenience s zone_id body = with_zone zone_id λ zone. do
  let host_part = strip (field_text (item_or "host_part" (text []) body))
  target ← lift (stripped "target" [] body)
  add_ptr s zone zone_id host_part (rstrip_dot target ++ dot ∷ []) (field "ttl" body)
