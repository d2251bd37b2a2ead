-- ===== src/Resolver/Clients.antt =====
-- Clients and filters of app/dnscore/resolver.py: `is_allowed_by_acl`, `_client_matches`,
-- `_client_in_group`, `_domain_matches` and `_is_blocked`.
pub mod Patterns
pub mod Described
pub mod Filtering
use nova_dns.Prelude.{
  ℕ, Bool, true, false, not, ◌&&◌, ◌||◌, Option, none, some, List, [], ◌∷◌, ◌++◌, ◌==◌,
  if◌then◌else◌, drop, length,
}
use nova_dns.Text.{Text, text_eq, fold_name, starts_with, ends_with, dot}
use nova_dns.Wire.Types.{codes}
use nova_dns.Wire.Rdata.{strip}
use nova_dns.Wire.Rdata.Encode.{split_at}
use nova_dns.Db.{
  Db, BlockEntry, Blocklist, ClientGroup, GroupEntry, select, select_one, exists, is_set,
}
use nova_dns.Resolver.Host.{Host}

-- c in s
unfoldable pub has_char : ℕ → Text → Bool
has_char c [] = false
has_char c (d ∷ s) = c == d || has_char c s

-- qname == suffix or qname.endswith("." + suffix)
unfoldable pub is_under : Text → Text → Bool
unfolding text_eq ends_with
is_under qname suffix = text_eq qname suffix || ends_with qname (dot ∷ suffix)

module _ (host : Host) where
  -- an address or a network of a list; an entry that raises does not match
  unfoldable pub entry_matches : Text → Text → Bool
  unfolding has_char text_eq
  entry_matches client_ip entry =
      if has_char 47 entry
      then (elim (host.in_network client_ip entry) [ none ↦ false | some b ↦ b ])
      else text_eq client_ip entry

  acl_matches : Text → List Text → Bool
  unfolding entry_matches text_eq
  acl_matches client_ip [] = false
  acl_matches client_ip (e ∷ es) =
      let entry = strip e in
      (if text_eq entry [] then false else entry_matches client_ip entry)
      || acl_matches client_ip es

  -- `is_allowed_by_acl`, given the setting "acl_networks"
  unfoldable pub allowed_by_acl : Text → Text → Bool
  unfolding acl_matches split_at text_eq
  allowed_by_acl raw client_ip =
      if text_eq raw []
      then true
      else if not (host.is_address client_ip)
      then true
      else acl_matches client_ip (split_at 44 [] raw)

  unfoldable pub client_in_group : Db → Text → Text → Bool
  unfolding select_one select exists entry_matches text_eq
  client_in_group db client_ip group_name =
      elim (select_one (λ g. text_eq g.name group_name) db.client_groups) [
        | none ↦ false
        | some g ↦
            exists (λ e. entry_matches client_ip e.cidr_or_ip)
              (select (λ e. e.group_id == g.id) db.client_group_entries)
      ]

  unfoldable pub client_matches : Db → Text → Text → Bool
  unfolding client_in_group entry_matches starts_with text_eq
  client_matches db client_ip match =
      if text_eq match []
      then false
      else if starts_with match (codes "group:")
      then client_in_group db client_ip (drop 6 match)
      else entry_matches client_ip match

  -- `client_matches` on a nullable column
  unfoldable pub column_matches : Db → Text → Option Text → Bool
  unfolding client_matches
  column_matches db client_ip none = false
  column_matches db client_ip (some m) = client_matches db client_ip m

  unfoldable pub domain_matches : Text → Text → Bool → Bool
  unfolding fold_name starts_with is_under text_eq
  domain_matches qname pattern_text is_regex =
      let folded = fold_name pattern_text in
      if is_regex
      then (elim (host.re_search folded qname) [ none ↦ false | some b ↦ b ])
      else if starts_with folded (codes "*.")
      then is_under qname (drop 2 folded)
      else text_eq qname folded

  -- the blocklist of an entry is enabled; an entry of no list always counts
  unfoldable pub is_active : Db → BlockEntry → Bool
  unfolding exists
  is_active db e = elim e.blocklist_id [
    | none ↦ true
    | some i ↦ exists (λ (l : Blocklist). l.id == i && l.enabled) db.blocklists
  ]

  unfoldable pub blocks_client : Db → Text → Text → BlockEntry → Bool
  unfolding is_set column_matches domain_matches
  blocks_client db qname client_ip e =
      not (is_set e.client_match && not (column_matches db client_ip e.client_match))
      && domain_matches qname e.domain e.is_regex

  unfoldable pub is_blocked : Db → Text → Text → Bool
  unfolding blocks_client exists select fold_name domain_matches is_active text_eq
  is_blocked db qname client_ip =
      let name = fold_name qname in
      let allow = select (λ e. text_eq e.list_type (codes "allow")) db.block_entries in
      let block =
        select (λ e. text_eq e.list_type (codes "block") && is_active db e) db.block_entries in
      if exists (λ e. domain_matches name e.domain e.is_regex) allow
      then false
      else exists (blocks_client db name client_ip) block
