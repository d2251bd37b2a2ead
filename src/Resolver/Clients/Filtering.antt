-- ===== src/Resolver/Clients/Filtering.antt =====
-- What `_is_blocked` of app/dnscore/resolver.py lets through and what it blocks.
use nova_dns.Prelude.{◌≡◌, Bool, true, ◌&&◌, inl, inr, ◌↔◌, Bool-cases, IsIn, arith}
use nova_dns.Text.{Text, text_eq, fold_name}
use nova_dns.Text.Split.{text_eq_iff}
use nova_dns.Wire.Types.{codes}
use nova_dns.Db.{Db, BlockEntry, select, exists}
use nova_dns.Resolver.Host.{Host}
use nova_dns.Resolver.Clients.{is_blocked, domain_matches, is_active, blocks_client}
use nova_dns.Db.Finding.{exists-of, of-exists}
use nova_dns.Resolver.Clients.Patterns.{HasName, HasName-of, of-HasName}
use nova_dns.Resolver.Clients.Described.{
  IsActive, IsActive-of, of-IsActive, Blocks, Blocks-of, of-Blocks,
}

module _ (host : Host) (db : Db) (qname client_ip : Text) where
  -- Some entry of type "allow" has the name; which client it is for does not matter.
  abbrev pub IsAllowed : Type 0
  IsAllowed =
      (e : BlockEntry) × IsIn e db.block_entries
      × (e.list_type ≡ codes "allow")
      × HasName host (fold_name qname) e.domain e.is_regex

  -- Some entry of type "block" that is of no list, or of an enabled one, has the name and concerns
  -- the client.
  abbrev pub IsListed : Type 0
  IsListed =
      (e : BlockEntry) × IsIn e db.block_entries
      × (e.list_type ≡ codes "block")
      × IsActive db e
      × Blocks host db (fold_name qname) client_ip e

  -- A name is blocked for a client just when no entry of type "allow" has it, whatever client that
  -- entry is for, and some entry of type "block" has it that concerns the client and is of no
  -- blocklist or of an enabled one. An entry has a name as a regular expression, as the name itself,
  -- or, with "*.", as its end behind a dot; it concerns all clients, or an address, a network or the
  -- members of a group.
  pub is_blocked_iff : (is_blocked host db qname client_ip ≡ true) ↔ ((IsAllowed → ⊥) × IsListed)
  unfolding is_blocked
  is_blocked_iff = (to, from)
    where
      allow_test : BlockEntry → Bool
      allow_test e = domain_matches host (fold_name qname) e.domain e.is_regex

      allows : BlockEntry → Bool
      allows e = text_eq e.list_type (codes "allow")

      blocks : BlockEntry → Bool
      blocks e = text_eq e.list_type (codes "block") && is_active host db e

      block_test : BlockEntry → Bool
      block_test e = blocks_client host db (fold_name qname) client_ip e

      allowed : IsAllowed → exists allow_test (select allows db.block_entries) ≡ true
      allowed (e, i, k, t) =
          exists-of allow_test allows db.block_entries e i
            ((text_eq_iff e.list_type (codes "allow")).1 k)
            (of-HasName host (fold_name qname) e.domain e.is_regex t)

      listed : exists block_test (select blocks db.block_entries) ≡ true → IsListed
      listed h =
          let (e, i, k, t) = of-exists block_test blocks db.block_entries h in
          let typed : text_eq e.list_type (codes "block") ≡ true = ground arith in
          let active : is_active host db e ≡ true = ground arith in
          (
            e,
            i,
            (text_eq_iff e.list_type (codes "block")).0 typed,
            IsActive-of host db e active,
            Blocks-of host db (fold_name qname) client_ip e t,
          )

      to : is_blocked host db qname client_ip ≡ true → (IsAllowed → ⊥) × IsListed
      to h = elim (Bool-cases (exists allow_test (select allows db.block_entries))) [
        | inl found ↦ ground arith
        | inr free ↦ ((λ a. let q = allowed a in cc), listed (ground arith))
      ]

      from : (IsAllowed → ⊥) × IsListed → is_blocked host db qname client_ip ≡ true
      from (n, (e, i, k, active, t)) =
          elim (Bool-cases (exists allow_test (select allows db.block_entries))) [
            | inl found ↦
                let (a, at, typed, has) = of-exists allow_test allows db.block_entries found in
                absurd (
                  n (
                    a,
                    at,
                    (text_eq_iff a.list_type (codes "allow")).0 typed,
                    HasName-of host (fold_name qname) a.domain a.is_regex has,
                  ))
            | inr free ↦
                let typed : text_eq e.list_type (codes "block") ≡ true =
                  (text_eq_iff e.list_type (codes "block")).1 k in
                let on : is_active host db e ≡ true = of-IsActive host db e active in
                rw free (
                  exists-of block_test blocks db.block_entries e i (ground (arith, typed, on))
                    (of-Blocks host db (fold_name qname) client_ip e t))
          ]
