-- ===== src/Resolver/Clients/Described.antt =====
-- What the entries of the block lists of app/dnscore/resolver.py say of clients, in words of their own.
use nova_dns.Prelude.{
  ◌≡◌, refl, sym, ◌∙◌, ap, Bool, true, false, not, ◌&&◌, ◌==◌, ==_iff, Option, none, some, [], ◌∷◌,
  ◌++◌, inl, inr, ◌⊎◌, ◌≢◌, subst, Bool-cases, Option-cases, IsIn, arith, drop,
}
use nova_dns.Text.{Text, text_eq, starts_with}
use nova_dns.Text.Split.{text_eq_iff}
use nova_dns.Text.Matching.{starts_with_iff}
use nova_dns.Wire.Types.{codes}
use nova_dns.Db.{Db, BlockEntry, Blocklist, ClientGroup, GroupEntry, select_one, is_set}
use nova_dns.Resolver.Host.{Host}
use nova_dns.Resolver.Clients.{
  has_char, entry_matches, client_in_group, client_matches, column_matches, is_active,
  blocks_client,
}
use nova_dns.Db.Finding.{exists-IsIn, found, exists-of, of-exists}
use nova_dns.Resolver.Clients.Patterns.{HasName, HasName-of, of-HasName}

-- The blocklist of the entry is there and enabled, or the entry is of no list.
abbrev pub IsActive : Db → BlockEntry → Type 0
IsActive db e =
    (e.blocklist_id ≡ none)
    ⊎ (l : Blocklist) × IsIn l db.blocklists × (e.blocklist_id ≡ some l.id) × (l.enabled ≡ true)

module _ (host : Host) where
  -- An entry of a list of clients is the client's address, or a network that has it.
  abbrev pub Covers : Text → Text → Type 0
  Covers ip entry =
      (has_char 47 entry ≡ false) × (ip ≡ entry)
      ⊎ (has_char 47 entry ≡ true) × (host.in_network ip entry ≡ some true)

  -- The first group of the name has an entry that covers the client.
  abbrev pub IsMember : Db → Text → Text → Type 0
  IsMember db ip name =
      (g : ClientGroup) × (e : GroupEntry) × (select_one (λ (h : ClientGroup). text_eq h.name name)
          db.client_groups
        ≡ some g)
      × IsIn e db.client_group_entries
      × (e.group_id ≡ g.id)
      × Covers ip e.cidr_or_ip

  -- A client_match names an address, a network or, behind "group:", a group.
  abbrev pub IsClient : Db → Text → Text → Type 0
  IsClient db ip match =
      (starts_with match (codes "group:") ≡ false) × (match ≢ []) × Covers ip match
      ⊎ (name : Text) × (match ≡ codes "group:" ++ name) × IsMember db ip name

  -- A nullable client_match concerns every client, where it is empty, or the clients it names.
  abbrev pub Concerns : Db → Text → Option Text → Type 0
  Concerns db ip column =
      (column ≡ none)
      ⊎ (column ≡ some [])
      ⊎ (match : Text) × (column ≡ some match) × IsClient db ip match

  pub IsActive-of : (db : Db) (e : BlockEntry) → is_active host db e ≡ true → IsActive db e
  unfolding is_active
  IsActive-of db e h = elim (Option-cases e.blocklist_id) [
    | inl free ↦ inl free
    | inr (i, listed) ↦
        let (l, at, t) =
          found (λ (l : Blocklist). l.id == i && l.enabled) db.blocklists
            (rw (listed, is_active) at h) in
        let same : l.id ≡ i = ground arith in inr (l, at, listed ∙ ap some (sym same), ground arith)
  ]

  pub of-IsActive : (db : Db) (e : BlockEntry) → IsActive db e → is_active host db e ≡ true
  unfolding is_active
  of-IsActive db e (inl free) = rw (free, is_active) refl
  of-IsActive db e (inr (l, at, listed, on)) =
      let same : (l.id == l.id) ≡ true = ground arith in
      rw (listed, is_active)
        (exists-IsIn (λ (k : Blocklist). k.id == l.id && k.enabled) db.blocklists l at
          (ground arith))

  Covers-of : (ip entry : Text) → entry_matches host ip entry ≡ true → Covers ip entry
  unfolding entry_matches
  Covers-of ip entry h = elim (Bool-cases (has_char 47 entry)) [
    | inl network ↦ inr (network, ground arith)
    | inr address ↦ inl (address, (text_eq_iff ip entry).0 (rw (address, entry_matches) at h))
  ]

  of-Covers : (ip entry : Text) → Covers ip entry → entry_matches host ip entry ≡ true
  unfolding entry_matches
  of-Covers ip entry (inl (address, same)) = rw address ((text_eq_iff ip entry).1 same)
  of-Covers ip entry (inr (network, has)) = rw (network, has) refl

  IsMember-of :
      (db : Db) (ip name : Text) → client_in_group host db ip name ≡ true → IsMember db ip name
  unfolding client_in_group
  IsMember-of db ip name h =
      elim (Option-cases (select_one (λ (g : ClientGroup). text_eq g.name name) db.client_groups)) [
        | inl gone ↦ let no : false ≡ true = rw (gone, client_in_group) at h in cc
        | inr (g, first) ↦
            let (e, at, k, t) =
              of-exists (λ (e : GroupEntry). entry_matches host ip e.cidr_or_ip)
                (λ e. e.group_id == g.id) db.client_group_entries
                (rw (first, client_in_group) at h) in
            (g, e, first, at, (==_iff e.group_id g.id).0 k, Covers-of ip e.cidr_or_ip t)
      ]

  of-IsMember :
      (db : Db) (ip name : Text) → IsMember db ip name → client_in_group host db ip name ≡ true
  unfolding client_in_group
  of-IsMember db ip name (g, e, first, at, k, covers) =
      rw (first, client_in_group)
        (exists-of (λ (f : GroupEntry). entry_matches host ip f.cidr_or_ip)
          (λ f. f.group_id == g.id) db.client_group_entries e at ((==_iff e.group_id g.id).1 k)
          (of-Covers ip e.cidr_or_ip covers))

  IsClient-of :
      (db : Db) (ip match : Text) → client_matches host db ip match ≡ true → IsClient db ip match
  unfolding client_matches
  IsClient-of db ip match h = elim (Bool-cases (text_eq match [])) [
    | inl blank ↦ let no : false ≡ true = rw (blank, client_matches) at h in cc
    | inr given ↦ elim (Bool-cases (starts_with match (codes "group:"))) [
      | inl group ↦
          let (name, e) = (starts_with_iff match (codes "group:")).0 group in
          let member : client_in_group host db ip (drop 6 match) ≡ true =
            rw (given, client_matches, group) at h in
          inr (
            name,
            e,
            IsMember-of db ip name
                (ap (λ (t : Text). client_in_group host db ip (drop 6 t)) (sym e) ∙ member),
          )
      | inr plain ↦ inl (
        plain,
        (λ e. cc ((text_eq_iff match []).1 e)),
        Covers-of ip match (rw (given, client_matches, plain) at h),
      )
    ]
  ]

  of-IsClient :
      (db : Db) (ip match : Text) → IsClient db ip match → client_matches host db ip match ≡ true
  unfolding client_matches
  of-IsClient db ip match (inl (plain, given, covers)) = elim (Bool-cases (text_eq match [])) [
    | inl blank ↦ absurd (given ((text_eq_iff match []).0 blank))
    | inr full ↦ rw (full, client_matches, plain) (of-Covers ip match covers)
  ]
  of-IsClient db ip match (inr (name, e, member)) =
      subst (λ (t : Text). client_matches host db ip t ≡ true) (sym e)
        (of-IsMember db ip name member)

  abbrev concern_test : Db → Text → Option Text → Bool
  concern_test db ip column = not (is_set column && not (column_matches host db ip column))

  Concerns-of :
      (db : Db) (ip : Text) (column : Option Text)
      → concern_test db ip column ≡ true
      → Concerns db ip column
  unfolding is_set column_matches
  Concerns-of db ip none h = inl refl
  Concerns-of db ip (some []) h = inr (inl refl)
  Concerns-of db ip (some (c ∷ s)) h =
      inr (inr (c ∷ s, refl, IsClient-of db ip (c ∷ s) (ground arith)))

  of-Concerns :
      (db : Db) (ip : Text) (column : Option Text)
      → Concerns db ip column
      → concern_test db ip column ≡ true
  unfolding is_set column_matches
  of-Concerns db ip column (inl e) = rw e refl
  of-Concerns db ip column (inr (inl e)) = rw e refl
  of-Concerns db ip column (inr (inr (match, e, client))) =
      let t = of-IsClient db ip match client in
      elim (Bool-cases (is_set (some match))) [
        | inl given ↦ rw (e, given, t) refl
        | inr blank ↦ rw (e, blank) refl
      ]

  -- The entry concerns the client and has the name.
  abbrev pub Blocks : Db → Text → Text → BlockEntry → Type 0
  Blocks db name ip e = Concerns db ip e.client_match × HasName host name e.domain e.is_regex

  pub Blocks-of :
      (db : Db) (name ip : Text) (e : BlockEntry)
      → blocks_client host db name ip e ≡ true
      → Blocks db name ip e
  unfolding blocks_client
  Blocks-of db name ip e h = (
    Concerns-of db ip e.client_match (ground arith),
    HasName-of host name e.domain e.is_regex (ground arith),
  )

  pub of-Blocks :
      (db : Db) (name ip : Text) (e : BlockEntry)
      → Blocks db name ip e
      → blocks_client host db name ip e ≡ true
  unfolding blocks_client
  of-Blocks db name ip e (c, n) =
      let t = of-Concerns db ip e.client_match c in
      let d = of-HasName host name e.domain e.is_regex n in ground (arith, t, d)
