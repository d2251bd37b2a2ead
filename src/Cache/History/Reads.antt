-- ===== src/Cache/History/Reads.antt =====
-- What a lookup in the cache of app/dnscore/cache.py returns.
use nova_dns.Prelude.{
  ℕ, ◌+◌, ◌-◌, ◌*◌, ◌/◌, ◌≤◌, ◌<◌, ◌≡◌, refl, inl, inr, Option, none, some, List, arith, Bool-cases,
  ltb, sym, ◌∙◌, ap, IsIn, [], ◌∷◌, if◌then◌else◌,
}
use nova_dns.Dict
use nova_dns.Dict.Laws.{get-put_self}
use nova_dns.Text.{Text, fold_name}
use nova_dns.Cache.{
  DnsCache, Entry, Hit, Origin, key_eq, key, second, get, set, effective_ttl, min_ttl, new_entry,
  make_room, new_cache,
}
use nova_dns.Cache.Laws.{key_eq-Decides}
use nova_dns.Cache.History.{Call, run, latest, run-Holds}

key_same :
    (name name' rtype : Text) → fold_name name' ≡ fold_name name → key name' rtype ≡ key name rtype
unfolding key
key_same name name' rtype same = rw same

module _ {R : Type 0} where
  -- The answer that an entry gives at a time.
  abbrev pub answer : Entry R → ℕ → Hit R
  answer e later = record {
    records = e.records;
    rcode = e.rcode;
    ttl_remaining = (e.expires_at - later) / second;
    authority = e.authority;
    origin = e.origin;
  }

  pub get-hit :
      (c : DnsCache R) (now later : ℕ) (name rtype : Text) (h : Hit R)
      → (get c now later name rtype).1 ≡ some h
      → (e : Entry R) × (Dict.get key_eq (key name rtype) c.store ≡ some e)
        × (now ≤ e.expires_at)
        × (h ≡ answer e later)
  unfolding get
  get-hit c now later name rtype h r = ground arith

  pub get_fresh :
      (c : DnsCache R) (now later : ℕ) (name rtype : Text) (e : Entry R)
      → Dict.get key_eq (key name rtype) c.store ≡ some e
      → now ≤ e.expires_at
      → get c now later name rtype ≡ (record c { hits = c.hits + 1 }, some (answer e later))
  unfolding get
  get_fresh c now later name rtype e r f = ground arith

  pub get_expired :
      (c : DnsCache R) (now later : ℕ) (name rtype : Text) (e : Entry R)
      → Dict.get key_eq (key name rtype) c.store ≡ some e
      → e.expires_at < now
      → get c now later name rtype ≡ (
        record c { store = Dict.remove key_eq (key name rtype) c.store; misses = c.misses + 1 },
        none,
      )
  unfolding get
  get_expired c now later name rtype e r f = ground arith

  module _ (ttl_of : R → ℕ) where
    -- A hit, after any calls on a new cache, is the entry that the last `set` of this name and type
    -- since the last `clear` made, and that entry has not expired.
    pub hit_is_latest :
        (max_entries negative_ttl : ℕ) (calls : List (Call R)) (now later : ℕ) (name rtype : Text)
        (h : Hit R)
        → 0 < max_entries
        → (get (run ttl_of (new_cache max_entries negative_ttl) calls) now later name rtype).1
          ≡ some h
        → (e : Entry R) × (latest ttl_of negative_ttl (key name rtype) none calls ≡ some e)
          × (now ≤ e.expires_at)
          × (h ≡ answer e later)
    unfolding Dict.get
    hit_is_latest m n calls now later name rtype h room r =
        let (e, there, fresh, same) = get-hit _ now later name rtype h r in
        elim (run-Holds ttl_of n (new_cache m n) (key name rtype) none calls refl
          (record { room = room; bounded = omega arith; distinct = tt }) (inl refl)) [
            | inl gone ↦ absurd (cc (sym gone ∙ there))
            | inr kept ↦ (e, sym kept ∙ there, fresh, same)
          ]

    -- How many seconds records last: the time for negative answers where there are none; the TTL
    -- that is given; or else the least of their TTLs.
    abbrev pub Lasts : ℕ → List R → Option ℕ → ℕ → Type 0
    Lasts negative_ttl [] ttl life = life ≡ negative_ttl
    Lasts negative_ttl (r ∷ rs) (some ttl) life = life ≡ ttl
    Lasts negative_ttl (r ∷ rs) none life =
        ((q : R) × IsIn q (r ∷ rs) × (life ≡ ttl_of q))
        × ((q : R) → IsIn q (r ∷ rs) → life ≤ ttl_of q)

    min_ttl-le : (r : R) (rs : List R) (q : R) → IsIn q (r ∷ rs) → min_ttl ttl_of r rs ≤ ttl_of q
    unfolding min_ttl
    min_ttl-le r [] q (inl e) = let t = ap ttl_of e in omega (arith, t)
    min_ttl-le r [] q (inr i) = absurd i
    min_ttl-le r (s ∷ rs) q (inl e) = let t = ap ttl_of e in omega (arith, t)
    min_ttl-le r (s ∷ rs) q (inr i) = let t = min_ttl-le s rs q i in omega (arith, t)

    le-min_ttl :
        (n : ℕ) (r : R) (rs : List R)
        → ((q : R) → IsIn q (r ∷ rs) → n ≤ ttl_of q)
        → n ≤ min_ttl ttl_of r rs
    unfolding min_ttl
    le-min_ttl n r [] h = h r (inl refl)
    le-min_ttl n r (s ∷ rs) h =
        let a = h r (inl refl) in
        let b = le-min_ttl n s rs (λ q i. h q (inr i)) in omega (arith, a, b)

    effective_ttl-Lasts :
        (negative_ttl : ℕ) (records : List R) (ttl : Option ℕ) (life : ℕ)
        → Lasts negative_ttl records ttl life
        → effective_ttl ttl_of negative_ttl records ttl ≡ life
    unfolding effective_ttl
    effective_ttl-Lasts n [] ttl life h = sym h
    effective_ttl-Lasts n (r ∷ rs) (some ttl) life h = sym h
    effective_ttl-Lasts n (r ∷ rs) none life ((q, i, e), least) =
        let a = min_ttl-le r rs q i in let b = le-min_ttl life r rs least in omega (arith, a, b, e)

    min_ttl-IsIn :
        (r : R) (rs : List R) → (q : R) × IsIn q (r ∷ rs) × (min_ttl ttl_of r rs ≡ ttl_of q)
    unfolding min_ttl
    min_ttl-IsIn r [] = (r, inl refl, refl)
    min_ttl-IsIn r (s ∷ rs) = elim (Bool-cases (ltb (ttl_of r) (min_ttl ttl_of s rs))) [
      | inl less ↦ (r, inl refl, ground arith)
      | inr more ↦ let (q, i, e) = min_ttl-IsIn s rs in (q, inr i, ground (arith, e))
    ]

    pub Lasts-effective_ttl :
        (negative_ttl : ℕ) (records : List R) (ttl : Option ℕ)
        → Lasts negative_ttl records ttl (effective_ttl ttl_of negative_ttl records ttl)
    unfolding effective_ttl
    Lasts-effective_ttl n [] ttl = refl
    Lasts-effective_ttl n (r ∷ rs) (some ttl) = refl
    Lasts-effective_ttl n (r ∷ rs) none = (min_ttl-IsIn r rs, min_ttl-le r rs)

    -- What was stored, the records, the code, the authority section and their origin, is read back
    -- while it lasts, under every spelling of the name that differs in letter case and closing dots
    -- alone, and whatever else the cache holds; the TTL of the answer is what is then left. After
    -- that time the lookup misses, and the entry is taken out. Records last for the TTL that is
    -- given, or the least of theirs; an answer without records lasts for the negative TTL.
    pub get-set :
        (c : DnsCache R) (t now later life : ℕ) (name name' rtype : Text) (records : List R)
        (rcode : ℕ) (ttl : Option ℕ) (authority : List R) (origin : Origin)
        → fold_name name' ≡ fold_name name
        → Lasts c.negative_ttl records ttl life
        → let c' = set ttl_of c t name rtype records rcode ttl authority origin in
          get c' now later name' rtype ≡ (
            if ltb (t + life * second) now
            then (
              record c' {
                store = Dict.remove key_eq (key name rtype) c'.store;
                misses = c.misses + 1;
              },
              none,
            )
            else (
              record c' { hits = c.hits + 1 },
              some (record {
                records = records;
                rcode = rcode;
                ttl_remaining = (t + life * second - later) / second;
                authority = authority;
                origin = origin;
              }),
            ))
    unfolding set new_entry
    get-set c t now later life name name' rtype records rcode ttl authority origin same lasts =
        let e = new_entry ttl_of c.negative_ttl t records rcode ttl authority origin in
        let c' = set ttl_of c t name rtype records rcode ttl authority origin in
        let there : Dict.get key_eq (key name' rtype) c'.store ≡ some e =
          rw (key_same name name' rtype same)
            (get-put_self key_eq key_eq-Decides (key name rtype) e (make_room c)) in
        let ends : e.expires_at ≡ t + life * second =
          ap (λ n. t + n * second) (effective_ttl-Lasts c.negative_ttl records ttl life lasts) in
        elim (Bool-cases (ltb (t + life * second) now)) [
          | inl old ↦
              rw (get_expired c' now later name' rtype e there (ground (arith, ends)))
                (rw (key_same name name' rtype same, old))
          | inr new ↦
              rw (get_fresh c' now later name' rtype e there (ground (arith, ends)), new)
                (ap
                  (λ (n : ℕ). (
                    record c' { hits = c.hits + 1 },
                    some (record {
                      records = records;
                      rcode = rcode;
                      ttl_remaining = (n - later) / second;
                      authority = authority;
                      origin = origin;
                    }),
                  ))
                  ends)
        ]
