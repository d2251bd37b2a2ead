-- ===== src/Cache/Laws.antt =====
-- What `set` and `get` of the cache promise: its size, distinct keys, hits and expiry.
use Prim.Native.Nat.{max}
use nova_dns.Prelude.{
  ℕ, ◌/◌, ◌≤◌, ◌<◌, ◌≡◌, ◌⊎◌, inl, inr, true, Option, List, arith, length, length-drop, Bool-cases,
  leb, ltb, Option-cases,
}
use nova_dns.Dict
use nova_dns.Dict.Laws.{
  Decides, Distinct, length-put-le, length-remove-le, Distinct-put, Distinct-remove, Distinct-drop,
}
use nova_dns.Text.{Text}
use nova_dns.Text.Split.{text_eq_iff, text_eq_refl}
use nova_dns.Cache.{DnsCache, Key, Origin, key_eq, key, get, set, clear, make_room, new_entry}

pub key_eq-Decides : Decides key_eq
unfolding key_eq
key_eq-Decides (a, b) (c, d) = (to, from)
  where
    to : (key_eq (a, b) (c, d) ≡ true) → ◌≡◌ {A = Key} (a, b) (c, d)
    to h = ground (arith, text_eq_iff a c, text_eq_iff b d)

    from : ◌≡◌ {A = Key} (a, b) (c, d) → key_eq (a, b) (c, d) ≡ true
    from h = ground (arith, text_eq_refl a, text_eq_refl b, text_eq_iff a c, text_eq_iff b d)

module _ {R : Type 0} where
  -- Never more entries than the limit, and no key twice.
  pub record IsValid (c : DnsCache R) : Type 0 where
    pub room : 0 < c.max_entries
    pub bounded : length c.store ≤ c.max_entries
    pub distinct : Distinct key_eq c.store

  length-make_room-lt : (c : DnsCache R) → IsValid c → length (make_room c) < c.max_entries
  unfolding make_room
  length-make_room-lt c v =
      ground (arith, v.room, v.bounded, length-drop (max 1 (c.max_entries / 20)) c.store)

  Distinct-make_room : (c : DnsCache R) → IsValid c → Distinct key_eq (make_room c)
  unfolding make_room
  Distinct-make_room c v = elim (Bool-cases (leb c.max_entries (length c.store))) [
    | inl full ↦ rw full (Distinct-drop key_eq key_eq-Decides _ c.store v.distinct)
    | inr free ↦ rw free v.distinct
  ]

  pub clear-IsValid : {c : DnsCache R} → IsValid c → IsValid (clear c)
  unfolding clear
  clear-IsValid v = record { room = v.room; bounded = omega arith; distinct = tt }

  pub get-IsValid :
      (c : DnsCache R) (now later : ℕ) (name rtype : Text)
      → IsValid c
      → IsValid (get c now later name rtype).0
  unfolding get
  get-IsValid c now later name rtype v =
      elim (Option-cases (Dict.get key_eq (key name rtype) c.store)) [
        | inl gone ↦
            rw (gone, get) (record { room = v.room; bounded = v.bounded; distinct = v.distinct })
        | inr (e, there) ↦
            rw (there, get)
              (elim (Bool-cases (ltb e.expires_at now)) [
                | inl old ↦ rw old (record {
                  room = v.room;
                  bounded =
                      omega
                        (arith, length-remove-le key_eq key_eq-Decides (key name rtype) c.store);
                  distinct =
                      Distinct-remove key_eq key_eq-Decides (key name rtype) c.store v.distinct;
                })
                | inr fresh ↦
                    rw fresh (record { room = v.room; bounded = v.bounded; distinct = v.distinct })
              ])
      ]

  -- A lookup leaves the store alone, or takes out the entry that it found expired.
  pub store-get :
      (c : DnsCache R) (now later : ℕ) (name rtype : Text)
      → ((get c now later name rtype).0.store ≡ c.store)
        ⊎ ((get c now later name rtype).0.store ≡ Dict.remove key_eq (key name rtype) c.store)
  unfolding get
  store-get c now later name rtype =
      elim (Option-cases (Dict.get key_eq (key name rtype) c.store)) [
        | inl gone ↦ inl (rw (gone, get))
        | inr (e, there) ↦
            rw (there, get)
              (elim (Bool-cases (ltb e.expires_at now)) [
                | inl old ↦ inr (rw old)
                | inr fresh ↦ inl (rw fresh)
              ])
      ]

  module _ (ttl_of : R → ℕ) (c : DnsCache R) (t : ℕ) (name rtype : Text) (records : List R)
      (rcode : ℕ) (ttl : Option ℕ) (authority : List R) (origin : Origin) where
    pub set-IsValid :
        IsValid c → IsValid (set ttl_of c t name rtype records rcode ttl authority origin)
    unfolding set
    set-IsValid v = record {
      room = v.room;
      bounded = omega (
        arith,
        length-put-le key_eq key_eq-Decides (key name rtype)
            (new_entry ttl_of c.negative_ttl t records rcode ttl authority origin) (make_room c),
        length-make_room-lt c v,
      );
      distinct =
          Distinct-put key_eq key_eq-Decides (key name rtype) _ (make_room c)
            (Distinct-make_room c v);
    }
