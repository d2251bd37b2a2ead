-- ===== src/Cache/History.antt =====
-- Runs of the cache against an ideal one that forgets nothing, and single stores read back.
pub mod Reads
use nova_dns.Prelude.{
  ℕ, zero, suc, ◌+◌, ◌≤◌, ◌<◌, ◌≡◌, refl, ◌⊎◌, inl, inr, Bool, true, false, Option, none, some,
  List, [], ◌∷◌, arith, if◌then◌else◌, Bool-cases, Option-cases, ltb, leb, length, sym, ◌∙◌,
}
use mathlib.Core.Path.{subst}
use nova_dns.Dict
use nova_dns.Dict.Laws.{
  Decides, Distinct, get-put_self, get-put_ne, get-drop, get-remove_self, get-remove_ne,
}
use nova_dns.Text.{Text}
use nova_dns.Cache.{
  DnsCache, Entry, Hit, Key, Origin, key_eq, key, second, get, set, clear, make_room, new_entry,
  new_cache,
}
use nova_dns.Cache.Laws.{
  IsValid, key_eq-Decides, store-get, get-IsValid, set-IsValid, clear-IsValid,
}

-- A call of the cache, with the times that it reads.
pub data Call (R : Type 0) : Type 0 where
  get_at : ℕ → ℕ → Text → Text → Call R
  set_at : ℕ → Text → Text → List R → ℕ → Option ℕ → List R → Origin → Call R
  clear_all : Call R

module _ {R : Type 0} (ttl_of : R → ℕ) where
  pub step : DnsCache R → Call R → DnsCache R
  step c (get_at now later name rtype) = (get c now later name rtype).0
  step c (set_at t name rtype records rcode ttl authority origin) =
      set ttl_of c t name rtype records rcode ttl authority origin
  step c clear_all = clear c

  unfoldable pub run : DnsCache R → List (Call R) → DnsCache R
  unfolding step
  run c [] = c
  run c (call ∷ calls) = run (step c call) calls

  -- The entry that the last `set` of the key made, unless a `clear` came after it.
  pub note : ℕ → Key → Option (Entry R) → Call R → Option (Entry R)
  note negative_ttl k before (get_at now later name rtype) = before
  note negative_ttl k before (set_at t name rtype records rcode ttl authority origin) =
      if key_eq (key name rtype) k
      then some (new_entry ttl_of negative_ttl t records rcode ttl authority origin)
      else before
  note negative_ttl k before clear_all = none

  unfoldable pub latest : ℕ → Key → Option (Entry R) → List (Call R) → Option (Entry R)
  unfolding note
  latest negative_ttl k before [] = before
  latest negative_ttl k before (call ∷ calls) =
      latest negative_ttl k (note negative_ttl k before call) calls

  -- The cache holds the noted entry of the key, or none.
  abbrev pub Holds : DnsCache R → Key → Option (Entry R) → Type 0
  Holds c k noted = (Dict.get key_eq k c.store ≡ none) ⊎ (Dict.get key_eq k c.store ≡ noted)

  step-IsValid : (c : DnsCache R) (call : Call R) → IsValid c → IsValid (step c call)
  unfolding step
  step-IsValid c (get_at now later name rtype) v = get-IsValid c now later name rtype v
  step-IsValid c (set_at t name rtype records rcode ttl authority origin) v =
      set-IsValid ttl_of c t name rtype records rcode ttl authority origin v
  step-IsValid c clear_all v = clear-IsValid v

  -- Whatever the calls, the cache never holds more than `max_entries`, and no key twice.
  pub run-IsValid : (c : DnsCache R) (calls : List (Call R)) → IsValid c → IsValid (run c calls)
  unfolding run
  run-IsValid c [] v = v
  run-IsValid c (call ∷ calls) v = run-IsValid (step c call) calls (step-IsValid c call v)

  make_room-Holds :
      (c : DnsCache R) (k : Key) (noted : Option (Entry R))
      → IsValid c
      → Holds c k noted
      → (Dict.get key_eq k (make_room c) ≡ none) ⊎ (Dict.get key_eq k (make_room c) ≡ noted)
  unfolding make_room
  make_room-Holds c k noted v h = elim (Bool-cases (leb c.max_entries (length c.store))) [
    | inl full ↦ rw full (kept (get-drop key_eq key_eq-Decides _ k c.store v.distinct) h)
    | inr free ↦ rw free h
  ]
    where
      kept :
          {a b n : Option (Entry R)}
          → (b ≡ none) ⊎ (b ≡ a)
          → (a ≡ none) ⊎ (a ≡ n)
          → (b ≡ none) ⊎ (b ≡ n)
      kept (inl p) q = inl p
      kept (inr p) (inl q) = inl (p ∙ q)
      kept (inr p) (inr q) = inr (p ∙ q)

  set-Holds :
      (c : DnsCache R) (k : Key) (noted : Option (Entry R)) (call : Call R)
      → IsValid c
      → Holds c k noted
      → Holds (step c call) k (note c.negative_ttl k noted call)
  unfolding step note set get clear
  set-Holds c k noted (set_at t name rtype records rcode ttl authority origin) v h =
      elim (Bool-cases (key_eq (key name rtype) k)) [
        | inl same ↦ rw same (
            rw (← (key_eq-Decides (key name rtype) k).0 same)
              (inr (get-put_self key_eq key_eq-Decides (key name rtype) _ (make_room c))))
        | inr other ↦ rw other (
            rw (get-put_ne key_eq key_eq-Decides (key name rtype) k _ (make_room c) other)
              (make_room-Holds c k noted v h))
      ]
  set-Holds c k noted clear_all v h = inl refl
  set-Holds c k noted (get_at now later name rtype) v h = elim (store-get c now later name rtype) [
    | inl same ↦ rw same h
    | inr removed ↦ rw removed (elim (Bool-cases (key_eq (key name rtype) k)) [
      | inl e ↦ inl (
          rw (← (key_eq-Decides (key name rtype) k).0 e)
            (get-remove_self key_eq key_eq-Decides (key name rtype) c.store v.distinct))
      | inr e ↦ rw (get-remove_ne key_eq key_eq-Decides (key name rtype) k c.store e) h
    ])
  ]

  negative_ttl-step : (c : DnsCache R) (call : Call R) → (step c call).negative_ttl ≡ c.negative_ttl
  unfolding step get set clear
  negative_ttl-step c (get_at now later name rtype) = ground arith
  negative_ttl-step c (set_at t name rtype records rcode ttl authority origin) = refl
  negative_ttl-step c clear_all = refl

  -- After any calls the cache holds, for each key, the entry of the last `set` since the last
  -- `clear`, or nothing: an entry that was overwritten or cleared is never there again.
  pub run-Holds :
      (n : ℕ) (c : DnsCache R) (k : Key) (noted : Option (Entry R)) (calls : List (Call R))
      → c.negative_ttl ≡ n
      → IsValid c
      → Holds c k noted
      → Holds (run c calls) k (latest n k noted calls)
  unfolding run latest
  run-Holds n c k noted [] e v h = h
  run-Holds n c k noted (call ∷ calls) e v h =
      run-Holds n (step c call) k (note n k noted call) calls (negative_ttl-step c call ∙ e)
        (step-IsValid c call v)
        (subst (λ m. Holds (step c call) k (note m k noted call)) e (set-Holds c k noted call v h))
