-- ===== src/Tests/Caching.antt =====
-- The cache and the rate limiter.
use nova_dns.Prelude.{
  ℕ, ◌+◌, ◌*◌, ◌≤◌, ◌-◌, ◌/◌, ◌≡◌, refl, inl, inr, IsIn, none, some, List, [], ◌∷◌, arith,
  if◌then◌else◌, ltb,
}
use nova_dns.Dict
use nova_dns.Text.{Text, fold_name}
use nova_dns.Wire.Types.{codes}
use nova_dns.Cache.{Entry, Hit, Origin, key, key_eq, get, set, new_cache, second}
use nova_dns.Cache.Laws.{IsValid}
use nova_dns.Cache.History.{Call, set_at, run, latest, run-IsValid}
use nova_dns.Cache.History.Reads.{answer, hit_is_latest, get-set}
use nova_dns.RateLimit.{RateLimiter, token}
use nova_dns.RateLimit.Bound.{granted, granted-le}

-- records that are their own TTL
abbrev own : ℕ → ℕ
own n = n

-- a room for one entry, overwritten once
abbrev calls : List (Call ℕ)
calls =
    set_at 0 (codes "a.") (codes "A") (5 ∷ []) 0 none [] Origin.forward
    ∷ set_at 0 (codes "b") (codes "A") (6 ∷ []) 0 none [] Origin.forward
    ∷ set_at 0 (codes "B.") (codes "A") (7 ∷ []) 0 none [] Origin.forward
    ∷ []

abbrev found : Hit ℕ
found = record {
  records = 7 ∷ [];
  rcode = 0;
  ttl_remaining = 6;
  authority = [];
  origin = Origin.forward;
}

found_hit :
    (get (run own (new_cache 1 60) calls) 1_000_000 1_000_000 (codes "b") (codes "A")).1
    ≡ some found
unfolding get run set
found_hit = refl

hit_is_latest_example :
    (e : Entry ℕ) × (latest own 60 (key (codes "b") (codes "A")) none calls ≡ some e)
    × (1_000_000 ≤ e.expires_at)
    × (found ≡ answer e 1_000_000)
hit_is_latest_example =
    hit_is_latest own 1 60 calls 1_000_000 1_000_000 (codes "b") (codes "A") found (omega arith)
      found_hit

run-IsValid_example : IsValid (run own (new_cache 1 60) calls)
run-IsValid_example =
    run-IsValid own (new_cache 1 60) calls
      (record { room = omega arith; bounded = omega arith; distinct = tt })

same_name : fold_name (codes "A.") ≡ fold_name (codes "a")
unfolding fold_name
same_name = refl

get-set_example :
    let c = new_cache {R = ℕ} 1 60 in
    let c' = set own c 0 (codes "a") (codes "A") (9 ∷ 5 ∷ []) 0 none [] Origin.forward in
    get c' 7 8 (codes "A.") (codes "A") ≡ (
      if ltb (0 + 5 * second) 7
      then (
        record c' {
          store = Dict.remove key_eq (key (codes "a") (codes "A")) c'.store;
          misses = c.misses + 1;
        },
        none,
      )
      else (
        record c' { hits = c.hits + 1 },
        some (record {
          records = 9 ∷ 5 ∷ [];
          rcode = 0;
          ttl_remaining = (0 + 5 * second - 8) / second;
          authority = [];
          origin = Origin.forward;
        }),
      ))
get-set_example =
    get-set own (new_cache 1 60) 0 7 8 5 (codes "a") (codes "A.") (codes "A") (9 ∷ 5 ∷ []) 0 none []
      Origin.forward same_name ((5, inr (inl refl), refl), least)
  where
    least : (q : ℕ) → IsIn q (9 ∷ 5 ∷ []) → 5 ≤ own q
    least q (inl e) = omega arith
    least q (inr (inl e)) = omega arith
    least q (inr (inr i)) = absurd i

abbrev limiter : RateLimiter
limiter = record { capacity = 1; refill_per_sec = 1; buckets = [] }

-- two requests of one client at once, and one of another
abbrev requests : List (Text × ℕ)
requests = (codes "x", 1) ∷ (codes "y", 1) ∷ (codes "x", 2) ∷ []

granted-le_example : granted limiter (codes "x") requests * token + 1 * 1 ≤ 1 * token + 3 * 1
granted-le_example =
    granted-le (codes "x") 3 limiter requests 1 (omega arith) (omega arith)
      (unfold Dict.get in refl) (omega arith, (omega arith, (omega arith, omega arith)))
