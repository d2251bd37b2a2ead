-- ===== src/RateLimit.antt =====
-- app/dnscore/ratelimit.py: `RateLimiter`, a token bucket for each client address.
-- A time is a count of microseconds and a bucket's level a count of millionths of a token, so that
-- the elapsed time by the rate is a whole number. A level may be negative: a capacity of 0 makes a
-- first level of -1 token, and a clock that is set back takes tokens away.
pub mod Bound
use nova_dns.Prelude.{
  ℕ, zero, suc, ◌+◌, ◌-◌, ◌*◌, ◌/◌, Bool, true, false, Option, none, some, List, [], ◌∷◌, leb, ltb,
  ◌==◌, if◌then◌else◌, length, take,
}
use nova_dns.Prelude.Int.{ℤ, pos, sub_ℕ, ◌+ℤ◌, ltb_ℤ}
use nova_dns.Dict
use nova_dns.Sort.{sorted}
use nova_dns.Text.{Text, text_eq}

-- one token, in millionths
abbrev pub token : ℕ
token = 1_000_000

pub record Bucket : Type 0 where
  pub tokens : ℤ
  pub last : ℕ

pub record RateLimiter : Type 0 where
  pub capacity : ℕ
  pub refill_per_sec : ℕ
  pub buckets : List (Text × Bucket)

unfoldable pub configure : RateLimiter → ℕ → ℕ → RateLimiter
configure r capacity refill_per_sec = record r {
  capacity = capacity;
  refill_per_sec = refill_per_sec;
}

-- min(a, b)
abbrev min_ℤ : ℤ → ℤ → ℤ
min_ℤ a b = if ltb_ℤ b a then b else a

-- min(capacity, tokens + (now - last) * refill_per_sec)
unfoldable pub refilled : ℕ → ℕ → ℕ → Bucket → ℤ
unfolding ◌+ℤ◌
refilled capacity rate now b =
    min_ℤ (pos (capacity * token)) (b.tokens +ℤ sub_ℕ (now * rate) (b.last * rate))

-- The bucket of one client after a request, and whether it is let through.
unfoldable pub spend : ℕ → ℕ → ℕ → Option Bucket → Bucket × Bool
unfolding refilled
spend capacity rate now none =
    (record { tokens = sub_ℕ (capacity * token) token; last = now }, true)
spend capacity rate now (some b) =
    let tokens = refilled capacity rate now b in
    if ltb_ℤ tokens (pos token)
    then (record { tokens = tokens; last = now }, false)
    else (record { tokens = tokens +ℤ sub_ℕ 0 token; last = now }, true)

unfoldable pub allow : RateLimiter → ℕ → Text → RateLimiter × Bool
unfolding spend Dict.get Dict.put text_eq
allow r now client_ip =
    let (bucket, allowed) =
      spend r.capacity r.refill_per_sec now (Dict.get text_eq client_ip r.buckets) in
    if r.refill_per_sec == 0
    then (r, true)
    else (record r { buckets = Dict.put text_eq client_ip bucket r.buckets }, allowed)

abbrev older : Text × Bucket → Text × Bucket → Bool
older (i, a) (j, b) = leb a.last b.last

remove_all : List (Text × Bucket) → List (Text × Bucket) → List (Text × Bucket)
remove_all [] buckets = buckets
remove_all ((ip, _) ∷ old) buckets = remove_all old (Dict.remove text_eq ip buckets)

-- the half of the clients that were seen longest ago goes, when there are too many
unfoldable pub prune : RateLimiter → ℕ → RateLimiter
unfolding remove_all sorted
prune r max_entries =
    if ltb max_entries (length r.buckets)
    then record r {
      buckets = remove_all (take (length r.buckets / 2) (sorted older r.buckets)) r.buckets;
    }
    else r
