-- ===== src/RateLimit/Bound.antt =====
-- How many requests of a client the limiter lets through.
use Prim.Native.Nat.{min}
use nova_dns.Prelude.{
  ℕ, ◌+◌, ◌-◌, ◌*◌, ◌≤◌, ◌<◌, ◌≡◌, inl, inr, Bool, true, false, none, some, List, [], ◌∷◌, arith,
  ltb, ◌&&◌, if◌then◌else◌, Bool-cases, ◌∙◌, ap,
}
use nova_dns.Prelude.Int.{pos, ◌+ℤ◌}
use nova_dns.Dict
use nova_dns.Dict.Laws.{get-put_self, get-put_ne}
use nova_dns.Text.{Text, text_eq}
use nova_dns.Text.Split.{text_eq_iff}
use nova_dns.RateLimit.{Bucket, RateLimiter, token, refilled, spend, allow}

-- A bucket that holds `level` millionths of a token, and not more than the capacity.
pub record Holds (capacity level : ℕ) (b : Bucket) : Type 0 where
  pub level_is : b.tokens ≡ pos level
  pub within : level ≤ capacity * token

mul_mono : (a b r : ℕ) → a ≤ b → a * r ≤ b * r
mul_mono a b r h = grind arith

-- The result of one request on a bucket with a level: what is let through is paid for.
record Paid (capacity rate now level last : ℕ) (r : Bucket × Bool) : Type 0 where
  left : ℕ
  holds : Holds capacity left r.0
  stamped : r.0.last ≡ now
  paid : left + (if r.1 then token else 0) + last * rate ≤ level + now * rate

-- the level after the refill, and after the request
available : ℕ → ℕ → ℕ → ℕ → ℕ → ℕ
available capacity rate now level last = min (capacity * token) (level + (now * rate - last * rate))

left_of : ℕ → ℕ
left_of level = if ltb level token then level else level - token

refilled-available :
    (capacity rate now level : ℕ) (b : Bucket)
    → Holds capacity level b
    → b.last ≤ now
    → refilled capacity rate now b ≡ pos (available capacity rate now level b.last)
unfolding refilled ◌+ℤ◌ available
refilled-available capacity rate now level b h le =
    ground (arith, h.level_is, mul_mono b.last now rate)

spend-Paid :
    (capacity rate now level : ℕ) (b : Bucket)
    → Holds capacity level b
    → b.last ≤ now
    → Paid capacity rate now level b.last (spend capacity rate now (some b))
unfolding spend left_of available ◌+ℤ◌
spend-Paid capacity rate now level b h le =
    rw (refilled-available capacity rate now level b h le, spend)
      (record {
        left = left_of (available capacity rate now level b.last);
        holds = ground arith;
        stamped = ground arith;
        paid = ground (arith, mul_mono b.last now rate);
      })

-- A request of each client at its time. `granted` counts those of `ip` that are let through.
pub granted : RateLimiter → Text → List (Text × ℕ) → ℕ
granted r ip [] = 0
granted r ip ((i, now) ∷ requests) =
    let (r', allowed) = allow r now i in
    (if text_eq i ip && allowed then 1 else 0) + granted r' ip requests

-- The times are in order, and between `start` and `end`.
abbrev pub Within : ℕ → ℕ → List (Text × ℕ) → Type 0
Within start end [] = start ≤ end
Within start end ((i, now) ∷ requests) = (start ≤ now) × Within now end requests

allow-spend :
    (r : RateLimiter) (now : ℕ) (i : Text)
    → 0 < r.refill_per_sec
    → allow r now i ≡ (
      record r {
        buckets =
            Dict.put text_eq i
              (spend r.capacity r.refill_per_sec now (Dict.get text_eq i r.buckets)).0
              r.buckets;
      },
      (spend r.capacity r.refill_per_sec now (Dict.get text_eq i r.buckets)).1,
    )
unfolding allow
allow-spend r now i h = ground arith

-- What the limiter becomes when client `i` is charged for a request.
abbrev charged : RateLimiter → Text → Bucket → RateLimiter
charged r i b = record r { buckets = Dict.put text_eq i b r.buckets }

granted-cons :
    (r : RateLimiter) (ip i : Text) (now : ℕ) (requests : List (Text × ℕ))
    → 0 < r.refill_per_sec
    → let (b, allowed) = spend r.capacity r.refill_per_sec now (Dict.get text_eq i r.buckets) in
      granted r ip ((i, now) ∷ requests)
      ≡ (if text_eq i ip && allowed then 1 else 0) + granted (charged r i b) ip requests
unfolding granted
granted-cons r ip i now requests h = rw (allow-spend r now i h)

settle :
    (allowed : Bool) (rest left last' last now rate level e : ℕ)
    → last' ≡ now
    → left + (if allowed then token else 0) + last * rate ≤ level + now * rate
    → rest * token + last' * rate ≤ left + e
    → ((if true && allowed then 1 else 0) + rest) * token + last * rate ≤ level + e
settle true rest left last' last now rate level e s p h =
    let q : last' * rate ≡ now * rate = ap (λ k. k * rate) s in omega arith
settle false rest left last' last now rate level e s p h =
    let q : last' * rate ≡ now * rate = ap (λ k. k * rate) s in omega arith

first-Holds :
    (capacity rate now : ℕ)
    → 0 < capacity
    → Holds capacity (capacity * token - token) (spend capacity rate now none).0
unfolding spend
first-Holds capacity rate now h = ground arith

module _ (ip : Text) (end : ℕ) where
  -- Requests of a client whose bucket has a level: the level and the refill pay for them.
  granted-known :
      (r : RateLimiter) (requests : List (Text × ℕ)) (start level : ℕ) (b : Bucket)
      → 0 < r.refill_per_sec
      → Dict.get text_eq ip r.buckets ≡ some b
      → Holds r.capacity level b
      → b.last ≤ start
      → Within start end requests
      → granted r ip requests * token + b.last * r.refill_per_sec ≤ level + end * r.refill_per_sec
  granted-known r [] start level b rate there h le w =
      unfold granted in omega (arith, mul_mono b.last end r.refill_per_sec (omega arith))
  granted-known r ((i, now) ∷ requests) start level b rate there h le w =
      elim (Bool-cases (text_eq i ip)) [
        | inl same ↦
            rw (granted-cons r ip i now requests rate, same, (text_eq_iff i ip).0 same, there)
              (let (b', allowed) = spend r.capacity r.refill_per_sec now (some b) in
                let p = spend-Paid r.capacity r.refill_per_sec now level b h (omega arith) in
                let ih =
                  granted-known (charged r ip b') requests now p.left b' rate
                    (get-put_self text_eq text_eq_iff ip b' r.buckets) p.holds
                    (omega (arith, p.stamped)) w.1 in
                settle allowed _ p.left b'.last b.last now r.refill_per_sec level _ p.stamped p.paid
                  ih)
        | inr other ↦
            rw (granted-cons r ip i now requests rate, other)
              (let b' = (spend r.capacity r.refill_per_sec now (Dict.get text_eq i r.buckets)).0 in
                omega (
                  arith,
                  granted-known (charged r i b') requests now level b rate
                      (get-put_ne text_eq text_eq_iff i ip b' r.buckets other ∙ there) h
                      (omega arith) w.1,
                ))
      ]

  -- A client that is new to the limiter is let through at most as often as its bucket holds tokens
  -- at first and is refilled between the first and the last request; what other clients do in
  -- between makes no difference. The rate and the capacity are not 0, and the clock is not set back.
  pub granted-le :
      (r : RateLimiter) (requests : List (Text × ℕ)) (start : ℕ)
      → 0 < r.refill_per_sec
      → 0 < r.capacity
      → Dict.get text_eq ip r.buckets ≡ none
      → Within start end requests
      → granted r ip requests * token + start * r.refill_per_sec
        ≤ r.capacity * token + end * r.refill_per_sec
  granted-le r [] start rate cap gone w =
      unfold granted in omega (arith, mul_mono start end r.refill_per_sec w)
  granted-le r ((i, now) ∷ requests) start rate cap gone w = elim (Bool-cases (text_eq i ip)) [
    | inl same ↦
        rw (granted-cons r ip i now requests rate, same, (text_eq_iff i ip).0 same, gone)
          (let (b, allowed) = spend r.capacity r.refill_per_sec now none in
            let level = r.capacity * token - token in
            let ih =
              granted-known (charged r ip b) requests now level b rate
                (get-put_self text_eq text_eq_iff ip b r.buckets)
                (first-Holds r.capacity r.refill_per_sec now cap) (unfold spend in omega arith)
                w.1 in
            unfold spend in omega (arith, ih, mul_mono start now r.refill_per_sec w.0))
    | inr other ↦
        rw (granted-cons r ip i now requests rate, other)
          (let b' = (spend r.capacity r.refill_per_sec now (Dict.get text_eq i r.buckets)).0 in
            omega (
              arith,
              granted-le (charged r i b') requests now rate cap
                  (get-put_ne text_eq text_eq_iff i ip b' r.buckets other ∙ gone) w.1,
              mul_mono start now r.refill_per_sec w.0,
            ))
  ]
