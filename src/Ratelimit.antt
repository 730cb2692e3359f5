-- ===== src/Ratelimit.antt =====
-- internal/ratelimit/ratelimit.go: one token bucket for each key, in a table that is bounded. Times
-- and durations are numbers of nanoseconds; a setting below zero is treated as zero is.
pub mod Bounds
pub mod Isolation
pub mod Guard
mod Tests
use restest.Base.{
  ℕ, zero, suc, ◌+◌, ◌*◌, ◌%◌, ◌^◌, Bool, true, false, ◌&&◌, List, [], ◌∷◌, Option, none, some, leb,
  ltb, if◌then◌else◌, length, Bytes, lookup, put,
}

-- What the source calls of golang.org/x/time/rate: a bucket of a rate and a depth, and the taking of
-- tokens at an instant.
pub record RateLibrary : Type 1 where
  pub Bucket : Type 0
  pub new_limiter : ℕ → ℕ → Bucket
  pub allow_n : ℕ → ℕ → Bucket → Bool × Bucket

abbrev pub second : ℕ
second = 1000000000

abbrev pub default_ttl : ℕ
default_ttl = 60 * second

abbrev pub default_sweep : ℕ
default_sweep = 60 * second

abbrev pub default_max_keys : ℕ
default_max_keys = 100000

abbrev pub burst_factor : ℕ
burst_factor = 2

abbrev pub min_burst : ℕ
min_burst = 20

-- `Burst`: the product is a 64-bit integer, negative from 2 ^ 63 on.
unfoldable pub burst : ℕ → ℕ
burst per_second =
    let b = per_second * burst_factor % 2 ^ 64 in
    if ltb b (2 ^ 63) && ltb min_burst b then b else min_burst

pub record Options : Type 0 where
  pub ttl : ℕ
  pub sweep : ℕ
  pub max_keys : ℕ

abbrev pub or_default : ℕ → ℕ → ℕ
or_default zero d = d
or_default (suc n) d = suc n

module _ (rate : RateLibrary) where
  pub record Entry : Type 0 where
    pub limiter : rate.Bucket
    pub seen : ℕ

  pub record Limiter : Type 0 where
    pub limit : ℕ
    pub burst : ℕ
    pub opts : Options
    pub buckets : List (Bytes × Entry)
    pub cleared : ℕ

  -- `New`; `none` is the nil limiter.
  unfoldable pub new : ℕ → Options → Option Limiter
  unfolding burst
  new zero opts = none
  new (suc n) opts = some (record {
    limit = suc n;
    burst = burst (suc n);
    opts = record {
      ttl = or_default opts.ttl default_ttl;
      sweep = or_default opts.sweep default_sweep;
      max_keys = or_default opts.max_keys default_max_keys;
    };
    buckets = [];
    cleared = 0;
  })

  abbrev pub expired : ℕ → ℕ → Entry → Bool
  expired ttl now b = leb (b.seen + ttl) now

  unfoldable pub unexpired : ℕ → ℕ → List (Bytes × Entry) → List (Bytes × Entry)
  unexpired ttl now [] = []
  unexpired ttl now ((key, b) ∷ m) =
      let rest = unexpired ttl now m in if expired ttl now b then rest else (key, b) ∷ rest

  -- `sweepLocked`; the number that it returns is the length of the table it leaves.
  unfoldable pub sweep_locked : ℕ → Limiter → Limiter
  unfolding unexpired
  sweep_locked now l = record l { buckets = unexpired l.opts.ttl now l.buckets }

  unfoldable pub make_room : ℕ → Limiter → Limiter
  unfolding sweep_locked
  make_room now l =
      let l' = sweep_locked now l in
      if ltb (length l'.buckets) l.opts.max_keys
      then l'
      else record l' { buckets = []; cleared = suc l'.cleared }

  -- The bucket of the key, made if it is not there, and the table that it stands in.
  unfoldable pub bucket_for : ℕ → Bytes → Limiter → rate.Bucket × Limiter
  unfolding lookup make_room
  bucket_for now key l = elim (lookup key l.buckets) [
    | some b ↦ (b.limiter, l)
    | none ↦ (
      rate.new_limiter l.limit l.burst,
      if leb l.opts.max_keys (length l.buckets) then make_room now l else l,
    )
  ]

  -- `Allow` behind the test for nil, at the instant `now`.
  unfoldable pub allow : ℕ → Bytes → Limiter → Bool × Limiter
  unfolding bucket_for put
  allow now key l =
      let (b, l') = bucket_for now key l in
      let (allowed, b') = rate.allow_n now 1 b in
      (allowed, record l' { buckets = put key (record { limiter = b'; seen = now }) l'.buckets })

  -- `Allow` on the pointer.
  unfoldable pub allow_any : ℕ → Bytes → Option Limiter → Bool × Option Limiter
  unfolding allow
  allow_any now key none = (true, none)
  allow_any now key (some l) = let (allowed, l') = allow now key l in (allowed, some l')

  abbrev pub len : Option Limiter → ℕ
  len none = 0
  len (some l) = length l.buckets

  -- What happens to a limiter: a request under a key, or a tick of the sweeper, at an instant.
  pub data Event : Type 0 where
    request : ℕ → Bytes → Event
    tick : ℕ → Event

  unfoldable pub step : Event → Limiter → Limiter
  unfolding allow sweep_locked
  step (request now key) l = (allow now key l).1
  step (tick now) l = sweep_locked now l

  unfoldable pub run : List Event → Limiter → Limiter
  unfolding step
  run [] l = l
  run (e ∷ es) l = run es (step e l)
