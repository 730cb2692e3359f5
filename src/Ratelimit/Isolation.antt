-- ===== src/Ratelimit/Isolation.antt =====
-- A key is counted by its own requests alone, as long as the table has room.
use restest.Base.{
  length-put_new, length-put_old, ℕ, suc, ◌+◌, ◌≤◌, ◌<◌, ◌≡◌, refl, Bool, List, [], ◌∷◌, none, some,
  arith, length, Bytes, lookup, put, same, same_iff, lookup-put, Option-cases, inl, inr,
  if◌then◌else◌,
}
use restest.Ratelimit.{RateLibrary, Entry, Limiter, allow}
use restest.Ratelimit.Bounds.{bucket_for_old, bucket_for_new}

module _ (rate : RateLibrary) where
  -- The bucket that the next request of a key is counted in.
  abbrev pub held : Bytes → Limiter rate → rate.Bucket
  held key l = elim (lookup key l.buckets) [
    | some b ↦ b.limiter
    | none ↦ rate.new_limiter l.limit l.burst
  ]

  -- The instants of the requests of a key, of requests in the order of their arrival.
  unfoldable pub times : Bytes → List (ℕ × Bytes) → List ℕ
  unfolding same
  times key [] = []
  times key ((now, k) ∷ rs) = let rest = times key rs in if same k key then now ∷ rest else rest

  -- The answers that the limiter gives to a key.
  unfoldable pub answers : Bytes → List (ℕ × Bytes) → Limiter rate → List Bool
  unfolding allow same
  answers key [] l = []
  answers key ((now, k) ∷ rs) l =
      let (allowed, l') = allow rate now k l in
      let rest = answers key rs l' in if same k key then allowed ∷ rest else rest

  -- The answers of one bucket.
  unfoldable pub alone : List ℕ → rate.Bucket → List Bool
  alone [] b = []
  alone (now ∷ ts) b = let (allowed, b') = rate.allow_n now 1 b in allowed ∷ alone ts b'

  abbrev spent : ℕ → rate.Bucket → rate.Bucket
  spent now b = (rate.allow_n now 1 b).1

  abbrev after : ℕ → Bytes → Limiter rate → Limiter rate
  after now k l = record l {
    buckets = put k (record { limiter = spent now (held k l); seen = now }) l.buckets;
  }

  allow_roomy :
      (now : ℕ) (k : Bytes) (l : Limiter rate)
      → length l.buckets < l.opts.max_keys
      → allow rate now k l ≡ ((rate.allow_n now 1 (held k l)).0, after now k l)
  unfolding allow
  allow_roomy now k l h = elim (Option-cases (lookup k l.buckets)) [
    | inl e ↦ ground (arith, bucket_for_new rate now k l e h)
    | inr (w, e) ↦ ground (arith, bucket_for_old rate now k l w e)
  ]

  length-after :
      (now : ℕ) (k : Bytes) (l : Limiter rate)
      → length (after now k l).buckets ≤ suc (length l.buckets)
  length-after now k l =
      let b : Entry rate = record { limiter = spent now (held k l); seen = now } in
      elim (Option-cases (lookup k l.buckets)) [
        | inl e ↦ omega (arith, length-put_new k b l.buckets e)
        | inr (w, e) ↦ omega (arith, length-put_old k b w l.buckets e)
      ]

  held-after :
      (now : ℕ) (key k : Bytes) (l : Limiter rate)
      → held key (after now k l) ≡ (if same k key then spent now (held key l) else held key l)
  held-after now key k l = ground (
    arith,
    lookup-put k key (record { limiter = spent now (held k l); seen = now }) l.buckets,
    same_iff k key,
  )

  -- Of requests that cannot fill the table, those of one key are answered as a bucket of its own
  -- would answer them: the requests of other keys do not matter.
  pub answers-alone :
      (key : Bytes) (rs : List (ℕ × Bytes)) (l : Limiter rate)
      → length l.buckets + length rs ≤ l.opts.max_keys
      → answers key rs l ≡ alone (times key rs) (held key l)
  unfolding answers alone times
  answers-alone key [] l h = refl
  answers-alone key ((now, k) ∷ rs) l h = ground (
    arith,
    allow_roomy now k l (omega arith),
    answers-alone key rs (after now k l) (omega (arith, length-after now k l, h)),
    held-after now key k l,
    same_iff k key,
  )
