-- ===== src/Ratelimit/Bounds.antt =====
-- The bound of the table, and the depth of a bucket.
use restest.Base.{
  HasKeysOnce, put-HasKeysOnce, length-put_new, length-put_old, ℕ, zero, suc, ◌*◌, ◌≤◌, ◌<◌, ◌^◌,
  ◌⊎◌, Option-cases, ltb→lt, ◌≡◌, refl, sym, subst, List, [], ◌∷◌, Option, none, some, arith,
  length, Bytes, lookup, put, Bool-cases, inl, inr, ltb,
}
use restest.Ratelimit.{
  RateLibrary, Options, Entry, Limiter, Event, request, tick, burst, new, expired, unexpired,
  sweep_locked, make_room, bucket_for, allow, step, run, or_default, default_max_keys, default_ttl,
  second,
}

-- A bucket is deep enough for a second at the full rate, and the default time to live is long
-- enough to fill it: of a rate of at least one a second, below 2 ^ 62.
pub burst-bounds :
    (per_second : ℕ)
    → 0 < per_second
    → per_second < 2 ^ 62
    → (per_second ≤ burst per_second) × (burst per_second * second ≤ per_second * default_ttl)
unfolding burst
burst-bounds per_second h k = ground arith

or_default_pos : (n d : ℕ) → 0 < d → 0 < or_default n d
or_default_pos zero d h = h
or_default_pos (suc n) d h = omega arith

module _ (rate : RateLibrary) where
  pub lookup-unexpired-none :
      (ttl now : ℕ) (key : Bytes) (m : List (Bytes × Entry rate))
      → lookup key m ≡ none
      → lookup key (unexpired rate ttl now m) ≡ none
  unfolding unexpired lookup
  lookup-unexpired-none ttl now key [] h = refl
  lookup-unexpired-none ttl now key ((j, b) ∷ m) h =
      ground (arith, lookup-unexpired-none ttl now key m)

  unexpired-HasKeysOnce :
      (ttl now : ℕ) (m : List (Bytes × Entry rate))
      → HasKeysOnce m
      → HasKeysOnce (unexpired rate ttl now m)
  unfolding unexpired
  unexpired-HasKeysOnce ttl now [] h = tt
  unexpired-HasKeysOnce ttl now ((key, b) ∷ m) (h, hs) =
      elim (Bool-cases (expired rate ttl now b)) [
        | inl e ↦ rw e (unexpired-HasKeysOnce ttl now m hs)
        | inr e ↦ rw e (lookup-unexpired-none ttl now key m h, unexpired-HasKeysOnce ttl now m hs)
      ]

  length-unexpired :
      (ttl now : ℕ) (m : List (Bytes × Entry rate)) → length (unexpired rate ttl now m) ≤ length m
  unfolding unexpired
  length-unexpired ttl now [] = omega arith
  length-unexpired ttl now ((key, b) ∷ m) = ground (arith, length-unexpired ttl now m)

  abbrev AllOfSome : (Limiter rate → Type 0) → Option (Limiter rate) → Type 0
  AllOfSome P none = Unit
  AllOfSome P (some l) = P l

  -- A table with one entry a key and no more of them than its cap, which is not zero.
  pub record IsBounded (l : Limiter rate) : Type 0 where
    pub once : HasKeysOnce l.buckets
    pub within : length l.buckets ≤ l.opts.max_keys
    pub some_key : 0 < l.opts.max_keys

  sweep_locked-IsBounded :
      (now : ℕ) (l : Limiter rate) → IsBounded l → IsBounded (sweep_locked rate now l)
  unfolding sweep_locked
  sweep_locked-IsBounded now l h = record {
    once = unexpired-HasKeysOnce l.opts.ttl now l.buckets h.once;
    within = omega (arith, length-unexpired l.opts.ttl now l.buckets, h.within);
    some_key = h.some_key;
  }

  -- A table that has a place for the key.
  record HasPlace (key : Bytes) (l : Limiter rate) : Type 0 where
    bounded : IsBounded l
    place :
        ((w : Entry rate) × (lookup key l.buckets ≡ some w))
        ⊎ ((lookup key l.buckets ≡ none) × (length l.buckets < l.opts.max_keys))

  make_room-HasPlace :
      (now : ℕ) (key : Bytes) (l : Limiter rate)
      → IsBounded l
      → lookup key l.buckets ≡ none
      → HasPlace key (make_room rate now l)
  unfolding make_room sweep_locked lookup
  make_room-HasPlace now key l h new_key =
      elim (Bool-cases (ltb (length (sweep_locked rate now l).buckets) l.opts.max_keys)) [
        | inl e ↦ rw e (record {
          bounded = sweep_locked-IsBounded now l h;
          place = inr (lookup-unexpired-none l.opts.ttl now key l.buckets new_key, ltb→lt _ _ e);
        })
        | inr e ↦ rw e (record {
          bounded = record { once = tt; within = omega arith; some_key = h.some_key };
          place = inr (refl, h.some_key);
        })
      ]

  pub bucket_for_old :
      (now : ℕ) (key : Bytes) (l : Limiter rate) (w : Entry rate)
      → lookup key l.buckets ≡ some w
      → bucket_for rate now key l ≡ (w.limiter, l)
  unfolding bucket_for
  bucket_for_old now key l w e = ground arith

  pub bucket_for_full :
      (now : ℕ) (key : Bytes) (l : Limiter rate)
      → lookup key l.buckets ≡ none
      → l.opts.max_keys ≤ length l.buckets
      → bucket_for rate now key l ≡ (rate.new_limiter l.limit l.burst, make_room rate now l)
  unfolding bucket_for
  bucket_for_full now key l e h = ground arith

  pub bucket_for_new :
      (now : ℕ) (key : Bytes) (l : Limiter rate)
      → lookup key l.buckets ≡ none
      → length l.buckets < l.opts.max_keys
      → bucket_for rate now key l ≡ (rate.new_limiter l.limit l.burst, l)
  unfolding bucket_for
  bucket_for_new now key l e h = ground arith

  bucket_for-HasPlace :
      (now : ℕ) (key : Bytes) (l : Limiter rate)
      → IsBounded l
      → HasPlace key (bucket_for rate now key l).1
  bucket_for-HasPlace now key l h = elim (Option-cases (lookup key l.buckets)) [
    | inr (w, e) ↦
        subst (λ p. HasPlace key p.1) (sym (bucket_for_old now key l w e))
          (record { bounded = h; place = inl (w, e) })
    | inl e ↦ elim (Bool-cases (ltb (length l.buckets) l.opts.max_keys)) [
      | inl k ↦
          let short = ltb→lt _ _ k in
          subst (λ p. HasPlace key p.1) (sym (bucket_for_new now key l e short))
            (record { bounded = h; place = inr (e, short) })
      | inr k ↦
          subst (λ p. HasPlace key p.1) (sym (bucket_for_full now key l e (ground arith)))
            (make_room-HasPlace now key l h e)
    ]
  ]

  put-IsBounded :
      (key : Bytes) (b : Entry rate) (l : Limiter rate)
      → HasPlace key l
      → IsBounded (record l { buckets = put key b l.buckets })
  put-IsBounded key b l h = record {
    once = put-HasKeysOnce key b l.buckets h.bounded.once;
    within = elim h.place [
      | inl (w, e) ↦ omega (arith, length-put_old key b w l.buckets e, h.bounded.within)
      | inr (e, k) ↦ omega (arith, length-put_new key b l.buckets e, k)
    ];
    some_key = h.bounded.some_key;
  }

  step-IsBounded : (e : Event rate) (l : Limiter rate) → IsBounded l → IsBounded (step rate e l)
  unfolding step allow
  step-IsBounded (request now key) l h = put-IsBounded key _ _ (bucket_for-HasPlace now key l h)
  step-IsBounded (tick now) l h = sweep_locked-IsBounded now l h

  run-IsBounded :
      (es : List (Event rate)) (l : Limiter rate) → IsBounded l → IsBounded (run rate es l)
  unfolding run
  run-IsBounded [] l h = h
  run-IsBounded (e ∷ es) l h = run-IsBounded es (step rate e l) (step-IsBounded e l h)

  new-IsBounded :
      (per_second : ℕ) (opts : Options) (l : Limiter rate)
      → new rate per_second opts ≡ some l
      → IsBounded l
  unfolding new
  new-IsBounded zero opts l h = cc
  new-IsBounded (suc n) opts l h = subst (AllOfSome IsBounded) h (record {
    once = tt;
    within = omega arith;
    some_key = or_default_pos opts.max_keys default_max_keys (omega arith);
  })

  -- Whatever requests and sweeps a limiter has seen since it was made, and at whatever instants, its
  -- table has at most one bucket a key and no more buckets than its cap.
  pub run-new-IsBounded :
      (per_second : ℕ) (opts : Options) (l : Limiter rate) (es : List (Event rate))
      → new rate per_second opts ≡ some l
      → IsBounded (run rate es l)
  run-new-IsBounded per_second opts l es h = run-IsBounded es l (new-IsBounded per_second opts l h)
