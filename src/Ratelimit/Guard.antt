-- ===== src/Ratelimit/Guard.antt =====
-- internal/web/ratelimit.go, `limitMock`: the two limits of mock traffic.
use restest.Base.{
  ℕ, ◌≡◌, ap, ◌∙◌, Bool, true, false, List, [], ◌∷◌, Option, none, some, arith, length, ltb, ltb→lt,
  ◌==◌, if◌then◌else◌, Bytes, codes, to_lower, cut_prefix, lookup, put, lookup-put, same, same_iff,
  Bool-cases, Option-cases, inl, inr,
}
use restest.Mock.Table.{Table, has_project}
use restest.Ratelimit.{RateLibrary, Limiter, allow, allow_any, bucket_for, make_room, sweep_locked}
use restest.Ratelimit.Bounds.{
  bucket_for_old, bucket_for_new, bucket_for_full, lookup-unexpired-none,
}

unfoldable pub before_slash : Bytes → Bytes
before_slash [] = []
before_slash (c ∷ s) = let rest = c ∷ before_slash s in if c == b'/' then [] else rest

abbrev pub mock_prefix : Bytes
mock_prefix = codes "/m/"

abbrev trim_prefix : Bytes → Bytes → Bytes
trim_prefix p s = elim (cut_prefix p s) [ none ↦ s | some rest ↦ rest ]

unfoldable pub mock_project_slug : Bytes → Bytes
unfolding to_lower before_slash cut_prefix
mock_project_slug escaped = to_lower (before_slash (trim_prefix mock_prefix escaped))

lookup-put-none :
    {V : Type 0} (k key : Bytes) (v : V) (m : List (Bytes × V))
    → same k key ≡ false
    → lookup key m ≡ none
    → lookup key (put k v m) ≡ none
lookup-put-none k key v m h e = ground (arith, lookup-put k key v m)

-- What becomes of a request.
pub data Verdict : Type 0 where
  passed refused_ip refused_project : Verdict

module _ (rate : RateLibrary) where
  pub record Limiters : Type 0 where
    pub mock_ip : Option (Limiter rate)
    pub mock_project : Option (Limiter rate)

  abbrev project_verdict : Limiters → Bool × Option (Limiter rate) → Verdict × Limiters
  project_verdict ls (true, l) = (passed, record ls { mock_project = l })
  project_verdict ls (false, l) = (refused_project, record ls { mock_project = l })

  -- The second limit, of a project that the route table knows.
  unfoldable pub limit_project : ℕ → Table → Bytes → Limiters → Verdict × Limiters
  unfolding allow_any has_project
  limit_project now t [] ls = (passed, ls)
  limit_project now t (c ∷ s) ls =
      if has_project t (c ∷ s)
      then project_verdict ls (allow_any rate now (c ∷ s) ls.mock_project)
      else (passed, ls)

  abbrev then_project :
      ℕ → Table → Bytes → Limiters → Bool × Option (Limiter rate) → Verdict × Limiters
  then_project now t slug ls (false, l) = (refused_ip, record ls { mock_ip = l })
  then_project now t slug ls (true, l) = limit_project now t slug (record ls { mock_ip = l })

  -- `limitMock`, of a request from an address for an escaped path.
  unfoldable pub limit_mock : ℕ → Table → Bytes → Bytes → Limiters → Verdict × Limiters
  unfolding limit_project allow_any mock_project_slug
  limit_mock now t remote_ip escaped ls =
      then_project now t (mock_project_slug escaped) ls (allow_any rate now remote_ip ls.mock_ip)

  make_room-none :
      (now : ℕ) (key : Bytes) (l : Limiter rate)
      → lookup key l.buckets ≡ none
      → lookup key (make_room rate now l).buckets ≡ none
  unfolding make_room sweep_locked lookup
  make_room-none now key l h =
      ground (arith, lookup-unexpired-none rate l.opts.ttl now key l.buckets h)

  bucket_for-none :
      (now : ℕ) (key k : Bytes) (l : Limiter rate)
      → lookup key l.buckets ≡ none
      → lookup key (bucket_for rate now k l).1.buckets ≡ none
  bucket_for-none now key k l h = elim (Option-cases (lookup k l.buckets)) [
    | inr (w, e) ↦ ap (λ p. lookup key p.1.buckets) (bucket_for_old rate now k l w e) ∙ h
    | inl e ↦ elim (Bool-cases (ltb (length l.buckets) l.opts.max_keys)) [
      | inl r ↦ ap (λ p. lookup key p.1.buckets) (bucket_for_new rate now k l e (ltb→lt _ _ r)) ∙ h
      | inr r ↦
          ap (λ p. lookup key p.1.buckets) (bucket_for_full rate now k l e (ground arith))
          ∙ make_room-none now key l h
    ]
  ]

  -- The limiter has no bucket but for projects that the table knows.
  abbrev pub KnownKeys : Table → Option (Limiter rate) → Type 0
  KnownKeys t none = Unit
  KnownKeys t (some l) = (key : Bytes) → has_project t key ≡ false → lookup key l.buckets ≡ none

  allow_any-KnownKeys :
      (now : ℕ) (t : Table) (slug : Bytes) (l : Option (Limiter rate))
      → has_project t slug ≡ true
      → KnownKeys t l
      → KnownKeys t (allow_any rate now slug l).1
  unfolding allow_any allow
  allow_any-KnownKeys now t slug none k h = tt
  allow_any-KnownKeys now t slug (some l) k h = λ key missing.
      lookup-put-none slug key _ (bucket_for rate now slug l).1.buckets
        (ground (arith, same_iff slug key)) (bucket_for-none now key slug l (h key missing))

  project_verdict-KnownKeys :
      (t : Table) (ls : Limiters) (a : Bool × Option (Limiter rate))
      → KnownKeys t a.1
      → KnownKeys t (project_verdict ls a).1.mock_project
  project_verdict-KnownKeys t ls (true, l) h = h
  project_verdict-KnownKeys t ls (false, l) h = h

  limit_project-KnownKeys :
      (now : ℕ) (t : Table) (slug : Bytes) (ls : Limiters)
      → KnownKeys t ls.mock_project
      → KnownKeys t (limit_project now t slug ls).1.mock_project
  unfolding limit_project
  limit_project-KnownKeys now t [] ls h = h
  limit_project-KnownKeys now t (c ∷ s) ls h = elim (Bool-cases (has_project t (c ∷ s))) [
    | inr e ↦ rw e h
    | inl e ↦ rw e (
        project_verdict-KnownKeys t ls (allow_any rate now (c ∷ s) ls.mock_project)
          (allow_any-KnownKeys now t (c ∷ s) ls.mock_project e h))
  ]

  then_project-KnownKeys :
      (now : ℕ) (t : Table) (slug : Bytes) (ls : Limiters) (a : Bool × Option (Limiter rate))
      → KnownKeys t ls.mock_project
      → KnownKeys t (then_project now t slug ls a).1.mock_project
  then_project-KnownKeys now t slug ls (true, l) h =
      limit_project-KnownKeys now t slug (record ls { mock_ip = l }) h
  then_project-KnownKeys now t slug ls (false, l) h = h

  -- No request, whatever slug it makes up, leaves a bucket in the limiter of the projects for a slug
  -- that the route table does not know.
  pub limit_mock-KnownKeys :
      (now : ℕ) (t : Table) (remote_ip escaped : Bytes) (ls : Limiters)
      → KnownKeys t ls.mock_project
      → KnownKeys t (limit_mock now t remote_ip escaped ls).1.mock_project
  unfolding limit_mock
  limit_mock-KnownKeys now t remote_ip escaped ls h =
      then_project-KnownKeys now t (mock_project_slug escaped) ls
        (allow_any rate now remote_ip ls.mock_ip) h
