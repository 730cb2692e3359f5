-- ===== src/Ratelimit/Tests.antt =====
-- Runs of a limiter on a token bucket in whole tokens, and the theorems at them.
use restest.Base.{
  ℕ, ◌+◌, ◌-◌, ◌*◌, ◌/◌, ◌≡◌, refl, Bool, true, false, List, [], ◌∷◌, some, arith, min, Bytes, same,
  lookup, none, codes, leb, if◌then◌else◌,
}
use restest.Ratelimit.{RateLibrary, Options, Limiter, Event, request, tick, burst, new, run, second}
use restest.Ratelimit.Bounds.{IsBounded, run-new-IsBounded}
use restest.Ratelimit.Guard.{Limiters, KnownKeys, limit_mock, limit_mock-KnownKeys, refused_project}
use restest.Mock.Table.{Table, build_table}
use restest.Ratelimit.Isolation.{held, times, answers, alone, answers-alone}

fifty_burst : burst 50 ≡ 100
unfolding burst
fifty_burst = refl

record Tokens : Type 0 where
  rate_limit : ℕ
  depth : ℕ
  left : ℕ
  last : ℕ

abbrev take_from : ℕ → ℕ → ℕ → Tokens → Bool × Tokens
take_from now n full b =
    if leb n full
    then (true, record b { left = full - n; last = now })
    else (false, record b { left = full; last = now })

-- Tokens are whole, so the fraction of one that has come back is lost.
abbrev whole_tokens : RateLibrary
whole_tokens = record {
  Bucket = Tokens;
  new_limiter = λ limit depth. record { rate_limit = limit; depth = depth; left = depth; last = 0 };
  allow_n =
      λ now n b. take_from now n (min b.depth (b.left + (now - b.last) * b.rate_limit / second)) b;
}

abbrev small : Limiter whole_tokens
small = record {
  limit = 1;
  burst = 2;
  opts = record { ttl = 10; sweep = 10; max_keys = 3 };
  buckets = [];
  cleared = 0;
}

abbrev three : List (ℕ × Bytes)
three = (1, codes "a") ∷ (2, codes "b") ∷ (3, codes "a") ∷ []

three-answers :
    answers whole_tokens (codes "a") three (record small { burst = 1 }) ≡ true ∷ false ∷ []
unfolding answers
three-answers = refl

answers-alone_example :
    answers whole_tokens (codes "a") three small
    ≡ alone whole_tokens
        (times whole_tokens (codes "a") three)
        (held whole_tokens (codes "a") small)
answers-alone_example = answers-alone whole_tokens (codes "a") three small (omega arith)

abbrev tight : Options
tight = record { ttl = 10; sweep = 10; max_keys = 1 }

abbrev tight_limiter : Limiter whole_tokens
tight_limiter = record { limit = 1; burst = 20; opts = tight; buckets = []; cleared = 0 }

made : new whole_tokens 1 tight ≡ some tight_limiter
unfolding new
made = refl

abbrev events : List (Event whole_tokens)
events = request 1 (codes "a") ∷ request 2 (codes "b") ∷ tick 30 ∷ request 31 (codes "c") ∷ []

cleared_once : (run whole_tokens events tight_limiter).cleared ≡ 1
unfolding run same
cleared_once = refl

run-new-IsBounded_example : IsBounded whole_tokens (run whole_tokens events tight_limiter)
run-new-IsBounded_example = run-new-IsBounded whole_tokens 1 tight tight_limiter events made

abbrev one_project : Table
one_project =
    (build_table
      (record { projects = record { id = codes "p"; slug = codes "shop" } ∷ []; endpoints = [] })).0

abbrev limiters : Limiters whole_tokens
limiters = record { mock_ip = none; mock_project = some (record tight_limiter { burst = 1 }) }

second_refused :
    (limit_mock whole_tokens 2 one_project
      (codes "a")
      (codes "/m/SHOP/x")
      (limit_mock whole_tokens 1 one_project (codes "a") (codes "/m/shop/y") limiters).1).0
    ≡ refused_project
unfolding limit_mock build_table
second_refused = refl

limiters-KnownKeys : KnownKeys whole_tokens one_project limiters.mock_project
unfolding lookup
limiters-KnownKeys key h = refl

limit_mock-KnownKeys_example :
    KnownKeys whole_tokens one_project
      (limit_mock whole_tokens 1 one_project
        (codes "a")
        (codes "/m/gone/y")
        limiters).1.mock_project
limit_mock-KnownKeys_example =
    limit_mock-KnownKeys whole_tokens 1 one_project (codes "a") (codes "/m/gone/y") limiters
      limiters-KnownKeys
