-- ===== src/Paths/Tests.antt =====
-- Runs of the path functions, and the theorems at them.
use restest.Base.{◌≡◌, refl, [], ◌∷◌, ◌++◌, arith, codes}
use restest.Paths.Trim.{trim_space, cut_space}
use restest.Paths.Segments.{normalize_path, path_params, IsSegment}
use restest.Paths.Normal.{EndsInText}

trimmed : trim_space (9 ∷ 0xc2 ∷ 0xa0 ∷ codes "a b" ++ 0xe3 ∷ 0x80 ∷ 0x80 ∷ 10 ∷ []) ≡ codes "a b"
unfolding trim_space
trimmed = refl

slashes : normalize_path (codes " //users/{id}/ ") ≡ codes "/users/{id}"
unfolding normalize_path
slashes = refl

names : path_params (codes "/a/{b}/{1c}/{d_2}") ≡ codes "b" ∷ codes "d_2" ∷ []
unfolding path_params
names = refl

users_ends : EndsInText (normalize_path (codes "//users//"))
unfolding normalize_path cut_space
users_ends = refl

users-IsSegment : IsSegment (codes "users")
users-IsSegment = ground arith

slash_users_ends : EndsInText (b'/' ∷ codes "users")
unfolding cut_space
slash_users_ends = refl
