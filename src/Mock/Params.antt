-- ===== src/Mock/Params.antt =====
-- internal/mock/trie.go, `isParam` and `zip`: the parameters that a matched route hands over.
use restest.Base.{
  ◌≡◌, refl, sym, ap, ◌∙◌, inl, inr, true, false, List, [], ◌∷◌, Option, none, some, arith,
  if◌then◌else◌, Bool-cases, Bytes, same_iff, lookup, put, lookup-put, contains, All, has_byte,
}
use restest.Paths.{split_path, ends_name, param_pattern, param_name, names_of, path_params}
use restest.Paths.Validate.{IsWhole, IsDistinct, IsPattern, has_brace}
use restest.Mock.Trie.{is_param, is_byte, get_last}
use restest.Mock.Trie.Answer.{zip, zip_from}
use restest.Mock.Trie.Shapes.{Shape, literal, param, part_of, shape_of}
use restest.Mock.Trie.Fits.{Fits, exactly, anything}

ends_name-get_last : (s : Bytes) → ends_name s ≡ true → is_byte b'}' (get_last s) ≡ true
unfolding ends_name
ends_name-get_last [] h = cc
ends_name-get_last (c ∷ []) h = h
ends_name-get_last (c ∷ d ∷ s) h = ends_name-get_last (d ∷ s) (ground arith)

is_param_of_param_pattern : (seg : Bytes) → param_pattern seg ≡ true → is_param seg ≡ true
unfolding param_pattern is_param
is_param_of_param_pattern [] h = cc
is_param_of_param_pattern (b ∷ []) h = cc
is_param_of_param_pattern (b ∷ c ∷ []) h = cc
is_param_of_param_pattern (b ∷ c ∷ d ∷ s) h = ground (arith, ends_name-get_last (d ∷ s))

not-is_param_of_braceless : (seg : Bytes) → has_brace seg ≡ false → is_param seg ≡ false
unfolding is_param has_byte
not-is_param_of_braceless [] h = ground arith
not-is_param_of_braceless (b ∷ s) h = ground arith

-- On a segment that passed validation the trie and the validation agree what a parameter is.
pub is_param-param_pattern : (seg : Bytes) → IsWhole seg → is_param seg ≡ param_pattern seg
is_param-param_pattern seg (inl h) = is_param_of_param_pattern seg h ∙ sym h
is_param-param_pattern seg (inr h) = elim (Bool-cases (param_pattern seg)) [
  | inl e ↦ is_param_of_param_pattern seg e ∙ sym e
  | inr e ↦ not-is_param_of_braceless seg h ∙ sym e
]

abbrev pub Pairs : Type 0
Pairs = List (Bytes × Bytes)

-- The names of the parameters of a pattern with the segments of a request at their places.
unfoldable pub placed : List Bytes → List Bytes → Pairs
unfolding param_pattern
placed (seg ∷ segs) (x ∷ request) =
    let rest = placed segs request in if param_pattern seg then (param_name seg, x) ∷ rest else rest
placed _ _ = []

pair_up : List Bytes → List Bytes → Pairs
pair_up (n ∷ names) (v ∷ values) = (n, v) ∷ pair_up names values
pair_up _ _ = []

literal_inv :
    {s : Bytes} {c : Shape} {request vs : List Bytes}
    → Fits (literal s ∷ c) request vs
    → (rest : List Bytes) × (request ≡ s ∷ rest) × Fits c rest vs
literal_inv (exactly {segs} f) = (segs, refl, f)

param_inv :
    {c : Shape} {request vs : List Bytes}
    → Fits (param ∷ c) request vs
    → (x : Bytes) × (rest us : List Bytes) × (request ≡ x ∷ rest) × (vs ≡ x ∷ us) × Fits c rest us
param_inv (anything {s} {segs} {vs} f) = (s, segs, vs, refl, refl, f)

part_of_param : (seg : Bytes) → IsWhole seg → param_pattern seg ≡ true → part_of seg ≡ param
unfolding part_of
part_of_param seg w h = ground (arith, is_param-param_pattern seg w)

part_of_literal :
    (seg : Bytes) → IsWhole seg → param_pattern seg ≡ false → part_of seg ≡ literal seg
unfolding part_of
part_of_literal seg w h = ground (arith, is_param-param_pattern seg w)

placed-pair_up :
    (segs request vs : List Bytes)
    → All IsWhole segs
    → Fits (shape_of segs) request vs
    → placed segs request ≡ pair_up (names_of segs) vs
unfolding placed pair_up names_of
placed-pair_up [] request vs w f = ground arith
placed-pair_up (seg ∷ segs) request vs (w, ws) f = elim (Bool-cases (param_pattern seg)) [
  | inl named ↦
      let (x, rest, us, e, e', g) = param_inv (rw (part_of_param seg w named) at f) in
      rw (e, e', named) (ap (λ l. (param_name seg, x) ∷ l) (placed-pair_up segs rest us ws g))
  | inr plain ↦
      let (rest, e, g) = literal_inv (rw (part_of_literal seg w plain) at f) in
      rw (e, plain) (placed-pair_up segs rest vs ws g)
]

lookup-pair_up-none :
    (k : Bytes) (names vs : List Bytes)
    → contains k names ≡ false
    → lookup k (pair_up names vs) ≡ none
unfolding pair_up lookup contains
lookup-pair_up-none k [] vs h = refl
lookup-pair_up-none k (n ∷ names) [] h = refl
lookup-pair_up-none k (n ∷ names) (v ∷ vs) h = ground (arith, lookup-pair_up-none k names vs)

abbrev or_kept : Option Bytes → Option Bytes → Option Bytes
or_kept none o = o
or_kept (some v) o = some v

lookup-zip_from :
    (k : Bytes) (acc : Pairs) (names vs : List Bytes)
    → IsDistinct names
    → lookup k (zip_from acc names vs) ≡ or_kept (lookup k (pair_up names vs)) (lookup k acc)
unfolding zip_from pair_up lookup
lookup-zip_from k acc [] vs h = refl
lookup-zip_from k acc (n ∷ names) [] h = refl
lookup-zip_from k acc (n ∷ names) (v ∷ vs) (fresh, h) = ground (
  arith,
  lookup-zip_from k (put n v acc) names vs h,
  lookup-put n k v acc,
  same_iff n k,
  lookup-pair_up-none n names vs fresh,
)

-- Of a pattern that passed validation each parameter has the segment of the request at its place
-- for a value, and there are no others.
pub zip-placed :
    (path : Bytes) (request vs : List Bytes)
    → IsPattern path
    → Fits (shape_of (split_path path)) request vs
    → (name : Bytes)
    → lookup name (zip (path_params path) vs) ≡ lookup name (placed (split_path path) request)
unfolding zip path_params lookup
zip-placed path request vs p f name = ground (
  arith,
  lookup-zip_from name [] (names_of (split_path path)) vs p.distinct,
  placed-pair_up (split_path path) request vs p.whole f,
)
