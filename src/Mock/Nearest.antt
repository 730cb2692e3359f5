-- ===== src/Mock/Nearest.antt =====
-- internal/mock/nearest.go: the routes that look most like what was asked for.
pub mod Distance
pub mod Order
pub mod Ranking
use restest.Base.{
  ℕ, suc, ◌+◌, ◌==◌, Bool, true, false, not, ◌&&◌, List, [], ◌∷◌, map, min, if◌then◌else◌, ltb,
  length, take, Bytes, same, bytes_le, sort_by, runes,
}
use restest.Paths.{split_path}
use restest.Mock.Route.{method_any}
use restest.Mock.Trie.{is_param}

pub record Ref : Type 0 where
  pub method : Bytes
  pub path : Bytes

pub record ScoredRef : Type 0 where
  pub ref : Ref
  pub prefix : ℕ
  pub edits : ℕ
  pub method : ℕ

abbrev pub nearest_limit : ℕ
nearest_limit = 5

abbrev pub bool_order : Bool → ℕ
bool_order b = if b then 1 else 0

unfoldable pub common_prefix : List Bytes → List Bytes → ℕ
unfolding is_param same
common_prefix (w ∷ wanted) (p ∷ pattern) =
    let more = common_prefix wanted pattern in
    if not (same p w) && not (is_param p) then 0 else suc more
common_prefix _ _ = 0

-- One entry of a row: `min(cur[j-1]+1, prev[j]+1, prev[j-1]+cost)`.
abbrev pub cell : ℕ → ℕ → ℕ → ℕ → ℕ → ℕ
cell a b left above diagonal =
    min (left + 1) (min (above + 1) (diagonal + (if a == b then 0 else 1)))

-- The inner loop: the rest of a row, from the entry before it, the letter of its row, the letters of
-- its columns, and the row above from the column before.
unfoldable pub row_from : ℕ → ℕ → ℕ → List ℕ → List ℕ → List ℕ
row_from a left diagonal (b ∷ bs) (above ∷ prev) =
    let here = cell a b left above diagonal in here ∷ row_from a here above bs prev
row_from a left diagonal _ _ = []

-- `cur[0] = i` and the inner loop.
unfoldable pub next_row : ℕ → ℕ → List ℕ → List ℕ → List ℕ
unfolding row_from
next_row i a bs (p ∷ prev) = i ∷ row_from a i p bs prev
next_row i a bs [] = i ∷ []

-- The outer loop, with the number of rows done.
unfoldable pub rows_from : ℕ → List ℕ → List ℕ → List ℕ → List ℕ
unfolding next_row
rows_from i [] bs prev = prev
rows_from i (a ∷ as_) bs prev = rows_from (suc i) as_ bs (next_row (suc i) a bs prev)

unfoldable pub first_row : ℕ → List ℕ → List ℕ
first_row j [] = j ∷ []
first_row j (b ∷ bs) = j ∷ first_row (suc j) bs

-- `prev[len(br)]`
unfoldable pub last_entry : List ℕ → ℕ
last_entry [] = 0
last_entry (x ∷ []) = x
last_entry (x ∷ y ∷ xs) = last_entry (y ∷ xs)

-- The body of `editDistance` behind the exchange of its arguments.
unfoldable pub distance_rows : List ℕ → List ℕ → ℕ
unfolding rows_from first_row last_entry
distance_rows ar [] = length ar
distance_rows ar (b ∷ bs) = last_entry (rows_from 0 ar (b ∷ bs) (first_row 0 (b ∷ bs)))

-- On the runes of the two texts.
unfoldable pub edit_distance : List ℕ → List ℕ → ℕ
unfolding distance_rows
edit_distance ar br =
    if ltb (length ar) (length br) then distance_rows br ar else distance_rows ar br

unfoldable pub score : Bytes → Bytes → List Bytes → Ref → ScoredRef
unfolding common_prefix edit_distance split_path runes same
score method path wanted ref = record {
  ref = ref;
  prefix = common_prefix wanted (split_path ref.path);
  edits = edit_distance (runes path) (runes ref.path);
  method = bool_order (not (same ref.method method) && not (same ref.method method_any));
}

-- `cmp.Or` over `cmp.Compare`, as "at most": the first number that differs decides.
abbrev pub le_then : ℕ → ℕ → Bool → Bool
le_then a b rest = if ltb a b then true else if ltb b a then false else rest

unfoldable pub text_le_then : Bytes → Bytes → Bool → Bool
unfolding same bytes_le
text_le_then s t rest = if same s t then rest else bytes_le s t

unfoldable pub scored_le : ScoredRef → ScoredRef → Bool
unfolding text_le_then bytes_le
scored_le a b = le_then b.prefix a.prefix (
    le_then a.edits b.edits (
      le_then a.method b.method
        (text_le_then a.ref.path b.ref.path (bytes_le a.ref.method b.ref.method))))

unfoldable pub ranked : List Ref → Bytes → Bytes → List ScoredRef
unfolding sort_by scored_le score split_path
ranked routes method path = sort_by scored_le (map (score method path (split_path path)) routes)

unfoldable pub nearest : List Ref → Bytes → Bytes → ℕ → List Ref
unfolding ranked
nearest routes method path limit = map (λ s. s.ref) (take limit (ranked routes method path))
