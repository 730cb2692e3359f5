-- ===== src/Documents/Listing.antt =====
-- The listing of internal/core/document.go: the query string, the conditions that it becomes, and the
-- page that the database answers. What the listing needs of encoding/json, strconv and jsonb is a
-- record of operations.
pub mod Query
pub mod Accepted
pub mod Answer
pub mod Pages
mod Tests
use restest.Base.{
  ℕ, zero, suc, ◌+◌, ◌*◌, ◌%◌, Bool, true, false, not, ◌&&◌, ◌==◌, List, [], ◌∷◌, ◌++◌, Option,
  none, some, if◌then◌else◌, ltb, leb, Bytes, codes, same, map, lookup, contains, to_lower, Int64,
  pos, parse_int, max_int64, sort_by, bytes_le, length, take,
}
use mathlib.Core.List.{reverse}
use restest.Paths.{trim_space}
use restest.Database.{select_by, exists_by}
use restest.Collections.{Fields, Json, text, boolean, number, null_value}
use restest.Documents.{Collection}

abbrev pub default_list_limit : ℕ
default_list_limit = 100

abbrev pub max_list_limit : ℕ
max_list_limit = 1000

abbrev pub param_page : Bytes
param_page = codes "_page"

abbrev pub param_limit : Bytes
param_limit = codes "_limit"

abbrev pub param_sort : Bytes
param_sort = codes "_sort"

abbrev pub param_order : Bytes
param_order = codes "_order"

abbrev pub list_params : List Bytes
list_params = param_page ∷ param_limit ∷ param_sort ∷ param_order ∷ []

pub record Filter : Type 0 where
  pub field : Bytes
  pub values : List Bytes

pub record ListQuery : Type 0 where
  pub page : ℕ
  pub limit : ℕ
  pub sort : Bytes
  pub desc : Bool
  pub filters : List Filter

pub data QueryError : Type 0 where
  bad_page bad_limit bad_order unknown_param : Bytes → QueryError

pub data Read (A : Type 0) : Type 0 where
  read : A → Read A
  refused : QueryError → Read A

-- `url.Values`, with each of its keys once.
abbrev pub Values : Type 0
Values = List (Bytes × List Bytes)

abbrev or_nothing : Option (List Bytes) → List Bytes
or_nothing none = []
or_nothing (some vs) = vs

-- `values[field]`
unfoldable pub values_of : Bytes → Values → List Bytes
unfolding lookup
values_of field values = or_nothing (lookup field values)

abbrev first_of : List Bytes → Bytes
first_of [] = []
first_of (v ∷ vs) = v

-- `values.Get`
unfoldable pub get : Bytes → Values → Bytes
unfolding values_of
get field values = first_of (values_of field values)

abbrev pub in_range : ℕ → Option Int64 → Option ℕ
in_range bound (some (pos n)) = if leb 1 n && leb n bound then some n else none
in_range bound _ = none

-- A parameter that is a whole number between 1 and a bound, and has a value where it is missing.
unfoldable pub number_of : ℕ → ℕ → Bytes → Option ℕ
unfolding parse_int
number_of default bound [] = some default
number_of default bound (c ∷ s) = in_range bound (parse_int (c ∷ s))

unfoldable pub direction_of : Bytes → Option Bool
unfolding same
direction_of order =
    if same order []
    then some false
    else if same order (codes "asc")
    then some false
    else if same order (codes "desc")
    then some true
    else none

abbrev pub is_reserved : Bytes → Bool
is_reserved [] = false
is_reserved (c ∷ s) = c == b'_'

abbrev pub filter_of : Values → Bytes → Filter
filter_of values field = record { field = field; values = values_of field values }

abbrev pub add_filter : Filter → Read (List Filter) → Read (List Filter)
add_filter f (read fs) = read (f ∷ fs)
add_filter f (refused e) = refused e

unfoldable pub read_filters : Values → List Bytes → Read (List Filter)
unfolding values_of contains same
read_filters values [] = read []
read_filters values (field ∷ fields) =
    let rest = read_filters values fields in
    if is_reserved field
    then if contains field list_params then rest else refused (unknown_param field)
    else add_filter (filter_of values field) rest

abbrev pub keys_of : Values → List Bytes
keys_of values = sort_by bytes_le (map (λ p. p.0) values)

abbrev pub order_text : Values → Bytes
order_text values = to_lower (trim_space (get param_order values))

unfoldable pub parse_list_query : Values → Read ListQuery
unfolding get number_of direction_of read_filters trim_space to_lower sort_by bytes_le
parse_list_query values = elim (number_of 1 max_int64 (get param_page values)) [
  | none ↦ refused (bad_page (get param_page values))
  | some page ↦ elim (number_of default_list_limit max_list_limit (get param_limit values)) [
    | none ↦ refused (bad_limit (get param_limit values))
    | some limit ↦ elim (direction_of (order_text values)) [
      | none ↦ refused (bad_order (order_text values))
      | some desc ↦ elim (read_filters values (keys_of values)) [
        | refused e ↦ refused e
        | read filters ↦ read (record {
          page = page;
          limit = limit;
          sort = trim_space (get param_sort values);
          desc = desc;
          filters = filters;
        })
      ]
    ]
  ]
]

-- What is not code of the repository: the text that `json.Marshal` writes for a string, whether a text
-- that is not empty is a number for `strconv.ParseFloat` and `json.Valid`, `@>` and the order of jsonb.
pub record JsonOps : Type 0 where
  pub written : Bytes → Bytes
  pub is_number : Bytes → Bool
  pub holds : Fields → Fields → Bool
  pub le : Json → Json → Bool
  -- Whether the database takes these documents and this text as parameters: no zero byte, valid UTF-8.
  pub takes : List (List Fields) → Bytes → Bool

pub record DocumentPage : Type 0 where
  pub documents : List (Bytes × Fields)
  pub total : ℕ

abbrev two_63 : ℕ
two_63 = 9223372036854775808

abbrev two_64 : ℕ
two_64 = 18446744073709551616

-- `(q.Page-1)*q.Limit`, which wraps around at 64 bits; `none` where it is negative.
unfoldable pub offset_of : ℕ → ℕ → Option ℕ
offset_of zero limit = if limit == 0 then some 0 else none
offset_of (suc before) limit =
    let offset = before * limit % two_64 in if ltb offset two_63 then some offset else none

abbrev pub drop : ℕ → List (Bytes × Fields) → List (Bytes × Fields)
drop zero rows = rows
drop (suc n) [] = []
drop (suc n) (row ∷ rows) = drop n rows

-- The loop over the rows, which reads the total off each of them.
abbrev pub scanned : ℕ → List (Bytes × Fields) → DocumentPage
scanned count [] = record { documents = []; total = 0 }
scanned count (row ∷ rows) = record { documents = row ∷ rows; total = count }

module _ (ops : JsonOps) where
  unfoldable pub json_scalar : Bytes → Option Json
  unfolding same
  json_scalar [] = none
  json_scalar (c ∷ s) =
      if same (c ∷ s) (codes "true")
      then some (boolean true)
      else if same (c ∷ s) (codes "false")
      then some (boolean false)
      else if same (c ∷ s) (codes "null")
      then some null_value
      else if ops.is_number (c ∷ s)
      then some (number c s)
      else none

  abbrev pub typed_doc : Bytes → Option Json → List Fields
  typed_doc field none = []
  typed_doc field (some v) = ((ops.written field, v) ∷ []) ∷ []

  unfoldable pub containment_docs : Bytes → Bytes → List Fields
  unfolding json_scalar
  containment_docs field value =
      ((ops.written field, text (ops.written value)) ∷ []) ∷ typed_doc field (json_scalar value)

  unfoldable pub alternatives_of : Bytes → List Bytes → List Fields
  unfolding containment_docs
  alternatives_of field [] = []
  alternatives_of field (v ∷ vs) = containment_docs field v ++ alternatives_of field vs

  -- `documentFilterSQL`: the alternatives of each filter that has any.
  unfoldable pub document_filter : List Filter → List (List Fields)
  unfolding alternatives_of
  document_filter [] = []
  document_filter (f ∷ fs) = elim (alternatives_of f.field f.values) [
    | [] ↦ document_filter fs
    | doc ∷ docs ↦ (doc ∷ docs) ∷ document_filter fs
  ]

  unfoldable pub passes : List (List Fields) → Fields → Bool
  unfolding exists_by
  passes [] body = true
  passes (docs ∷ conditions) body = exists_by (ops.holds body) docs && passes conditions body

  unfoldable pub matching : List Filter → Collection → List (Bytes × Fields)
  unfolding document_filter passes select_by
  matching filters c = select_by (λ d. passes (document_filter filters) d.1) c.documents

  -- `body -> field` in a direction, a document without the field last.
  abbrev pub before : Bool → Option Json → Option Json → Bool
  before desc (some a) (some b) = if desc then ops.le b a else ops.le a b
  before desc none (some b) = false
  before desc _ none = true

  unfoldable pub order_by : Bytes → Bool → List (Bytes × Fields) → List (Bytes × Fields)
  unfolding lookup sort_by
  order_by [] desc rows = if desc then reverse rows else rows
  order_by (c ∷ s) desc rows =
      sort_by (λ x y. before desc (lookup (c ∷ s) x.1) (lookup (c ∷ s) y.1)) rows

  unfoldable pub count_documents : List Filter → Collection → ℕ
  unfolding matching
  count_documents filters c = length (matching filters c)

  abbrev pub with_total : List Filter → Collection → DocumentPage → DocumentPage
  with_total filters c page = elim page.documents [
    | [] ↦ record page { total = count_documents filters c }
    | row ∷ rows ↦ page
  ]

  abbrev page_from : ℕ → ListQuery → Collection → DocumentPage
  page_from offset q c =
      let rows = matching q.filters c in
      with_total q.filters c
        (scanned (length rows) (take q.limit (drop offset (order_by q.sort q.desc rows))))

  -- `none` is an error of the database, which takes no negative offset and not every text.
  unfoldable pub list_documents : ListQuery → Collection → Option DocumentPage
  unfolding offset_of matching order_by count_documents document_filter
  list_documents q c =
      if ops.takes (document_filter q.filters) q.sort
      then elim (offset_of q.page q.limit) [
        | none ↦ none
        | some offset ↦ some (page_from offset q c)
      ]
      else none
