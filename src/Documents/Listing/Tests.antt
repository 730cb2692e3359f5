-- ===== src/Documents/Listing/Tests.antt =====
-- Runs of a listing on a small collection, and the theorems at them.
use restest.Base.{
  ℕ, suc, ◌+◌, ◌≤◌, ◌≡◌, refl, Bool, true, false, ◌&&◌, [], ◌∷◌, Option, none, some, All, arith,
  Bytes, codes, same, lookup, length, parse_digits, bytes_le, format_int,
}
use Prim.Native.String.{String}
use mathlib.Core.List.{Perm}
use restest.Collections.{Fields, Json, text, number, serial}
use restest.Documents.{Collection}
use restest.Documents.Listing.{
  ListQuery, JsonOps, DocumentPage, Values, read, refused, unknown_param, parse_list_query,
  matching, order_by, list_documents, max_list_limit,
}
use restest.Documents.Listing.Accepted.{IsAccepted, parse_list_query_iff}
use restest.Documents.Listing.Answer.{IsShown, list_documents-IsShown}
use restest.Documents.Listing.Pages.{turned, turned-matching, list_documents-wrapped}

abbrev same_json : Json → Json → Bool
same_json (text s) (text t) = same s t
same_json (number a s) (number b t) = same (a ∷ s) (b ∷ t)
same_json _ _ = false

abbrev equals : Json → Option Json → Bool
equals a none = false
equals a (some b) = same_json a b

abbrev holds : Fields → Fields → Bool
holds body [] = true
holds body ((k, v) ∷ doc) = equals v (lookup k body) && holds body doc

abbrev digits_le : Json → Json → Bool
digits_le (number a s) (number b t) = bytes_le (a ∷ s) (b ∷ t)
digits_le _ _ = true

abbrev is_digits : Option ℕ → Bool
is_digits none = false
is_digits (some n) = true

abbrev ops : JsonOps
ops = record {
  written = λ s. s;
  is_number = λ s. is_digits (parse_digits s);
  holds = holds;
  le = digits_le;
  takes = λ docs sort. true;
}

abbrev doc : ℕ → String → Bytes × Fields
doc n state =
    (format_int n, (codes "id", number (b'0' + n) []) ∷ (codes "state", text (codes state)) ∷ [])

abbrev orders : Collection
orders = record {
  id_field = codes "id";
  id_strategy = serial;
  next_serial = 5;
  documents = doc 1 "new" ∷ doc 2 "paid" ∷ doc 3 "new" ∷ doc 4 "new" ∷ [];
}

abbrev values : Values
values =
    (codes "state", codes "new" ∷ [])
    ∷ (codes "_limit", codes "2" ∷ [])
    ∷ (codes "_sort", codes "id" ∷ [])
    ∷ (codes "_order", codes " DESC" ∷ [])
    ∷ []

abbrev query : ListQuery
query = record {
  page = 1;
  limit = 2;
  sort = codes "id";
  desc = true;
  filters = record { field = codes "state"; values = codes "new" ∷ [] } ∷ [];
}

parsed : parse_list_query values ≡ read query
unfolding parse_list_query
parsed = refl

misspelt :
    parse_list_query ((codes "_limits", codes "5" ∷ []) ∷ [])
    ≡ refused (unknown_param (codes "_limits"))
unfolding parse_list_query
misspelt = refl

-- The number 4 is found by the text of its digits.
by_number :
    matching ops (record { field = codes "id"; values = codes "4" ∷ [] } ∷ []) orders
    ≡ doc 4 "new" ∷ []
unfolding matching lookup parse_digits
by_number = refl

first_page :
    list_documents ops query orders
    ≡ some (record { documents = doc 4 "new" ∷ doc 3 "new" ∷ []; total = 3 })
unfolding list_documents parse_digits bytes_le
first_page = refl

past_the_end :
    list_documents ops (record query { page = 3 }) orders
    ≡ some (record { documents = []; total = 3 })
unfolding list_documents parse_digits bytes_le
past_the_end = refl

three : length (matching ops query.filters orders) ≡ 3
unfolding matching lookup parse_digits
three = refl

parse_list_query_iff_example : IsAccepted values query
parse_list_query_iff_example = (parse_list_query_iff values query).0 parsed

turned-matching_example :
    (turned ops 2 query orders
      ≡ order_by ops query.sort query.desc (matching ops query.filters orders))
    × Perm (turned ops 2 query orders) (matching ops query.filters orders)
turned-matching_example =
    turned-matching ops 2 query orders refl (omega arith) (omega arith) (omega (arith, three))

list_documents-wrapped_example :
    list_documents ops (record query { page = suc (9223372036854775808 + 1) }) orders
    ≡ list_documents ops (record query { page = suc 1 }) orders
list_documents-wrapped_example =
    list_documents-wrapped ops query orders 9223372036854775808 1 refl (omega arith) (omega arith)

list_documents-IsShown_example :
    (page : DocumentPage) × (list_documents ops query orders ≡ some page)
    × (page.total ≡ length (matching ops query.filters orders))
    × (length page.documents ≤ max_list_limit)
    × All (IsShown ops query) page.documents
list_documents-IsShown_example =
    list_documents-IsShown ops values query orders 0 parsed refl refl (omega arith)
