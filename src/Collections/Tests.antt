-- ===== src/Collections/Tests.antt =====
-- Runs of the seeding, and the theorems at them.
use restest.Base.{
  ℕ, ◌≤◌, ◌≡◌, refl, ◌≢◌, ◌↔◌, true, false, List, [], ◌∷◌, arith, Any, Bytes, codes, contains, same,
  some, if◌then◌else◌, format_int, max_int64,
}
use restest.Paths.Validate.{IsDistinct}
use restest.Collections.{
  Element, object, null_element, number, text, SeedDoc, seeded, panicked, serial, read_ids,
  shared_id, seed_documents, ids_of, next_serial_after,
}
use restest.Collections.Seeds.{seed_documents-IsDistinct}
use restest.Collections.Panic.{Passes, IsNull, seed_documents-panicked}
use restest.Forms.Collection.{JsonLibrary}
use restest.Database.{Database, Project, ok, failed, invalid, collection_exists, owns, exists_by}
use restest.Collections.Store.{
  seed_errors, CollectionInput, new_row, seeding, reseeded, normalize, create_collection,
}
use restest.Collections.Create.{
  created_answer, create_collection-stored, create_collection-leftover,
}

-- `[{"id": 2}, {"n": "x"}, {"id": "a"}, {}]`
abbrev sample : List Element
sample =
    object ((codes "id", number b'2' []) ∷ [])
    ∷ object ((codes "n", text (codes "x")) ∷ [])
    ∷ object ((codes "id", text (codes "a")) ∷ [])
    ∷ object []
    ∷ []

abbrev uuids : ℕ → Bytes
uuids i = codes "u"

abbrev docs : List SeedDoc
docs =
    record { public_id = codes "2"; body = (codes "id", number b'2' []) ∷ [] }
    ∷ record {
      public_id = codes "1";
      body = (codes "n", text (codes "x")) ∷ (codes "id", number b'1' []) ∷ [];
    }
    ∷ record { public_id = codes "a"; body = (codes "id", text (codes "a")) ∷ [] }
    ∷ record { public_id = codes "3"; body = (codes "id", number b'3' []) ∷ [] }
    ∷ []

sample_seeded : seed_documents serial uuids (codes "id") sample ≡ seeded docs 4
unfolding seed_documents
sample_seeded = refl

seed_documents-IsDistinct_example : IsDistinct (ids_of docs)
seed_documents-IsDistinct_example =
    seed_documents-IsDistinct uuids (codes "id") sample docs 4 sample_seeded

some_uuid : (i : ℕ) → uuids i ≢ []
some_uuid i e = cc

-- `[null]`
abbrev one_null : List Element
one_null = null_element ∷ []

one_null_panics : seed_documents serial uuids (codes "id") one_null ≡ panicked
unfolding seed_documents
one_null_panics = refl

seed_documents-panicked_example :
    (seed_documents serial uuids (codes "id") one_null ≡ panicked)
    ↔ (Passes (read_ids 0 (codes "id") one_null []) × Any IsNull one_null)
seed_documents-panicked_example = seed_documents-panicked serial uuids (codes "id") one_null

abbrev largest : List Bytes
largest = codes "7" ∷ codes "9223372036854775807" ∷ []

largest_there : contains (format_int max_int64) largest ≡ true
unfolding contains format_int same
largest_there = refl

abbrev mixed : List Bytes
mixed = codes "7" ∷ codes "-3" ∷ codes "x" ∷ codes "007" ∷ []

mixed_next : next_serial_after mixed ≡ 8
unfolding next_serial_after
mixed_next = refl

mixed_behind : next_serial_after mixed ≤ 9
mixed_behind = ground (arith, mixed_next)

-- A decoder of one text, to two entries that state one identifier; any other text is an empty array.
abbrev json : JsonLibrary
json = record {
  unmarshal = λ s.
      if same s (codes "twice")
      then some (
          object ((codes "id", number b'1' []) ∷ [])
          ∷ object ((codes "id", number b'1' []) ∷ [])
          ∷ [])
      else some (object [] ∷ []);
  unmarshal_error = λ s. s;
  valid = λ _. true;
}

abbrev shop : Project
shop = record {
  id = codes "p";
  owner_id = codes "o";
  slug = codes "shop";
  name = codes "Shop";
  is_demo = false;
  created_at = 0;
  updated_at = 0;
}

abbrev db : Database
db = record { users = []; tokens = []; projects = shop ∷ []; collections = []; endpoints = [] }

abbrev form : Bytes → CollectionInput
form seed = record { name = codes "Users"; id_field = []; id_strategy = []; seed = seed }

abbrev accepted : Bytes → CollectionInput
accepted seed = record {
  name = codes "users";
  id_field = codes "id";
  id_strategy = codes "serial";
  seed = seed;
}

abbrev twice : List Element
twice = object ((codes "id", number b'1' []) ∷ []) ∷ object ((codes "id", number b'1' []) ∷ []) ∷ []

twice_accepted : normalize json (form (codes "twice")) ≡ ok (accepted (codes "twice"), twice)
unfolding normalize same
twice_accepted = refl

once_accepted : normalize json (form (codes "[{}]")) ≡ ok (accepted (codes "[{}]"), object [] ∷ [])
unfolding normalize same
once_accepted = refl

create_collection-stored_example :
    create_collection json uuids (codes "c") (codes "o") (codes "p") (form (codes "[{}]")) db ≡ (
      let c = new_row (codes "c") (codes "p") (accepted (codes "[{}]")) (object [] ∷ []) in
      (
        created_answer (seeding uuids c) c,
        record db { collections = reseeded (seeding uuids c) c ∷ [] },
      ))
unfolding owns exists_by same
create_collection-stored_example =
    create_collection-stored json uuids (codes "c") (codes "o") (codes "p") (form (codes "[{}]")) db
      (accepted (codes "[{}]")) (object [] ∷ []) once_accepted refl refl refl

create_collection-leftover_example :
    ((create_collection json uuids (codes "c") (codes "o") (codes "p") (form (codes "twice")) db).0
      ≡ failed (invalid (seed_errors (shared_id (codes "1")))))
    × ((create_collection json uuids
          (codes "d")
          (codes "o")
          (codes "p")
          (form (codes "[{}]"))
          (create_collection json uuids
            (codes "c")
            (codes "o")
            (codes "p")
            (form (codes "twice"))
            db).1).0
        ≡ failed collection_exists)
unfolding owns exists_by same seeding new_row
create_collection-leftover_example =
    create_collection-leftover json uuids uuids (codes "c") (codes "d") (codes "o") (codes "p")
      (form (codes "twice")) (form (codes "[{}]")) db (accepted (codes "twice"))
      (accepted (codes "[{}]")) twice (object [] ∷ []) (shared_id (codes "1")) twice_accepted
      once_accepted refl refl refl refl refl
