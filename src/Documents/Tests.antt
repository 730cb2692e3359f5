-- ===== src/Documents/Tests.antt =====
-- Runs of the requests on a small collection, and the theorems at them.
use restest.Base.{same, lookup, ℕ, ◌≡◌, refl, List, [], ◌∷◌, All, Bytes, codes, lookup}
use restest.Collections.{
  Element, object, Fields, text, number, serial, SeedDoc, seeded, seed_documents, scalar_text,
}
use restest.Documents.{
  not_json, Collection, done, json_object, no_object, Request, create, replace, patch, delete,
  serve, serve_all, get_document,
}
use restest.Documents.Invariant.{IsWellFormed, Drawn, serve_all-IsWellFormed}
use restest.Documents.View.{seen, get_document-serve}

abbrev id_key : Bytes
id_key = codes "id"

abbrev users : Collection
users = record {
  id_field = id_key;
  id_strategy = serial;
  next_serial = 2;
  documents = (codes "1", (id_key, number b'1' []) ∷ (codes "n", text (codes "x")) ∷ []) ∷ [];
}

abbrev draws : ℕ → Bytes
draws i = codes "u"

abbrev renamed : Fields
renamed = (id_key, text (codes "9")) ∷ (codes "m", text (codes "y")) ∷ []

-- A client cannot change the identifier, and a field that it does not name stays.
patched :
    (serve (patch (codes "1") (json_object renamed)) users).0
    ≡ done (codes "1") (
        (id_key, number b'1' [])
        ∷ (codes "n", text (codes "x"))
        ∷ (codes "m", text (codes "y"))
        ∷ [])
unfolding serve
patched = refl

get_document-serve_example :
    get_document (codes "1") (serve (replace (codes "1") (json_object renamed)) users).1
    ≡ seen
        (replace (codes "1") (json_object renamed))
        (serve (replace (codes "1") (json_object renamed)) users).0
        (λ k. get_document k users)
        (codes "1")
get_document-serve_example =
    get_document-serve (replace (codes "1") (json_object renamed)) users (codes "1")

abbrev requests : List Request
requests =
    create draws (json_object renamed)
    ∷ patch (codes "1") (json_object renamed)
    ∷ delete (codes "1")
    ∷ replace (codes "1") no_object
    ∷ []

draws-Drawn : All Drawn requests
draws-Drawn = (λ i e. cc, (tt, (tt, (tt, tt))))

users-IsWellFormed : IsWellFormed users
unfolding lookup scalar_text same
users-IsWellFormed = record {
  once = (refl, tt);
  own = (record { raw = number b'1' []; field = refl; scalar = refl }, tt);
}

serve_all-IsWellFormed_example : IsWellFormed (serve_all requests users)
serve_all-IsWellFormed_example =
    serve_all-IsWellFormed requests users draws-Drawn users-IsWellFormed

abbrev seed : List Element
seed = object ((id_key, number b'7' []) ∷ []) ∷ object [] ∷ []

abbrev docs : List SeedDoc
docs =
    record { public_id = codes "7"; body = (id_key, number b'7' []) ∷ [] }
    ∷ record { public_id = codes "1"; body = (id_key, number b'1' []) ∷ [] }
    ∷ []

seed-docs : seed_documents serial draws id_key seed ≡ seeded docs 8
unfolding seed_documents
seed-docs = refl

-- A seed may state an identifier with a control character, here the bell.
abbrev bell : Collection
bell = record users { documents = (97 ∷ 7 ∷ [], (id_key, text (97 ∷ 7 ∷ [])) ∷ []) ∷ [] }

bell_refused : (serve (patch (97 ∷ 7 ∷ []) (json_object renamed)) bell).0 ≡ not_json
unfolding serve
bell_refused = refl
