-- ===== src/Fields.antt =====
-- internal/core/errors.go, `FieldErrors`: what a form's fields were refused for. Each message of the
-- source is a constructor, with the values that it is formatted with.
use restest.Base.{ℕ, ◌≢◌, List, [], ◌∷◌, none, some, arith, Bytes, lookup, put}

pub data Message : Type 0 where
  path_too_long path_too_deep path_control path_query path_not_whole : Message
  param_twice : Bytes → Message
  method_unknown kind_unknown status_range delay_range body_too_long : Message
  collection_path_id collection_missing : Message
  headers_too_many : Message
  header_name header_forbidden header_too_long header_breaks : Bytes → Message
  email_empty email_too_long email_shape : Message
  password_empty password_short password_too_long : Message
  slug_empty slug_shape slug_reserved : Message
  project_name_empty token_name_empty collection_name_empty collection_name_shape : Message
  name_control : Message
  characters : ℕ → Message
  id_field_empty id_field_shape strategy_unknown : Message
  token_days : Message
  seed_too_large seed_is_null seed_not_array : Message
  seed_json : Bytes → Message
  seed_too_many : Message
  seed_entry seed_entry_id : ℕ → Message
  seed_shared_id : Bytes → Message
  collection_unset : Message
  dataset_unknown : Bytes → Message

abbrev pub FieldErrors : Type 0
FieldErrors = List (Bytes × Message)

-- `Add` keeps the first message of a field.
unfoldable pub add_error : Bytes → Message → FieldErrors → FieldErrors
unfolding lookup put
add_error field message fe = elim (lookup field fe) [ some _ ↦ fe | none ↦ put field message fe ]

pub add_error-ne-nil : (field : Bytes) (m : Message) (fe : FieldErrors) → add_error field m fe ≢ []
unfolding add_error put
add_error-ne-nil field m [] h = cc
add_error-ne-nil field m ((k, n) ∷ fe) h = ground arith
