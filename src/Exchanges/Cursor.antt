-- ===== src/Exchanges/Cursor.antt =====
-- `ExchangeCursor`: the position in a log, as it stands in a URL.
use restest.Base.{
  ℕ, ◌≤◌, ◌≡◌, refl, sym, ap, ◌∙◌, ◌≢◌, [], ◌∷◌, ◌++◌, Option, none, some, arith, Bytes, cut_at,
  cut_at-append, format_int, parse_int, parse_int-format_int, has_byte-format_int, max_int64, Int64,
  pos,
}

-- What the source calls of github.com/google/uuid.
pub record UuidLibrary : Type 1 where
  pub Uuid : Type 0
  pub nil : Uuid
  pub to_text : Uuid → Bytes
  pub parse : Bytes → Option Uuid

module _ (lib : UuidLibrary) where
  -- `at` is in microseconds since 1970, and `none` the zero time.
  pub record Cursor : Type 0 where
    pub at : Option ℕ
    pub id : lib.Uuid

  pub data Parsed : Type 0 where
    parsed : Option Int64 → lib.Uuid → Parsed
    refused : Parsed

  abbrev text_of : Option ℕ → lib.Uuid → Bytes
  text_of none id = []
  text_of (some t) id = format_int t ++ b'-' ∷ lib.to_text id

  -- `String`
  unfoldable pub cursor_text : Cursor → Bytes
  unfolding format_int
  cursor_text c = text_of c.at c.id

  abbrev parsed_at : Option Int64 → Option lib.Uuid → Parsed
  parsed_at (some t) (some id) = parsed (some t) id
  parsed_at _ _ = refused

  abbrev parsed_parts : Option (Bytes × Bytes) → Parsed
  parsed_parts none = refused
  parsed_parts (some (micros, rest)) = parsed_at (parse_int micros) (lib.parse rest)

  -- `ParseExchangeCursor`
  unfoldable pub parse_cursor : Bytes → Parsed
  unfolding parse_int cut_at
  parse_cursor [] = parsed none lib.nil
  parse_cursor (c ∷ s) = parsed_parts (cut_at b'-' (c ∷ s))

  abbrev pub instant : Option ℕ → Option Int64
  instant none = none
  instant (some t) = some (pos t)

  parse_cursor_parts : (s : Bytes) → s ≢ [] → parse_cursor s ≡ parsed_parts (cut_at b'-' s)
  unfolding parse_cursor
  parse_cursor_parts [] h = absurd (h refl)
  parse_cursor_parts (c ∷ s) h = refl

  append-ne-nil : (s t : Bytes) (c : ℕ) → s ++ c ∷ t ≢ []
  append-ne-nil [] t c h = cc
  append-ne-nil (d ∷ s) t c h = cc

  parse_cursor-text_of :
      (at : Option ℕ) (id : lib.Uuid)
      → ((u : lib.Uuid) → lib.parse (lib.to_text u) ≡ some u)
      → ((t : ℕ) → at ≡ some t → t ≤ max_int64)
      → (at ≡ none → id ≡ lib.nil)
      → parse_cursor (text_of at id) ≡ parsed (instant at) id
  unfolding parse_cursor
  parse_cursor-text_of none id back bound zero_id = ap (parsed none) (sym (zero_id refl))
  parse_cursor-text_of (some t) id back bound zero_id =
      parse_cursor_parts _ (append-ne-nil (format_int t) (lib.to_text id) b'-')
      ∙ (ap parsed_parts (
            cut_at-append b'-' (format_int t) (lib.to_text id)
              (has_byte-format_int b'-' t (omega arith)))
          ∙ (ap (λ n. parsed_at n (lib.parse (lib.to_text id)))
                (parse_int-format_int t (bound t refl))
              ∙ ap (parsed_at (some (pos t))) (back id)))

  -- A position in a log, at an instant since 1970 in 64 bits or the zero position, is read back from
  -- its text, provided that a uuid is.
  pub parse_cursor-cursor_text :
      (c : Cursor)
      → ((u : lib.Uuid) → lib.parse (lib.to_text u) ≡ some u)
      → ((t : ℕ) → c.at ≡ some t → t ≤ max_int64)
      → (c.at ≡ none → c.id ≡ lib.nil)
      → parse_cursor (cursor_text c) ≡ parsed (instant c.at) c.id
  unfolding cursor_text
  parse_cursor-cursor_text c = parse_cursor-text_of c.at c.id
