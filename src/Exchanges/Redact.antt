-- ===== src/Exchanges/Redact.antt =====
-- `Redacted` and `redactValue`: no credential is kept.
use restest.Base.{
  ℕ, ◌≤◌, ◌≡◌, sym, ap, ◌∙◌, true, false, List, [], ◌∷◌, ◌++◌, some, map, arith, length, Bytes,
  has_byte, cut_at, cut_at-cases, cut_at-append, Bool-cases, inl, inr,
}
use restest.Paths.{trim_space}
use restest.Exchanges.{
  HeaderSet, redacted_marker, is_sensitive, is_scheme_word, all_letters, masked_as, redact_value,
  redacted,
}

-- What stands for a value: the marker alone, or behind the scheme, a word of at most 32 letters that
-- the value begins with.
pub data Masks (value : Bytes) : Bytes → Type 0 where
  whole : Masks value redacted_marker
  behind_scheme :
      (scheme secret : Bytes)
      → trim_space value ≡ scheme ++ b' ' ∷ secret
      → all_letters scheme ≡ true
      → length scheme ≤ 32
      → Masks value (scheme ++ b' ' ∷ redacted_marker)

is_scheme_word-letters :
    (s : Bytes) → is_scheme_word s ≡ true → (all_letters s ≡ true) × (length s ≤ 32)
unfolding is_scheme_word
is_scheme_word-letters [] h = cc
is_scheme_word-letters (c ∷ s) h = ground arith

masked_as-Masks :
    (value scheme secret : Bytes)
    → trim_space value ≡ scheme ++ b' ' ∷ secret
    → Masks value (masked_as (some (scheme, secret)))
masked_as-Masks value scheme [] h = whole
masked_as-Masks value scheme (c ∷ s) h = elim (Bool-cases (is_scheme_word scheme)) [
  | inl e ↦
      let (letters, short) = is_scheme_word-letters scheme e in
      rw e (behind_scheme scheme (c ∷ s) h letters short)
  | inr e ↦ rw e whole
]

redact_value-Masks : (value : Bytes) → Masks value (redact_value value)
unfolding redact_value
redact_value-Masks value = elim (cut_at-cases b' ' (trim_space value)) [
  | inl e ↦ rw e whole
  | inr (scheme, secret, e, parts, _) ↦ rw e (masked_as-Masks value scheme secret parts)
]

pub data AllMasks : List Bytes → List Bytes → Type 0 where
  no_values : AllMasks [] []
  next_value :
      {value out : Bytes} {values outs : List Bytes}
      → Masks value out
      → AllMasks values outs
      → AllMasks (value ∷ values) (out ∷ outs)

-- Header by header: the values of a sensitive one are masked, those of another are as they were.
pub data Redaction : HeaderSet → HeaderSet → Type 0 where
  no_headers : Redaction [] []
  sensitive :
      {name : Bytes} {values outs : List Bytes} {h h' : HeaderSet}
      → is_sensitive name ≡ true
      → AllMasks values outs
      → Redaction h h'
      → Redaction ((name, values) ∷ h) ((name, outs) ∷ h')
  plain :
      {name : Bytes} {values : List Bytes} {h h' : HeaderSet}
      → is_sensitive name ≡ false
      → Redaction h h'
      → Redaction ((name, values) ∷ h) ((name, values) ∷ h')

map-AllMasks : (values : List Bytes) → AllMasks values (map redact_value values)
map-AllMasks [] = no_values
map-AllMasks (value ∷ values) = next_value (redact_value-Masks value) (map-AllMasks values)

-- Of a header that carries a credential no value is kept but, at most, the word of at most 32 letters
-- that it begins with; every name is kept, and every value of the other headers.
pub redacted-Redaction : (h : HeaderSet) → Redaction h (redacted h)
unfolding redacted
redacted-Redaction [] = no_headers
redacted-Redaction ((name, values) ∷ h) = elim (Bool-cases (is_sensitive name)) [
  | inl e ↦ rw e (sensitive e (map-AllMasks values) (redacted-Redaction h))
  | inr e ↦ rw e (plain e (redacted-Redaction h))
]

-- Two values that begin with the same word are masked alike, whatever credentials stand behind it:
-- nothing of them can be told from what is kept.
pub redact_value-same :
    (value other scheme : Bytes) (c d : ℕ) (secret hidden : Bytes)
    → trim_space value ≡ scheme ++ b' ' ∷ c ∷ secret
    → trim_space other ≡ scheme ++ b' ' ∷ d ∷ hidden
    → has_byte b' ' scheme ≡ false
    → redact_value value ≡ redact_value other
unfolding redact_value
redact_value-same value other scheme c d secret hidden h k one_word =
    ap (λ s. masked_as (cut_at b' ' s)) h
    ∙ (ap masked_as (cut_at-append b' ' scheme (c ∷ secret) one_word)
        ∙ (sym (ap masked_as (cut_at-append b' ' scheme (d ∷ hidden) one_word))
            ∙ sym (ap (λ s. masked_as (cut_at b' ' s)) k)))
