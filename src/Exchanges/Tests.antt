-- ===== src/Exchanges/Tests.antt =====
-- Runs of the redaction and of the cursor, and the theorems at them.
use restest.Base.{
  same, same, ℕ, ◌≤◌, ◌≡◌, refl, true, false, [], ◌∷◌, ◌++◌, none, some, arith, Bytes, codes,
  has_byte, max_int64,
}
use restest.Paths.{trim_space}
use restest.Exchanges.{
  HeaderSet, Exchange, redacted, exchange_params, outcome, client_error, target,
}
use restest.Exchanges.Stored.{Kept, exchange_params-Kept}
use restest.Exchanges.Cursor.{
  UuidLibrary, Cursor, cursor_text, parse_cursor, parsed, instant, parse_cursor-cursor_text,
}

abbrev headers : HeaderSet
headers =
    (codes "Authorization", codes "Bearer abc.def" ∷ codes "s3cret" ∷ [])
    ∷ (codes "Accept", codes "a b" ∷ [])
    ∷ []

headers_masked :
    redacted headers
    ≡ (codes "Authorization", codes "Bearer [redacted]" ∷ codes "[redacted]" ∷ [])
      ∷ (codes "Accept", codes "a b" ∷ [])
      ∷ []
unfolding redacted same
headers_masked = refl

abc_parts : trim_space (codes "Bearer abc") ≡ codes "Bearer" ++ b' ' ∷ b'a' ∷ codes "bc"
unfolding trim_space
abc_parts = refl

xyz_parts : trim_space (codes " Bearer xyz0") ≡ codes "Bearer" ++ b' ' ∷ b'x' ∷ codes "yz0"
unfolding trim_space
xyz_parts = refl

one_word : has_byte b' ' (codes "Bearer") ≡ false
unfolding has_byte
one_word = refl

abbrev exchange : Exchange
exchange = record {
  matched = true;
  path = codes "/a";
  query = codes "b=1";
  direction = [];
  request_headers = headers;
  request_body = codes "{}";
  request_body_truncated = false;
  status_code = 404;
  response_headers = [];
  response_body = [];
  response_body_truncated = true;
}

exchange-outcome : outcome exchange ≡ client_error
unfolding outcome
exchange-outcome = refl

exchange-target : target exchange ≡ codes "/a?b=1"
unfolding target
exchange-target = refl

exchange_params-Kept_example : Kept exchange (exchange_params exchange)
exchange_params-Kept_example = exchange_params-Kept exchange

-- Identifiers as their texts.
abbrev texts : UuidLibrary
texts = record { Uuid = Bytes; nil = []; to_text = λ u. u; parse = λ s. some s }

abbrev position : Cursor texts
position = record { at = some 1785542400000000; id = codes "4f-2" }

position_text : cursor_text texts position ≡ codes "1785542400000000-4f-2"
unfolding cursor_text
position_text = refl

position_bound : (t : ℕ) → position.at ≡ some t → t ≤ max_int64
position_bound t e = ground arith

position_zero : position.at ≡ none → position.id ≡ texts.nil
position_zero e = cc

parse_cursor-cursor_text_example :
    parse_cursor texts (cursor_text texts position) ≡ parsed (instant texts position.at) position.id
parse_cursor-cursor_text_example =
    parse_cursor-cursor_text texts position (λ u. refl) position_bound position_zero
