-- ===== src/Exchanges.antt =====
-- internal/core/exchange.go: what is kept of a request and its response, and the position in the log.
pub mod Redact
pub mod Stored
pub mod Cursor
mod Tests
use restest.Base.{
  ℕ, ◌+◌, ◌*◌, ◌^◌, Bool, true, false, not, ◌&&◌, ◌||◌, List, [], ◌∷◌, ◌++◌, Option, none, some,
  map, length, take, ltb, leb, if◌then◌else◌, Bytes, codes, same, contains, to_lower, cut_at,
}
use restest.Paths.{trim_space}

-- 1 MiB
abbrev pub max_exchange_body : ℕ
max_exchange_body = 1048576

-- A header is its name and its values; the names are ASCII, as those of HTTP are.
abbrev pub HeaderSet : Type 0
HeaderSet = List (Bytes × List Bytes)

abbrev pub redacted_marker : Bytes
redacted_marker = codes "[redacted]"

abbrev pub sensitive_headers : List Bytes
sensitive_headers =
    codes "authorization"
    ∷ codes "proxy-authorization"
    ∷ codes "cookie"
    ∷ codes "set-cookie"
    ∷ codes "x-api-key"
    ∷ codes "x-auth-token"
    ∷ []

unfoldable pub is_sensitive : Bytes → Bool
unfolding to_lower contains
is_sensitive name = contains (to_lower name) sensitive_headers

abbrev is_letter : ℕ → Bool
is_letter c = (leb b'a' c && leb c b'z') || (leb b'A' c && leb c b'Z')

abbrev pub all_letters : Bytes → Bool
all_letters [] = true
all_letters (c ∷ s) = is_letter c && all_letters s

unfoldable pub is_scheme_word : Bytes → Bool
is_scheme_word [] = false
is_scheme_word (c ∷ s) = not (ltb 32 (length (c ∷ s))) && all_letters (c ∷ s)

abbrev pub masked_as : Option (Bytes × Bytes) → Bytes
masked_as none = redacted_marker
masked_as (some (scheme, [])) = redacted_marker
masked_as (some (scheme, c ∷ rest)) =
    if is_scheme_word scheme then scheme ++ b' ' ∷ redacted_marker else redacted_marker

unfoldable pub redact_value : Bytes → Bytes
unfolding cut_at trim_space is_scheme_word
redact_value value = masked_as (cut_at b' ' (trim_space value))

-- `Redacted`
unfoldable pub redacted : HeaderSet → HeaderSet
unfolding is_sensitive redact_value
redacted [] = []
redacted ((name, values) ∷ h) =
    (name, if is_sensitive name then map redact_value values else values) ∷ redacted h

unfoldable pub cap_body : Bytes → Bool → Bytes × Bool
cap_body body truncated =
    if ltb max_exchange_body (length body)
    then (take max_exchange_body body, true)
    else (body, truncated)

pub record Exchange : Type 0 where
  pub matched : Bool
  pub path : Bytes
  pub query : Bytes
  pub direction : Bytes
  pub request_headers : HeaderSet
  pub request_body : Bytes
  pub request_body_truncated : Bool
  pub status_code : ℕ
  pub response_headers : HeaderSet
  pub response_body : Bytes
  pub response_body_truncated : Bool

abbrev or_inbound : Bytes → Bytes
or_inbound [] = codes "inbound"
or_inbound (c ∷ s) = c ∷ s

-- `exchangeParams`, of the fields above; the others are copied.
unfoldable pub exchange_params : Exchange → Exchange
unfolding redacted cap_body
exchange_params ex =
    let (request_body, request_truncated) = cap_body ex.request_body ex.request_body_truncated in
    let (response_body, response_truncated) =
      cap_body ex.response_body ex.response_body_truncated in
    record ex {
      direction = or_inbound ex.direction;
      request_headers = redacted ex.request_headers;
      request_body = request_body;
      request_body_truncated = request_truncated;
      response_headers = redacted ex.response_headers;
      response_body = response_body;
      response_body_truncated = response_truncated;
    }

pub data Outcome : Type 0 where
  unmatched server_error client_error ok : Outcome

unfoldable pub outcome : Exchange → Outcome
outcome ex =
    if not ex.matched
    then unmatched
    else if leb 500 ex.status_code
    then server_error
    else if leb 400 ex.status_code
    then client_error
    else ok

unfoldable pub target : Exchange → Bytes
target ex = elim ex.query [ [] ↦ ex.path | c ∷ s ↦ ex.path ++ b'?' ∷ c ∷ s ]
