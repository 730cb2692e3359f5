-- ===== src/Mock/Request.antt =====
-- internal/mock/trie.go, `splitRequestPath`: the decoded segments of an escaped path.
use restest.Base.{
  ℕ, ◌+◌, ◌-◌, ◌*◌, ◌==◌, ◌&&◌, List, [], ◌∷◌, map, Option, none, some, if◌then◌else◌, leb, Bytes,
  has_byte,
}
use restest.Paths.{split_path}

unfoldable pub hex_digit : ℕ → Option ℕ
hex_digit c =
    if leb b'0' c && leb c b'9'
    then some (c - b'0')
    else if leb b'a' c && leb c b'f'
    then some (c - b'a' + 10)
    else if leb b'A' c && leb c b'F'
    then some (c - b'A' + 10)
    else none

abbrev add_front : Option ℕ → Option Bytes → Option Bytes
add_front (some c) (some s) = some (c ∷ s)
add_front _ _ = none

abbrev hex_pair : Option ℕ → Option ℕ → Option ℕ
hex_pair (some a) (some b) = some (16 * a + b)
hex_pair _ _ = none

-- `url.PathUnescape`; `none` is its error, a `%` that two hexadecimal digits do not follow.
unfoldable pub path_unescape : Bytes → Option Bytes
unfolding hex_digit
path_unescape [] = some []
path_unescape (c ∷ a ∷ b ∷ s) =
    let decoded = add_front (hex_pair (hex_digit a) (hex_digit b)) (path_unescape s) in
    let plain = add_front (some c) (path_unescape (a ∷ b ∷ s)) in
    if c == b'%' then decoded else plain
path_unescape (c ∷ s) =
    let plain = add_front (some c) (path_unescape s) in if c == b'%' then none else plain

abbrev or_raw : Bytes → Option Bytes → Bytes
or_raw segment none = segment
or_raw segment (some decoded) = decoded

unfoldable pub decode_segment : Bytes → Bytes
unfolding path_unescape has_byte
decode_segment segment =
    if has_byte b'%' segment then or_raw segment (path_unescape segment) else segment

unfoldable pub split_request_path : Bytes → List Bytes
unfolding split_path decode_segment
split_request_path escaped = map decode_segment (split_path escaped)
