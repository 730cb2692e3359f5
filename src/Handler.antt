-- ===== src/Handler.antt =====
-- internal/web/mock.go and the handlers of internal/web/documents.go: how a request below /m/ is
-- answered. The text of an error's message is left out; what goes to the log and to the metrics too.
pub mod Safe
pub mod Proper
pub mod Answers
mod Tests
use restest.Base.{
  ℕ, zero, suc, Bool, true, false, not, ◌&&◌, ◌||◌, ◌==◌, leb, List, [], ◌∷◌, ◌++◌, Option, none,
  some, if◌then◌else◌, Bytes, codes, same, map, lookup, put, to_lower, cut_prefix, format_int,
}
use restest.Forms.Headers.{Headers}
use restest.Ratelimit.Guard.{mock_prefix}
use restest.Mock.Route.{
  Route, Op, respond, list, create, get, replace, patch, delete, document_param, trim_slash,
}
use restest.Mock.Nearest.{Ref}
use restest.Mock.Table.{Table, Result, matched, no_project, wrong_method, no_route, lookup_table}
use restest.Collections.{Fields, serial}
use restest.Documents
use restest.Documents.{
  Collection, Body, no_object, json_object, done, deleted, not_found, not_an_object, no_free_id,
  counter_overflow, not_json, get_document, serve,
}
use restest.Documents.Listing.{
  Values, JsonOps, DocumentPage, Read, read, refused, parse_list_query, list_documents,
}

-- What the handlers ask of net/http, net/url and encoding/json: the spelling of a header's name, the
-- escape of a path segment, whether a text is JSON, and the type guessed for one that is not.
pub record HttpLibrary : Type 0 where
  pub canonical : Bytes → Bytes
  pub path_escape : Bytes → Bytes
  pub is_json : Bytes → Bool
  pub detect : Bytes → Bytes

-- The end of `readMockBody`: the body, one over the limit, or a client that stopped sending.
pub data BodyRead : Type 0 where
  received : Body → BodyRead
  too_large cut_off : BodyRead

-- A request, with the uuids that it would draw and whether its client leaves during a delay.
pub record MockRequest : Type 0 where
  pub slug : Bytes
  pub method : Bytes
  pub escaped_path : Bytes
  pub query : Values
  pub body : BodyRead
  pub uuids : ℕ → Bytes
  pub gave_up : Bool

pub record MockError : Type 0 where
  pub project : Bytes
  pub method : Bytes
  pub path : Bytes
  pub allow : List Bytes
  pub nearest : List Ref

pub data Content : Type 0 where
  no_content : Content
  text_body : Bytes → Content
  document_body : Fields → Content
  list_body : List Fields → Content
  error_body : MockError → Content

-- What a handler writes: nothing, or a status with headers and a body.
pub data Reply : Type 0 where
  unanswered : Reply
  reply : ℕ → Headers → Content → Reply

-- The collections by their ids.
abbrev pub Collections : Type 0
Collections = List (Bytes × Collection)

abbrev pub content_type : Bytes
content_type = codes "Content-Type"

abbrev pub json_type : Bytes
json_type = codes "application/json; charset=utf-8"

-- `strings.Join(allow, ", ")`
abbrev pub join_list : List Bytes → Bytes
join_list [] = []
join_list (m ∷ []) = m
join_list (m ∷ n ∷ ms) = m ++ codes ", " ++ join_list (n ∷ ms)

abbrev from_slash : Bytes → Bytes
from_slash [] = codes "/"
from_slash (c ∷ s) = if c == b'/' then c ∷ s else from_slash s

unfoldable pub mock_sub_path : Bytes → Bytes
unfolding cut_prefix
mock_sub_path escaped = elim (cut_prefix mock_prefix escaped) [
  | none ↦ codes "/"
  | some rest ↦ from_slash rest
]

unfoldable pub body_allowed : ℕ → Bool
body_allowed status =
    if leb 100 status && leb status 199 then false else not (status == 204 || status == 304)

-- `mockDelay`: whether the request is still worth answering.
abbrev pub mock_delay : Bool → ℕ → Bool
mock_delay gave_up zero = true
mock_delay gave_up (suc ms) = not gave_up

abbrev has_type : Option Bytes → Bool
has_type none = false
has_type (some []) = false
has_type (some (c ∷ s)) = true

unfoldable pub with_type : Bytes → Headers → Headers
unfolding lookup put
with_type type h = if has_type (lookup content_type h) then h else put content_type type h

unfoldable pub write_mock_json : ℕ → Content → Headers → Reply
unfolding with_type
write_mock_json status content h = reply status (with_type json_type h) content

unfoldable pub write_json : ℕ → Content → Headers → Reply
unfolding put
write_json status content h = reply status (put content_type json_type h) content

unfoldable pub write_mock_error : ℕ → MockRequest → Headers → Reply
unfolding write_mock_json mock_sub_path
write_mock_error status r h =
    write_mock_json status
      (error_body (record {
        project = [];
        method = r.method;
        path = mock_sub_path r.escaped_path;
        allow = [];
        nearest = [];
      }))
      h

module _ (http : HttpLibrary) where
  -- The headers of the endpoint, which the source sets in any order.
  unfoldable pub set_headers : Headers → Headers → Headers
  unfolding put
  set_headers [] h = h
  set_headers ((name, value) ∷ rest) h = set_headers rest (put (http.canonical name) value h)

  abbrev pub sniff_content_type : Bytes → Bytes
  sniff_content_type body = if http.is_json body then json_type else http.detect body

  abbrev pub sniffed : Bytes → Headers → Headers
  sniffed [] h = h
  sniffed (c ∷ s) h = with_type (sniff_content_type (c ∷ s)) h

  abbrev body_of : Bytes → Content
  body_of [] = no_content
  body_of (c ∷ s) = text_body (c ∷ s)

  unfoldable pub serve_mock_response : MockRequest → Route → Headers → Reply
  unfolding set_headers with_type body_allowed
  serve_mock_response r route h =
      if mock_delay r.gave_up route.delay_ms
      then reply route.status_code (sniffed route.body (set_headers route.headers h))
          (if body_allowed route.status_code then body_of route.body else no_content)
      else unanswered

  unfoldable pub document_location : Bytes → Bytes → Bytes
  unfolding trim_slash
  document_location escaped id = trim_slash escaped ++ codes "/" ++ http.path_escape id

  -- `rejectDocument`
  abbrev pub reject_document : MockRequest → Headers → Documents.Result → Reply
  reject_document r h not_an_object = write_mock_error 400 r h
  reject_document r h not_found = write_mock_error 404 r h
  reject_document r h _ = write_mock_error 500 r h

  abbrev pub created_reply : MockRequest → Headers → Documents.Result → Reply
  created_reply r h (done id stored) =
      write_mock_json 201 (document_body stored)
        (put (codes "Location") (document_location r.escaped_path id) h)
  created_reply r h e = reject_document r h e

  abbrev pub wrote : MockRequest → Headers → Documents.Result → Reply
  wrote r h (done id stored) = write_mock_json 200 (document_body stored) h
  wrote r h e = reject_document r h e

  abbrev pub removed : MockRequest → Headers → Documents.Result → Reply
  removed r h deleted = reply 204 h no_content
  removed r h e = reject_document r h e

  abbrev pub no_documents : Collection
  no_documents = record { id_field = []; id_strategy = serial; next_serial = 0; documents = [] }

  -- The store's answer where the collection went away: a body that is no object comes first, then no
  -- counter, no field of the identifier, or no row.
  abbrev absent : Documents.Request → Documents.Result
  absent (Documents.create uuids no_object) = not_an_object
  absent (Documents.replace id no_object) = not_an_object
  absent (Documents.patch id no_object) = not_an_object
  absent _ = not_found

  unfoldable pub on_collection :
      Bytes → Documents.Request → Collections → Documents.Result × Collections
  unfolding lookup put serve
  on_collection id q store = elim (lookup id store) [
    | none ↦ (absent q, store)
    | some c ↦ let (result, c') = serve q c in (result, put id c' store)
  ]

  abbrev pub answered_by :
      (Documents.Result → Reply) → Documents.Result × Collections → Reply × Collections
  answered_by answer (result, store) = (answer result, store)

  -- `readMockBody`, and a write with the body that it gives.
  abbrev pub with_body :
      BodyRead
      → MockRequest
      → Headers
      → Collections
      → (Body → Reply × Collections)
      → Reply × Collections
  with_body (received body) r h store write = write body
  with_body too_large r h store write = (write_mock_error 413 r h, store)
  with_body cut_off r h store write = (unanswered, store)

  abbrev pub or_absent : Option Collection → Collection
  or_absent none = no_documents
  or_absent (some c) = c

  abbrev pub id_of : List (Bytes × Bytes) → Bytes
  id_of params = elim (lookup document_param params) [ none ↦ [] | some id ↦ id ]

  module _ (json : JsonOps) where
    abbrev answer_page : MockRequest → Headers → Option DocumentPage → Reply
    answer_page r h none = write_mock_error 500 r h
    answer_page r h (some page) =
        write_mock_json 200 (list_body (map (λ d. d.1) page.documents))
          (put (codes "X-Total-Count") (format_int page.total) h)

    unfoldable pub answer_list : MockRequest → Headers → Collection → Reply
    unfolding parse_list_query list_documents write_mock_error
    answer_list r h c = elim (parse_list_query r.query) [
      | refused e ↦ write_mock_error 400 r h
      | read q ↦ answer_page r h (list_documents json q c)
    ]

    abbrev answer_get : MockRequest → Headers → Option Fields → Reply
    answer_get r h none = write_mock_error 404 r h
    answer_get r h (some stored) = write_mock_json 200 (document_body stored) h

    -- The `switch` of `serveCollection`, with the headers set so far.
    unfoldable pub run_op :
        Op → MockRequest → Bytes → Bytes → Headers → Collections → Reply × Collections
    unfolding on_collection answer_list write_mock_error write_mock_json document_location lookup
        get_document
    run_op list r id collection h store =
        (answer_list r h (or_absent (lookup collection store)), store)
    run_op create r id collection h store = with_body r.body r h store (λ body.
        answered_by (created_reply r h)
          (on_collection collection (Documents.create r.uuids body) store))
    run_op get r id collection h store =
        (answer_get r h (get_document id (or_absent (lookup collection store))), store)
    run_op replace r id collection h store = with_body r.body r h store (λ body.
        answered_by (wrote r h) (on_collection collection (Documents.replace id body) store))
    run_op patch r id collection h store =
        with_body r.body r h store (λ body.
          answered_by (wrote r h) (on_collection collection (Documents.patch id body) store))
    run_op delete r id collection h store =
        answered_by (removed r h) (on_collection collection (Documents.delete id) store)
    run_op respond r id collection h store = (write_mock_error 500 r h, store)

    unfoldable pub serve_collection :
        MockRequest → Route → List (Bytes × Bytes) → Headers → Collections → Reply × Collections
    unfolding run_op set_headers
    serve_collection r route params h store =
        if mock_delay r.gave_up route.delay_ms
        then run_op route.op r (id_of params) route.collection_id (set_headers route.headers h)
            store
        else (unanswered, store)

    abbrev pub serve_matched :
        Op
        → MockRequest
        → Route
        → List (Bytes × Bytes)
        → Headers
        → Collections
        → Reply × Collections
    serve_matched respond r route params h store = (serve_mock_response r route h, store)
    serve_matched _ r route params h store = serve_collection r route params h store

    -- The `switch` of `handleMock`.
    unfoldable pub answer_result :
        MockRequest → Headers → Collections → Result → Reply × Collections
    unfolding serve_mock_response serve_collection write_json put same to_lower mock_sub_path
    answer_result r h store (matched p route params) = serve_matched route.op r route params h store
    answer_result r h store (wrong_method p allow) =
        let h' = put (codes "Allow") (join_list allow) h in
        (
          if same r.method (codes "OPTIONS")
              then reply 204 h' no_content
              else write_json 405
                  (error_body (record {
                    project = to_lower r.slug;
                    method = r.method;
                    path = mock_sub_path r.escaped_path;
                    allow = allow;
                    nearest = [];
                  }))
                  h',
          store,
        )
    answer_result r h store (no_route p near) = (
      write_json 404
          (error_body (record {
            project = to_lower r.slug;
            method = r.method;
            path = mock_sub_path r.escaped_path;
            allow = [];
            nearest = near;
          }))
          h,
      store,
    )
    answer_result r h store no_project = (
      write_json 404
          (error_body (record {
            project = [];
            method = r.method;
            path = mock_sub_path r.escaped_path;
            allow = [];
            nearest = [];
          }))
          h,
      store,
    )

    unfoldable pub handle_mock : Table → MockRequest → Headers → Collections → Reply × Collections
    unfolding answer_result lookup_table to_lower mock_sub_path
    handle_mock t r h store =
        answer_result r h store
          (lookup_table t (to_lower r.slug) r.method (mock_sub_path r.escaped_path))
