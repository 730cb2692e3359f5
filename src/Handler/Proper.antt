-- ===== src/Handler/Proper.antt =====
-- What every answer keeps to: no body where the status admits none, and a Content-Type with a body.
use restest.Base.{
  ℕ, ◌≡◌, ◌≢◌, ◌<◌, ◌≤◌, ◌&&◌, leb, refl, ◌⊎◌, inl, inr, Bool, true, false, Bool-cases,
  Option-cases, if◌then◌else◌, [], ◌∷◌, some, arith, Bytes, lookup, lookup-put_self,
}
use restest.Forms.Headers.{Headers}
use restest.Mock.Route.{Route}
use restest.Documents
use restest.Documents.{
  Body, done, deleted, not_found, not_an_object, no_free_id, counter_overflow, not_json,
  get_document,
}
use restest.Handler.{
  HttpLibrary, MockRequest, Content, no_content, Reply, unanswered, reply, content_type,
  body_allowed, mock_delay, has_type, with_type, write_mock_json, write_json, write_mock_error,
  sniffed, body_of, set_headers, serve_mock_response, reject_document,
}

abbrev HasType : Headers → Type 0
HasType h = (type : Bytes) × (lookup content_type h ≡ some type)

-- By RFC 9110 a body does not go with an informational status, with 204 and with 304.
abbrev pub MayHaveBody : ℕ → Type 0
MayHaveBody status = ((status < 100) ⊎ (200 ≤ status)) × (status ≢ 204) × (status ≢ 304)

abbrev pub IsProper : Reply → Type 0
IsProper unanswered = Unit
IsProper (reply status h content) = (content ≡ no_content) ⊎ (MayHaveBody status × HasType h)

-- The table of `bodyAllowed` admits no other status.
body_allowed-MayHaveBody : (status : ℕ) → body_allowed status ≡ true → MayHaveBody status
unfolding body_allowed
body_allowed-MayHaveBody status h = (
  elim (Bool-cases (leb 100 status && leb status 199)) [
    | inl e ↦ absurd (ground arith)
    | inr e ↦ ground arith
  ],
  λ e. absurd (ground arith),
  λ e. absurd (ground arith),
)

with_type-HasType : (type : Bytes) (h : Headers) → HasType (with_type type h)
unfolding with_type
with_type-HasType type h = elim (Bool-cases (has_type (lookup content_type h))) [
  | inl e ↦ elim (Option-cases (lookup content_type h)) [
    | inl k ↦ absurd (ground arith)
    | inr (t, k) ↦ (t, rw e k)
  ]
  | inr e ↦ (type, rw e (lookup-put_self content_type type h))
]

module _ (status : ℕ) (allowed : body_allowed status ≡ true) where
  pub write_mock_json-IsProper : (c : Content) (h : Headers) → IsProper (write_mock_json status c h)
  unfolding write_mock_json
  write_mock_json-IsProper c h =
      inr (body_allowed-MayHaveBody status allowed, with_type-HasType _ h)

  pub write_json-IsProper : (c : Content) (h : Headers) → IsProper (write_json status c h)
  unfolding write_json
  write_json-IsProper c h =
      inr (body_allowed-MayHaveBody status allowed, (_, lookup-put_self content_type _ h))

  pub write_mock_error-IsProper :
      (r : MockRequest) (h : Headers) → IsProper (write_mock_error status r h)
  unfolding write_mock_error
  write_mock_error-IsProper r h = write_mock_json-IsProper _ h

abbrev Allowed : ℕ → Type 0
Allowed status = body_allowed status ≡ true

pub allows_200 : Allowed 200
unfolding body_allowed
allows_200 = refl

pub allows_201 : Allowed 201
unfolding body_allowed
allows_201 = refl

pub allows_400 : Allowed 400
unfolding body_allowed
allows_400 = refl

pub allows_404 : Allowed 404
unfolding body_allowed
allows_404 = refl

pub allows_405 : Allowed 405
unfolding body_allowed
allows_405 = refl

pub allows_413 : Allowed 413
unfolding body_allowed
allows_413 = refl

pub allows_500 : Allowed 500
unfolding body_allowed
allows_500 = refl

module _ (http : HttpLibrary) (r : MockRequest) where
  sniffed-HasType : (c : ℕ) (s : Bytes) (h : Headers) → HasType (sniffed http (c ∷ s) h)
  sniffed-HasType c s h = with_type-HasType _ h

  body_of-IsProper :
      (status : ℕ) (body : Bytes) (h : Headers)
      → Allowed status
      → IsProper (reply status (sniffed http body h) (body_of http body))
  body_of-IsProper status [] h a = inl refl
  body_of-IsProper status (c ∷ s) h a =
      inr (body_allowed-MayHaveBody status a, sniffed-HasType c s h)

  static-IsProper :
      (allowed : Bool) (status : ℕ) (body : Bytes) (h : Headers)
      → body_allowed status ≡ allowed
      → IsProper
          (reply status (sniffed http body h) (if allowed then body_of http body else no_content))
  static-IsProper true status body h a = body_of-IsProper status body h a
  static-IsProper false status body h a = inl refl

  pub serve_mock_response-IsProper :
      (route : Route) (h : Headers) → IsProper (serve_mock_response http r route h)
  unfolding serve_mock_response
  serve_mock_response-IsProper route h = elim (Bool-cases (mock_delay r.gave_up route.delay_ms)) [
    | inr e ↦ rw (e, serve_mock_response) tt
    | inl e ↦
        rw (e, serve_mock_response)
          (static-IsProper (body_allowed route.status_code) route.status_code route.body
            (set_headers http route.headers h) refl)
  ]

  pub reject_document-IsProper :
      (h : Headers) (e : Documents.Result) → IsProper (reject_document http r h e)
  reject_document-IsProper h not_an_object = write_mock_error-IsProper 400 allows_400 r h
  reject_document-IsProper h not_found = write_mock_error-IsProper 404 allows_404 r h
  reject_document-IsProper h (done id stored) = write_mock_error-IsProper 500 allows_500 r h
  reject_document-IsProper h deleted = write_mock_error-IsProper 500 allows_500 r h
  reject_document-IsProper h no_free_id = write_mock_error-IsProper 500 allows_500 r h
  reject_document-IsProper h counter_overflow = write_mock_error-IsProper 500 allows_500 r h
  reject_document-IsProper h not_json = write_mock_error-IsProper 500 allows_500 r h
