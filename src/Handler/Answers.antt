-- ===== src/Handler/Answers.antt =====
-- Every answer of `handleMock` is a proper one.
use restest.Base.{
  refl, inl, inr, Bool-cases, List, Option, none, some, Bytes, codes, same, to_lower, lookup, put,
}
use restest.Forms.Headers.{Headers}
use restest.Mock.Route.{Route, Op, respond, list, create, get, replace, patch, delete}
use restest.Mock.Table.{Table, Result, matched, no_project, wrong_method, no_route, lookup_table}
use restest.Collections.{Fields}
use restest.Documents
use restest.Documents.{
  Collection, Body, done, deleted, not_found, not_an_object, no_free_id, counter_overflow, not_json,
  get_document,
}
use restest.Documents.Listing.{JsonOps, DocumentPage, parse_list_query, list_documents}
use restest.Documents.Listing.Accepted.{Read-cases}
use restest.Handler.{
  HttpLibrary, MockRequest, BodyRead, received, too_large, cut_off, Reply, Collections, mock_delay,
  mock_sub_path, created_reply, wrote, removed, with_body, or_absent, join_list, answer_page,
  answer_list, answer_get, run_op, serve_collection, serve_matched, answer_result, handle_mock,
}
use restest.Handler.Proper.{
  IsProper, write_mock_json-IsProper, write_json-IsProper, write_mock_error-IsProper,
  serve_mock_response-IsProper, reject_document-IsProper, allows_200, allows_201, allows_400,
  allows_404, allows_405, allows_413, allows_500,
}

module _ (http : HttpLibrary) (r : MockRequest) where
  created_reply-IsProper :
      (h : Headers) (e : Documents.Result) → IsProper (created_reply http r h e)
  created_reply-IsProper h (done id stored) = write_mock_json-IsProper 201 allows_201 _ _
  created_reply-IsProper h deleted = reject_document-IsProper http r h deleted
  created_reply-IsProper h not_found = reject_document-IsProper http r h not_found
  created_reply-IsProper h not_an_object = reject_document-IsProper http r h not_an_object
  created_reply-IsProper h no_free_id = reject_document-IsProper http r h no_free_id
  created_reply-IsProper h counter_overflow = reject_document-IsProper http r h counter_overflow
  created_reply-IsProper h not_json = reject_document-IsProper http r h not_json

  wrote-IsProper : (h : Headers) (e : Documents.Result) → IsProper (wrote http r h e)
  wrote-IsProper h (done id stored) = write_mock_json-IsProper 200 allows_200 _ _
  wrote-IsProper h deleted = reject_document-IsProper http r h deleted
  wrote-IsProper h not_found = reject_document-IsProper http r h not_found
  wrote-IsProper h not_an_object = reject_document-IsProper http r h not_an_object
  wrote-IsProper h no_free_id = reject_document-IsProper http r h no_free_id
  wrote-IsProper h counter_overflow = reject_document-IsProper http r h counter_overflow
  wrote-IsProper h not_json = reject_document-IsProper http r h not_json

  removed-IsProper : (h : Headers) (e : Documents.Result) → IsProper (removed http r h e)
  removed-IsProper h deleted = inl refl
  removed-IsProper h (done id stored) = reject_document-IsProper http r h (done id stored)
  removed-IsProper h not_found = reject_document-IsProper http r h not_found
  removed-IsProper h not_an_object = reject_document-IsProper http r h not_an_object
  removed-IsProper h no_free_id = reject_document-IsProper http r h no_free_id
  removed-IsProper h counter_overflow = reject_document-IsProper http r h counter_overflow
  removed-IsProper h not_json = reject_document-IsProper http r h not_json

  with_body-IsProper :
      (b : BodyRead) (h : Headers) (store : Collections) (write : Body → Reply × Collections)
      → ((body : Body) → IsProper (write body).0)
      → IsProper (with_body http b r h store write).0
  with_body-IsProper (received body) h store write k = k body
  with_body-IsProper too_large h store write k = write_mock_error-IsProper 413 allows_413 r h
  with_body-IsProper cut_off h store write k = tt

  module _ (json : JsonOps) where
    answer_page-IsProper :
        (h : Headers) (page : Option DocumentPage) → IsProper (answer_page http json r h page)
    answer_page-IsProper h none = write_mock_error-IsProper 500 allows_500 r h
    answer_page-IsProper h (some page) = write_mock_json-IsProper 200 allows_200 _ _

    answer_list-IsProper : (h : Headers) (c : Collection) → IsProper (answer_list http json r h c)
    unfolding answer_list
    answer_list-IsProper h c = elim (Read-cases (parse_list_query r.query)) [
      | inl (error, e) ↦ rw (e, answer_list) (write_mock_error-IsProper 400 allows_400 r h)
      | inr (q, e) ↦ rw (e, answer_list) (answer_page-IsProper h (list_documents json q c))
    ]

    answer_get-IsProper :
        (h : Headers) (found : Option Fields) → IsProper (answer_get http json r h found)
    answer_get-IsProper h none = write_mock_error-IsProper 404 allows_404 r h
    answer_get-IsProper h (some stored) = write_mock_json-IsProper 200 allows_200 _ _

    run_op-IsProper :
        (op : Op) (id collection : Bytes) (h : Headers) (store : Collections)
        → IsProper (run_op http json op r id collection h store).0
    unfolding run_op
    run_op-IsProper respond id collection h store = write_mock_error-IsProper 500 allows_500 r h
    run_op-IsProper list id collection h store =
        answer_list-IsProper h (or_absent http (lookup collection store))
    run_op-IsProper get id collection h store = answer_get-IsProper h _
    run_op-IsProper create id collection h store =
        with_body-IsProper r.body h store _ (λ body. created_reply-IsProper h _)
    run_op-IsProper replace id collection h store =
        with_body-IsProper r.body h store _ (λ body. wrote-IsProper h _)
    run_op-IsProper patch id collection h store =
        with_body-IsProper r.body h store _ (λ body. wrote-IsProper h _)
    run_op-IsProper delete id collection h store = removed-IsProper h _

    serve_collection-IsProper :
        (route : Route) (params : List (Bytes × Bytes)) (h : Headers) (store : Collections)
        → IsProper (serve_collection http json r route params h store).0
    unfolding serve_collection
    serve_collection-IsProper route params h store =
        elim (Bool-cases (mock_delay r.gave_up route.delay_ms)) [
          | inl e ↦ rw (e, serve_collection) (run_op-IsProper route.op _ _ _ _)
          | inr e ↦ rw (e, serve_collection) tt
        ]

    serve_matched-IsProper :
        (op : Op) (route : Route) (params : List (Bytes × Bytes)) (h : Headers)
        (store : Collections)
        → IsProper (serve_matched http json op r route params h store).0
    serve_matched-IsProper respond route params h store =
        serve_mock_response-IsProper http r route h
    serve_matched-IsProper list route params h store =
        serve_collection-IsProper route params h store
    serve_matched-IsProper create route params h store =
        serve_collection-IsProper route params h store
    serve_matched-IsProper get route params h store = serve_collection-IsProper route params h store
    serve_matched-IsProper replace route params h store =
        serve_collection-IsProper route params h store
    serve_matched-IsProper patch route params h store =
        serve_collection-IsProper route params h store
    serve_matched-IsProper delete route params h store =
        serve_collection-IsProper route params h store

    answer_result-IsProper :
        (h : Headers) (store : Collections) (result : Result)
        → IsProper (answer_result http json r h store result).0
    unfolding answer_result
    answer_result-IsProper h store (matched p route params) =
        serve_matched-IsProper route.op route params h store
    answer_result-IsProper h store (wrong_method p allow) =
        elim (Bool-cases (same r.method (codes "OPTIONS"))) [
          | inl e ↦ rw (e, answer_result) (inl refl)
          | inr e ↦
              rw (e, answer_result)
                (write_json-IsProper 405 allows_405 _ (put (codes "Allow") (join_list allow) h))
        ]
    answer_result-IsProper h store (no_route p near) = write_json-IsProper 404 allows_404 _ h
    answer_result-IsProper h store no_project = write_json-IsProper 404 allows_404 _ h

    -- Whatever the routes, the collections and the request: an answer has no body, or its status is one
    -- that admits a body, so none from 100 to 199, not 204 and not 304, and it has a Content-Type.
    pub handle_mock-IsProper :
        (t : Table) (h : Headers) (store : Collections)
        → IsProper (handle_mock http json t r h store).0
    unfolding handle_mock
    handle_mock-IsProper t h store =
        answer_result-IsProper h store
          (lookup_table t (to_lower r.slug) r.method (mock_sub_path r.escaped_path))
