-- ===== src/Documents/Listing/Accepted.antt =====
-- Which query strings a listing accepts, and what it reads in them.
use restest.Base.{
  ℕ, ◌≡◌, ◌≤◌, refl, sym, ap, ◌∙◌, subst, ◌⊎◌, ◌↔◌, Bool, inl, inr, List, Option, none, some, arith,
  All, map, max_int64, bytes_le, All-sort_by, All-unsort, Option-cases,
}
use restest.Paths.{trim_space}
use restest.Documents.Listing.{
  ListQuery, Filter, QueryError, Read, read, refused, Values, get, number_of, direction_of,
  filter_of, read_filters, keys_of, order_text, parse_list_query, param_page, param_limit,
  param_sort, default_list_limit, max_list_limit, bad_page, bad_limit, bad_order,
}
use restest.Documents.Listing.Query.{
  IsNumber, IsDirection, IsKnown, plain, number_of_iff, direction_of_iff, read_filters_iff,
}

pub record IsAccepted (values : Values) (q : ListQuery) : Type 0 where
  pub page_number : IsNumber 1 max_int64 (get param_page values) q.page
  pub limit_number : IsNumber default_list_limit max_list_limit (get param_limit values) q.limit
  pub sort_field : q.sort ≡ trim_space (get param_sort values)
  pub direction : IsDirection (order_text values) q.desc
  pub known : All IsKnown (map (λ p. p.0) values)
  pub filters : q.filters ≡ map (filter_of values) (plain (keys_of values))

pub Read-cases :
    {A : Type 0} (r : Read A) → ((e : QueryError) × (r ≡ refused e)) ⊎ ((a : A) × (r ≡ read a))
Read-cases (read a) = inr (a, refl)
Read-cases (refused e) = inl (e, refl)

module _ (values : Values) where
  abbrev page_read : Option ℕ
  page_read = number_of 1 max_int64 (get param_page values)

  abbrev limit_read : Option ℕ
  limit_read = number_of default_list_limit max_list_limit (get param_limit values)

  abbrev filters_read : Read (List Filter)
  filters_read = read_filters values (keys_of values)

  parse_list_query-bad_page :
      page_read ≡ none → parse_list_query values ≡ refused (bad_page (get param_page values))
  unfolding parse_list_query
  parse_list_query-bad_page e = rw (e, parse_list_query) refl

  module _ (page : ℕ) (page_ok : page_read ≡ some page) where
    parse_list_query-bad_limit :
        limit_read ≡ none → parse_list_query values ≡ refused (bad_limit (get param_limit values))
    unfolding parse_list_query
    parse_list_query-bad_limit e = rw (page_ok, e, parse_list_query) refl

    module _ (limit : ℕ) (limit_ok : limit_read ≡ some limit) where
      parse_list_query-bad_order :
          direction_of (order_text values) ≡ none
          → parse_list_query values ≡ refused (bad_order (order_text values))
      unfolding parse_list_query
      parse_list_query-bad_order e = rw (page_ok, limit_ok, e, parse_list_query) refl

      module _ (desc : Bool) (order_ok : direction_of (order_text values) ≡ some desc) where
        parse_list_query-refused :
            (error : QueryError)
            → filters_read ≡ refused error
            → parse_list_query values ≡ refused error
        unfolding parse_list_query
        parse_list_query-refused error e =
            rw (page_ok, limit_ok, order_ok, e, parse_list_query) refl

        abbrev query : List Filter → ListQuery
        query filters = record {
          page = page;
          limit = limit;
          sort = trim_space (get param_sort values);
          desc = desc;
          filters = filters;
        }

        parse_list_query-read :
            (filters : List Filter)
            → filters_read ≡ read filters
            → parse_list_query values ≡ read (query filters)
        unfolding parse_list_query
        parse_list_query-read filters e = rw (page_ok, limit_ok, order_ok, e, parse_list_query) refl

        query-IsAccepted :
            (filters : List Filter)
            → filters_read ≡ read filters
            → IsAccepted values (query filters)
        query-IsAccepted filters e =
            let (known, g) = (read_filters_iff values (keys_of values) filters).0 e in
            record {
              page_number = (number_of_iff 1 max_int64 (get param_page values) page).0 page_ok;
              limit_number =
                  (number_of_iff default_list_limit max_list_limit (get param_limit values) limit).0
                    limit_ok;
              sort_field = refl;
              direction = (direction_of_iff (order_text values) desc).0 order_ok;
              known = All-unsort bytes_le IsKnown (map (λ p. p.0) values) known;
              filters = g;
            }

  parse_list_query-IsAccepted :
      (q : ListQuery) → parse_list_query values ≡ read q → IsAccepted values q
  parse_list_query-IsAccepted q h = elim (Option-cases page_read) [
    | inl e ↦ absurd (ground (arith, parse_list_query-bad_page e))
    | inr (page, p) ↦ elim (Option-cases limit_read) [
      | inl e ↦ absurd (ground (arith, parse_list_query-bad_limit page p e))
      | inr (limit, l) ↦ elim (Option-cases (direction_of (order_text values))) [
        | inl e ↦ absurd (ground (arith, parse_list_query-bad_order page p limit l e))
        | inr (desc, d) ↦ elim (Read-cases filters_read) [
          | inl (error, e) ↦
              absurd (ground (arith, parse_list_query-refused page p limit l desc d error e))
          | inr (filters, e) ↦
              let same_query : query page p limit l desc d filters ≡ q =
                ground (arith, parse_list_query-read page p limit l desc d filters e) in
              subst (IsAccepted values) same_query
                (query-IsAccepted page p limit l desc d filters e)
        ]
      ]
    ]
  ]

  IsAccepted-parse_list_query :
      (q : ListQuery) → IsAccepted values q → parse_list_query values ≡ read q
  IsAccepted-parse_list_query q h =
      parse_list_query-read q.page
        ((number_of_iff 1 max_int64 (get param_page values) q.page).1 h.page_number) q.limit
        ((number_of_iff default_list_limit max_list_limit (get param_limit values) q.limit).1
          h.limit_number)
        q.desc ((direction_of_iff (order_text values) q.desc).1 h.direction) q.filters
        ((read_filters_iff values (keys_of values) q.filters).1
          (All-sort_by bytes_le IsKnown (map (λ p. p.0) values) h.known, h.filters))
      ∙ ap (λ s. read (record q { sort = s })) (sym h.sort_field)

  -- A query string is accepted exactly where its page and its limit are missing, empty or whole numbers,
  -- the page from 1 on and the limit from 1 to 1000, where its order is, without the white space around
  -- it, missing, empty, asc or desc in any case, and where every parameter with an underscore is one of the four. The query is then what
  -- these state, page 1 and limit 100 where they state nothing, with one filter for each of the other
  -- parameters, in the order of their names.
  pub parse_list_query_iff :
      (q : ListQuery) → (parse_list_query values ≡ read q) ↔ IsAccepted values q
  parse_list_query_iff q = (parse_list_query-IsAccepted q, IsAccepted-parse_list_query q)

  pub limit-range :
      (q : ListQuery)
      → parse_list_query values ≡ read q
      → (1 ≤ q.limit) × (q.limit ≤ max_list_limit)
  limit-range q h = elim ((parse_list_query_iff q).0 h).limit_number [
    | inl (_, e) ↦ (omega arith, omega arith)
    | inr (_, l, u) ↦ (l, u)
  ]
