-- ===== src/Exchanges/Stored.antt =====
-- `exchangeParams`: the form in which every exchange reaches the database.
use restest.Base.{
  ◌≤◌, ◌<◌, ◌≡◌, refl, sym, take_all, ◌⊎◌, ◌↔◌, Bool, true, arith, length, take, length-take, ltb,
  Bytes, Bool-cases, ltb→lt, inl, inr,
}
use restest.Exchanges.{Exchange, max_exchange_body, cap_body, exchange_params}
use restest.Exchanges.Redact.{Redaction, redacted-Redaction}

-- A body as it is kept: the front of what was sent, within the ceiling, flagged exactly if something
-- is missing.
pub record Capped (body : Bytes) (truncated : Bool) (kept : Bytes) (flag : Bool) : Type 0 where
  pub front : kept ≡ take max_exchange_body body
  pub within : length kept ≤ max_exchange_body
  pub flagged : (flag ≡ true) ↔ ((truncated ≡ true) ⊎ (max_exchange_body < length body))

cap_body-Capped :
    (body : Bytes) (truncated : Bool)
    → Capped body truncated (cap_body body truncated).0 (cap_body body truncated).1
unfolding cap_body
cap_body-Capped body truncated = elim (Bool-cases (ltb max_exchange_body (length body))) [
  | inl e ↦ rw e (record {
    front = refl;
    within = omega (arith, length-take max_exchange_body body);
    flagged = (λ _. inr (ltb→lt _ _ e), λ _. refl);
  })
  | inr e ↦ rw e (record {
    front = sym (take_all max_exchange_body body (ground arith));
    within = ground arith;
    flagged = (inl, λ h. elim h [ inl k ↦ k | inr k ↦ absurd (ground arith) ]);
  })
]

pub record Kept (ex stored : Exchange) : Type 0 where
  pub request_headers : Redaction ex.request_headers stored.request_headers
  pub response_headers : Redaction ex.response_headers stored.response_headers
  pub request_body :
      Capped ex.request_body ex.request_body_truncated stored.request_body
        stored.request_body_truncated
  pub response_body :
      Capped ex.response_body ex.response_body_truncated stored.response_body
        stored.response_body_truncated

-- Whatever a caller records, what is stored has the credentials of both sides' headers masked and
-- both bodies within the ceiling, each the front of what was sent and flagged exactly if cut.
pub exchange_params-Kept : (ex : Exchange) → Kept ex (exchange_params ex)
unfolding exchange_params
exchange_params-Kept ex = record {
  request_headers = redacted-Redaction ex.request_headers;
  response_headers = redacted-Redaction ex.response_headers;
  request_body = cap_body-Capped ex.request_body ex.request_body_truncated;
  response_body = cap_body-Capped ex.response_body ex.response_body_truncated;
}
