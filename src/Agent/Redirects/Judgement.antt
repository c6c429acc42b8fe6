-- ===== src/Agent/Redirects/Judgement.antt =====
-- crates/odp-agent/src/client.rs: which responses `consume` accepts.
use odp_rust.Prelude.{
  ℕ, ◌≡◌, ◌≤◌, ◌<◌, ◌↔◌, refl, true, false, Option, none, some, ok, err, length, arith,
}
use odp_rust.Prelude.Text.{Text, eq_ignore_ascii_case}
use odp_rust.Agent.Redirects.{
  request_error, RawResponse, consume, require_within_limit, declared_length, is_more_than,
  media_type_essence, media_type, is_success, max_problem_bytes,
}

abbrev pub IsWithin : ℕ → Option ℕ → Type 0
IsWithin limit none = Unit
IsWithin limit (some value) = value ≤ limit

is_more_than_iff :
    (limit : ℕ) (declared : Option ℕ)
    → (is_more_than limit declared ≡ false) ↔ IsWithin limit declared
is_more_than_iff limit none = (λ h. tt, λ u. refl)
is_more_than_iff limit (some value) = (λ h. ground arith, λ h. ground arith)

module _ (failure_message : RawResponse → Text) where
  -- A response is accepted, and then unchanged, exactly when its status is one of success, its body
  -- and its declared length are within the limit and its media type is that of the protocol.
  pub consume_iff :
      (response : RawResponse) (limit : ℕ)
      → (consume failure_message response limit ≡ ok response) ↔ (
          (200 ≤ response.status)
          × (response.status < 300)
          × (length response.body ≤ limit)
          × IsWithin limit (declared_length response.headers)
          × (eq_ignore_ascii_case (media_type_essence response.headers) media_type ≡ true))
  unfolding consume require_within_limit
  consume_iff response limit =
      let within = is_more_than_iff limit (declared_length response.headers) in
      (
        λ h. (ground arith, ground arith, ground arith, within.0 (ground arith), ground arith),
        λ h.
            let (low, high, fits, declared, typed) = h in let w = within.1 declared in ground arith,
      )

  -- A response that is not of success is refused as a failed request with its status exactly where
  -- its body and its declared length fit the 16384 bytes of a problem.
  pub consume_fails :
      (response : RawResponse) (limit : ℕ)
      → is_success response.status ≡ false
      → (consume failure_message response limit
          ≡ err (request_error (failure_message response) response.status))
        ↔ ((length response.body ≤ max_problem_bytes)
            × IsWithin max_problem_bytes (declared_length response.headers))
  unfolding consume require_within_limit
  consume_fails response limit failed =
      let within = is_more_than_iff max_problem_bytes (declared_length response.headers) in
      (λ h. (ground arith, within.0 (ground arith)), λ h. let w = within.1 h.1 in ground arith)
