-- ===== src/Service/Handler/Heads.antt =====
-- crates/odp-service/src/service.rs: a HEAD is the GET that it shadows.
use odp_rust.Prelude.{
  ◌≡◌, refl, true, [], ◌==◌, nat_eq, if◌then◌else◌, length, Bool-cases, inl, inr,
}
use odp_rust.Prelude.Text.{text, text_eq, eq_ignore_ascii_case, text_beq}
use odp_rust.Prelude.Maps.{lookup, insert}
use odp_rust.Prelude.Numbers.{decimal}
use odp_rust.Service.Requests.{Request, Response}
use odp_rust.Service.Problems.{response_of}
use odp_rust.Service.Answers.{ServiceLib}
use odp_rust.Service.Handler.{
  Service, handle, handle_result, without_body, is_head, is_retrieval, as_get, if_none_match,
}

abbrev pub got : Request → Request
got request = record request { method = text "GET" }

-- A response without its body, of which it keeps the length.
abbrev pub headers_only : Response → Response
headers_only response = record response {
  headers = insert (text "content-length") (decimal (length response.body)) response.headers;
  body = [];
}

without_body-headers_only :
    (response : Response)
    → without_body true response
      ≡ (if response.status == 304 then response else headers_only response)
unfolding without_body
without_body-headers_only response = elim (Bool-cases (response.status == 304)) [
  | inl unchanged ↦ rw (without_body, unchanged) refl
  | inr changed ↦ rw (without_body, changed) refl
]

module _ (lib : ServiceLib) {W : Type 0} (service : Service W) (request : Request) (w : W) where
  -- A HEAD is answered as the GET with the same path, query and fields is, with its status and its
  -- effects on the catalog, but without the body, of which it states the length; a response that
  -- says that nothing has changed is the same.
  pub handle-headers_only :
      is_head request ≡ true
      → ((handle lib service request w).0 ≡ (
          if (handle lib service (got request) w).0.status == 304
          then (handle lib service (got request) w).0
          else headers_only (handle lib service (got request) w).0))
        × ((handle lib service request w).1 ≡ (handle lib service (got request) w).1)
  unfolding handle without_body eq_ignore_ascii_case text_beq
  handle-headers_only head =
      let conditional = lookup (text "if-none-match") request.headers in
      let response = response_of lib.problem_to_vec (handle_result lib service (got request) w).0 in
      rw (as_get, is_retrieval, head)
        (without_body-headers_only (if_none_match true conditional response), refl)
