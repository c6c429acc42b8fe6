-- ===== src/Agent/Operations/Costs.antt =====
-- crates/odp-agent/src/client.rs: how many requests the operations of a client make.
use odp_rust.Prelude.{
  ℕ, suc, ◌+◌, ◌≤◌, arith, Result, ok, err, Result-cases, Option-cases, inl, inr,
}
use odp_rust.Prelude.Text.{Text}
use odp_rust.Core.References.{derive_service_origin}
use odp_rust.Directory.Transport.{HttpRequest}
use odp_rust.Agent.Redirects.{AgentError, request_raw}
use odp_rust.Agent.Redirects.Origins.{request_raw_bound}
use odp_rust.Agent.Setup.{ServiceClient, request_key}
use odp_rust.Agent.Fetching.{
  revalidable, asked_target, asked_fields, usable, request_past_cache, request_cached,
}
use odp_rust.Agent.Acts.{Act, ◌>>=◌, pure}
use odp_rust.Agent.Operations.{ClientLib, Url, request}

module _ {C W : Type 0} (count : W → ℕ) where
  -- A step that makes at most so many requests.
  pub record Costs {A : Type 0} (n : ℕ) (act : Act C W A) : Type 0 where
    pub within : (c : C) (w : W) → count (act c w).2 ≤ count w + n

  pub Costs-pure : {A : Type 0} (result : Result AgentError A) → Costs 0 (pure result)
  unfolding pure
  Costs-pure result = record { within = λ c w. omega arith }

  pub Costs-bind :
      {A B : Type 0} (m n : ℕ) (act : Act C W A) (next : A → Act C W B)
      → Costs m act
      → ((a : A) → Costs n (next a))
      → Costs (m + n) (act >>= next)
  unfolding ◌>>=◌
  Costs-bind {A = A} {B = B} m n act next first onward = record {
    within = λ c w. goes_on (act c w).0 (act c w).1 (act c w).2 w (first.within c w);
  }
    where
      goes_on :
          (result : Result AgentError A) (c' : C) (w' w : W)
          → count w' ≤ count w + m
          → count
              (elim result as (λ r. Result AgentError B × C × W) [
                | err e ↦ (err e, c', w')
                | ok a ↦ next a c' w'
              ]).2
            ≤ count w + (m + n)
      goes_on (err e) c' w' w h = omega arith
      goes_on (ok a) c' w' w h = let k = (onward a).within c' w' in omega arith

  pub Costs-after :
      {A B : Type 0} (n : ℕ) (result : Result AgentError A) (next : A → Act C W B)
      → ((a : A) → Costs n (next a))
      → Costs n (pure result >>= next)
  unfolding ◌>>=◌ pure
  Costs-after n (err e) next onward = record { within = λ c w. omega arith }
  Costs-after n (ok a) next onward = record { within = (onward a).within }

  pub Costs-read :
      {A B : Type 0} (n : ℕ) (act : Act C W A) (read : A → Result AgentError B)
      → Costs n act
      → Costs n (act >>= λ a. pure (read a))
  Costs-read n act read cost = record {
    within = λ c w.
        let k =
          (Costs-bind n 0 act (λ a. pure (read a)) cost (λ a. Costs-pure (read a))).within c w in
        omega arith;
  }

module _ {W C : Type 0} (lib : ClientLib W) (client : ServiceClient W C) (count : W → ℕ)
    (step : (request' : HttpRequest) (limit : ℕ) (w : W)
      → count (client.transport.send_limited request' limit w).1 ≤ suc (count w)) where
  open lib use {libs}

  -- A request with its redirects.
  pub request-Costs :
      (method : Text) (target : Url lib client) (body : Text) (maximum fallback : ℕ)
      (validate : Text → Result AgentError (Unit {0}))
      → Costs count 6 (request lib client method target body maximum fallback validate)
  unfolding request request_cached request_past_cache
  request-Costs method target body maximum fallback validate = record {
    within = λ c w.
        let key = request_key libs client method (libs.url_lib.as_str target) body fallback in
        let none_sent : count w ≤ count w + 6 = omega arith in
        elim (Result-cases (derive_service_origin libs.url_lib (libs.url_lib.as_str target))) [
          | inr (e, failed) ↦ rw (request, request_cached, failed) none_sent
          | inl (origin, derived) ↦ elim (Result-cases (client.cache.get_from c key)) [
            | inr (e, failed) ↦ rw (request, request_cached, derived, failed) none_sent
            | inl (cached, read) ↦ elim (Option-cases (usable (lib.now w) cached)) [
              | inr (r, hit) ↦ rw (request, request_cached, derived, read, hit) none_sent
              | inl missed ↦
                  let asked = revalidable method cached in
                  let k =
                    request_raw_bound libs.url_lib client.transport client.accept_language
                      (asked_fields asked) origin maximum method
                      (asked_target libs client target origin asked) body count
                      (λ request'. step request' maximum) w in
                  elim (Result-cases
                    (request_raw libs.url_lib client.transport client.accept_language method
                      (asked_target libs client target origin asked) body (asked_fields asked)
                      origin maximum w).0) [
                        | inr (e, failed) ↦
                            rw
                              (
                                request, request_cached, derived, read, missed, request_past_cache,
                                failed,
                              )
                              k
                        | inl (raw, sent) ↦
                            rw
                              (
                                request, request_cached, derived, read, missed, request_past_cache,
                                sent,
                              )
                              k
                      ]
            ]
          ]
        ];
  }
