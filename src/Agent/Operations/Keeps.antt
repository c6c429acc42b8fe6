-- ===== src/Agent/Operations/Keeps.antt =====
-- crates/odp-agent/src/client.rs: where the operations of the client send requests.
use odp_rust.Prelude.{
  ℕ, ◌≡◌, refl, ap, ◌∙◌, inl, inr, Option, none, some, Result, ok, err, Result-cases, Option-cases,
  Bool-cases, ◌==◌, nat_eq,
}
use odp_rust.Prelude.Text.{Text, text_eq, text_eq_iff}
use odp_rust.Prelude.Maps.{Map}
use odp_rust.Core.References.{derive_service_origin}
use odp_rust.Directory.Transport.{HttpRequest}
use odp_rust.Agent.Cache.{CacheRecord}
use odp_rust.Agent.Redirects.{AgentError, pass_request, request_raw}
use odp_rust.Agent.Redirects.Origins.{IsOn, IsAllowed, request_raw-Keeps}
use odp_rust.Agent.Setup.{Libs, ServiceClient, request_key}
use odp_rust.Agent.Fetching.{
  revalidation_target, revalidable, asked_target, asked_fields, usable, request_past_cache,
  request_cached,
}
use odp_rust.Agent.Acts.{Act, ◌>>=◌, pure}

abbrev pub Holds : {A : Type 0} → (A → Type 0) → Result AgentError A → Type 0
Holds P (err e) = Unit
Holds P (ok a) = P a

pub Holds-ok :
    {A : Type 0} (P : A → Type 0) (result : Result AgentError A)
    → ((a : A) → result ≡ ok a → P a)
    → Holds P result
Holds-ok P (err e) h = tt
Holds-ok P (ok a) h = h a refl

abbrev pub Any : {A : Type 0} → A → Type 0
Any a = Unit {0}

-- What a step keeps of the world, and what holds of its result.
module _ {C W : Type 0} (K : W → Type 0) where
  abbrev IsOutcome : {A : Type 0} → (A → Type 0) → Result AgentError A × C × W → Type 0
  IsOutcome P outcome = Holds P outcome.0 × K outcome.2

  pub record Ensures {A : Type 0} (P : A → Type 0) (act : Act C W A) : Type 0 where
    pub runs : (c : C) (w : W) → K w → IsOutcome P (act c w)

  pub Ensures-bind :
      {A B : Type 0} (P : A → Type 0) (Q : B → Type 0) (act : Act C W A) (next : A → Act C W B)
      → Ensures P act
      → ((a : A) → P a → Ensures Q (next a))
      → Ensures Q (act >>= next)
  unfolding ◌>>=◌
  Ensures-bind {A = A} P Q act next first onward = record {
    runs = λ c w k. goes_on (act c w).0 (act c w).1 (act c w).2 (first.runs c w k);
  }
    where
      goes_on :
          (result : Result AgentError A) (c' : C) (w' : W)
          → Holds P result × K w'
          → IsOutcome Q (elim result [ err e ↦ (err e, c', w') | ok a ↦ next a c' w' ])
      goes_on (err e) c' w' (holds, k') = (tt, k')
      goes_on (ok a) c' w' (holds, k') = (onward a holds).runs c' w' k'

  -- A step that asks nothing.
  pub Ensures-pure :
      {A : Type 0} (P : A → Type 0) (result : Result AgentError A)
      → ((a : A) → result ≡ ok a → P a)
      → Ensures P (pure result)
  unfolding pure
  Ensures-pure P result holds = record { runs = λ c w k. (Holds-ok P result holds, k) }

  pub Ensures-ok : {A : Type 0} (P : A → Type 0) (a : A) → P a → Ensures P (pure (ok a))
  unfolding pure
  Ensures-ok P a holds = record { runs = λ c w k. (holds, k) }

  pub Ensures-last : {A : Type 0} (result : Result AgentError A) → Ensures Any (pure result)
  Ensures-last result = Ensures-pure Any result (λ a done. tt)

  pub Ensures-after :
      {A B : Type 0} (Q : B → Type 0) (result : Result AgentError A) (next : A → Act C W B)
      → ((a : A) → result ≡ ok a → Ensures Q (next a))
      → Ensures Q (pure result >>= next)
  unfolding pure ◌>>=◌
  Ensures-after Q (err e) next onward = record { runs = λ c w k. (tt, k) }
  Ensures-after Q (ok a) next onward = record { runs = (onward a refl).runs }

  -- A step whose result is read without asking.
  pub Ensures-read :
      {A B : Type 0} (act : Act C W A) (read : A → Result AgentError B)
      → Ensures Any act
      → Ensures Any (act >>= λ a. pure (read a))
  Ensures-read act read kept = Ensures-bind Any Any act _ kept (λ a any. Ensures-last (read a))

module _ (libs : Libs) {W C : Type 0} (client : ServiceClient W C) (home : Text) (K : W → Type 0)
    (keep : (request : HttpRequest) (limit : ℕ)
      → derive_service_origin libs.url_lib request.url ≡ ok home
      → (w : W) → K w
      → K (client.transport.send_limited request limit w).1) where
  asked_target-IsOn :
      (target : libs.url_lib.Url) (cached : Option CacheRecord)
      → IsOn libs.url_lib home target
      → IsOn libs.url_lib home (asked_target libs client target home cached)
  unfolding revalidation_target
  asked_target-IsOn target none on = on
  asked_target-IsOn target (some r) on = elim (Result-cases (libs.url_lib.parse r.final_url)) [
    | inr (e, failed) ↦ rw (revalidation_target, failed) on
    | inl (cached_target, parsed) ↦
        elim (Result-cases
          (derive_service_origin libs.url_lib (libs.url_lib.as_str cached_target))) [
            | inr (e, failed) ↦ rw (revalidation_target, parsed, failed) on
            | inl (origin, derived) ↦ elim (Bool-cases (origin == home)) [
              | inr other ↦ rw (revalidation_target, parsed, derived, other) on
              | inl same ↦
                  rw (revalidation_target, parsed, derived, same)
                    (derived ∙ ap ok ((text_eq_iff origin home).0 same))
            ]
          ]
  ]

  allowed-home :
      (conditional : Map Text) (limit : ℕ) {method body : Text} (start : libs.url_lib.Url)
      → IsOn libs.url_lib home start
      → (request : HttpRequest)
      → IsAllowed libs.url_lib client.transport client.accept_language conditional home limit method
          start body request
      → derive_service_origin libs.url_lib request.url ≡ ok home
  unfolding pass_request
  allowed-home conditional limit start on request (m, target, b, e, inl first, same) =
      rw (ap (λ r. r.url) e, first) on
  allowed-home conditional limit start on request (m, target, b, e, inr moved, same) =
      rw (ap (λ r. r.url) e) moved

  pub request_cached-Keeps :
      (method : Text) (target : libs.url_lib.Url) (body : Text) (maximum fallback : ℕ)
      (validate : Text → Result AgentError (Unit {0})) (now : ℕ)
      → IsOn libs.url_lib home target
      → (c : C) (w : W) → K w
      → K (request_cached libs client method target body maximum fallback validate now c w).2
  unfolding request_cached request_past_cache pass_request
  request_cached-Keeps method target body maximum fallback validate now on c w k =
      let key = request_key libs client method (libs.url_lib.as_str target) body fallback in
      elim (Result-cases (client.cache.get_from c key)) [
        | inr (e, failed) ↦ rw (request_cached, on, failed) k
        | inl (cached, read) ↦ elim (Option-cases (usable now cached)) [
          | inr (r, hit) ↦ rw (request_cached, on, read, hit) k
          | inl missed ↦
              let asked = revalidable method cached in
              let goes = asked_target-IsOn target asked on in
              let k' =
                request_raw-Keeps libs.url_lib client.transport client.accept_language
                  (asked_fields asked) home maximum method
                  (asked_target libs client target home asked) body K
                  (λ request allowed v held.
                    keep request maximum
                      (allowed-home (asked_fields asked) maximum
                        (asked_target libs client target home asked) goes request allowed)
                      v held)
                  w k in
              elim (Result-cases
                (request_raw libs.url_lib client.transport client.accept_language method
                  (asked_target libs client target home asked) body (asked_fields asked) home
                  maximum w).0) [
                    | inr (e, failed) ↦
                        rw (request_cached, on, read, missed, request_past_cache, failed) k'
                    | inl (raw, sent) ↦
                        rw (request_cached, on, read, missed, request_past_cache, sent) k'
                  ]
        ]
      ]
