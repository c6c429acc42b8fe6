-- ===== src/Agent/Acts.antt =====
-- crates/odp-agent/src/client.rs: an `async` function of the client, as a step of its cache and of the
-- world that may fail.
use odp_rust.Prelude.{◌≡◌, ap, Result, ok, err}
use odp_rust.Agent.Redirects.{AgentError}

abbrev pub Act : Type 0 → Type 0 → Type 0 → Type 0
Act C W A = C → W → Result AgentError A × C × W

module _ {C W : Type 0} where
  infixl 5 ◌>>=◌ ◌>>◌
  unfoldable pub ◌>>=◌ : {A B : Type 0} → Act C W A → (A → Act C W B) → Act C W B
  ◌>>=◌ act next c w =
      let (result, c', w') = act c w in
      elim result [ err e ↦ (err e, c', w') | ok a ↦ next a c' w' ]

  abbrev pub ◌>>◌ : {A B : Type 0} → Act C W A → Act C W B → Act C W B
  act >> next = act >>= λ a. next

  unfoldable pub pure : {A : Type 0} → Result AgentError A → Act C W A
  pure result c w = (result, c, w)

  pub >>=-err :
      {A B : Type 0} (act : Act C W A) (next : A → Act C W B) {c c' : C} {w w' : W} (e : AgentError)
      → act c w ≡ (err e, c', w')
      → (act >>= next) c w ≡ (err e, c', w')
  unfolding ◌>>=◌
  >>=-err {B = B} act next e h =
      ap
        (λ t. elim t.0 as (λ result. Result AgentError B × C × W) [
          | err e' ↦ (err e', t.1, t.2)
          | ok a ↦ next a t.1 t.2
        ])
        h

  pub >>=-ok :
      {A B : Type 0} (act : Act C W A) (next : A → Act C W B) {c c' : C} {w w' : W} (a : A)
      → act c w ≡ (ok a, c', w')
      → (act >>= next) c w ≡ next a c' w'
  unfolding ◌>>=◌
  >>=-ok {B = B} act next a h =
      ap
        (λ t. elim t.0 as (λ result. Result AgentError B × C × W) [
          | err e' ↦ (err e', t.1, t.2)
          | ok a ↦ next a t.1 t.2
        ])
        h
