-- ===== src/Agent/Wording/Flattened.antt =====
-- crates/odp-agent/src/client.rs: no error of a failed request repeats what could forge a line of a log.
use odp_rust.Prelude.{
  ℕ, ◌≡◌, refl, ap, sym, subst, ◌∙◌, arith, true, false, ◌||◌, List, [], ◌∷◌, map, All, Result, ok,
  err, Result-cases, Bool-cases, inl, inr, if◌then◌else◌,
}
use odp_rust.Prelude.Text.{Text, text, is_empty, eq_ignore_ascii_case}
use odp_rust.Prelude.Chars.{chars, concat, is_control, is_whitespace, split_whitespace, join_words}
use odp_rust.Prelude.Chars.Words.{
  IsWord, split_whitespace-All, joined, without_spaces, joined-split_whitespace,
}
use odp_rust.Core.Json.{Value}
use odp_rust.Core.Documents.Resources.{ProblemDetails}
use odp_rust.Core.Validation.Parsing.{JsonLib, normalize_agent_response, parse_problem_response}
use odp_rust.Agent.Redirects.{
  RawResponse, request_error, is_success, require_within_limit, consume, media_type_essence,
}
use odp_rust.Agent.Wording.{problem_media_type, absent, soften, printable, quoted, failure_message}

abbrev IsNoControl : Text → Type 0
IsNoControl c = is_control c ≡ false

soften-All : (cs : List Text) → All IsNoControl (map soften cs)
unfolding is_control
soften-All [] = tt
soften-All (c ∷ cs) = (soften-IsNoControl c, soften-All cs)
  where
    soften-IsNoControl : (c : Text) → IsNoControl (soften c)
    soften-IsNoControl c = elim (Bool-cases (is_control c)) [
      | inl control ↦ rw control refl
      | inr other ↦ rw other other
    ]

-- The characters that are neither control characters nor white space.
unfoldable pub letters : List Text → List Text
letters [] = []
letters (c ∷ cs) =
    let rest = letters cs in if is_control c || is_whitespace c then rest else c ∷ rest

without_spaces-soften : (cs : List Text) → without_spaces (map soften cs) ≡ letters cs
unfolding without_spaces letters is_whitespace
without_spaces-soften [] = refl
without_spaces-soften (c ∷ cs) =
    let rest = without_spaces-soften cs in
    elim (Bool-cases (is_control c)) [
      | inl control ↦ rw (letters, control) rest
      | inr other ↦ elim (Bool-cases (is_whitespace c)) [
        | inl space ↦ rw (letters, other, space) rest
        | inr letter ↦ rw (letters, other, letter) (ap (λ t. c ∷ t) rest)
      ]
    ]

-- One line: words of characters that are neither control characters nor white space, one space
-- between two of them, and in them every such character of the source in its order.
pub record IsLine (source line : Text) : Type 0 where
  pub words : List (List Text)
  pub spelled : line ≡ concat (join_words words)
  pub held : All (IsWord IsNoControl) words
  pub kept : joined words ≡ letters (chars source)

printable-IsLine : (value : Text) → IsLine value (printable value)
unfolding printable
printable-IsLine value = record {
  words = split_whitespace (map soften (chars value));
  spelled = refl;
  held = split_whitespace-All IsNoControl (map soften (chars value)) (soften-All (chars value));
  kept = joined-split_whitespace (map soften (chars value)) ∙ without_spaces-soften (chars value);
}

module _ (json : JsonLib) (decode : Value → Result Text ProblemDetails) where
  -- Why a message is what it is: nothing is quoted, or a problem that the response gives.
  pub data IsTold (response : RawResponse) (message : Text) : Type 0 where
    untold : message ≡ absent → IsTold response message
    told :
        (document : Text) (problem : ProblemDetails)
        → eq_ignore_ascii_case (media_type_essence response.headers) problem_media_type ≡ true
        → normalize_agent_response json response.body (text "problem") ≡ ok document
        → parse_problem_response json decode document response.status ≡ ok problem
        → is_empty message ≡ false
        → IsLine (quoted problem) message
        → IsTold response message

  failure_message-IsTold :
      (response : RawResponse) → IsTold response (failure_message json decode response)
  unfolding failure_message
  failure_message-IsTold response =
      elim (Bool-cases
        (eq_ignore_ascii_case (media_type_essence response.headers) problem_media_type)) [
          | inr other ↦ untold (rw (failure_message, other) refl)
          | inl typed ↦
              elim (Result-cases (normalize_agent_response json response.body (text "problem"))) [
                | inr (e, broken) ↦ untold (rw (failure_message, typed, broken) refl)
                | inl (document, normal) ↦
                    elim (Result-cases
                      (parse_problem_response json decode document response.status)) [
                        | inr (e, broken) ↦
                            untold (rw (failure_message, typed, normal, broken) refl)
                        | inl (problem, parsed) ↦
                            elim (Bool-cases (is_empty (printable (quoted problem)))) [
                              | inl nothing ↦
                                  untold (rw (failure_message, typed, normal, parsed, nothing) refl)
                              | inr something ↦
                                  rw (failure_message, typed, normal, parsed, something)
                                    (told document problem typed normal parsed something
                                      (printable-IsLine (quoted problem)))
                            ]
                      ]
              ]
        ]

  -- A request that fails with a message failed with the status of the response, which is no success,
  -- and its message says that there was no problem to quote, or quotes one line of a problem that the
  -- response states as such and that has its status: without control characters, with every other
  -- character but white space, and with one space for each run of these.
  pub consume-IsTold :
      (response : RawResponse) (maximum : ℕ) (message : Text) (status : ℕ)
      → consume (failure_message json decode) response maximum ≡ err (request_error message status)
      → (status ≡ response.status) × (is_success response.status ≡ false) × IsTold response message
  unfolding consume require_within_limit
  consume-IsTold response maximum message status h =
      let (same, equal, failed) : (failure_message json decode response ≡ message)
          × (response.status ≡ status)
          × (is_success response.status ≡ false) =
        ground arith in
      (sym equal, failed, subst (IsTold response) same (failure_message-IsTold response))
