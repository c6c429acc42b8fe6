-- ===== src/Directory/Client/Tests.antt =====
-- A Directory with two pages, and one that continues with the same page for ever.
use odp_rust.Prelude.{ℕ, suc, ◌≡◌, ◌≤◌, refl, List, [], ◌∷◌, ok, err, Result, length}
use odp_rust.Prelude.Text.{Text, text, text_beq, strip_prefix, trim}
use odp_rust.Core.References.Toy.{ToyUrl, toy, toy_parse, toy_join, authority_of}
use odp_rust.Core.Validation.Unique.{Unique}
use odp_rust.Directory.Client.{
  DirectoryError, invalid_response, production, environment_origin, PageOf, IterationOptions,
  bounded, continuation_url, traverse_from, traversal_limits, traverse, maximum_pages,
}
use odp_rust.Directory.Client.Walks.{Walk, traverse_inv}

walks : Unit {0}
unfolding trim toy_parse toy_join authority_of text_beq strip_prefix environment_origin bounded
    continuation_url traverse_from traversal_limits traverse
walks = tt

-- The world counts the requests.
abbrev first : ℕ → Result DirectoryError (PageOf ℕ) × ℕ
first sent = (ok (record { items = 1 ∷ 2 ∷ []; next = text "/v1/services?cursor=b" }), suc sent)

abbrev ends : ToyUrl → ℕ → Result DirectoryError (PageOf ℕ) × ℕ
ends target sent = (ok (record { items = 3 ∷ []; next = [] }), suc sent)

abbrev repeats_page : ToyUrl → ℕ → Result DirectoryError (PageOf ℕ) × ℕ
repeats_page target sent = first sent

abbrev all_pages : IterationOptions
all_pages = record { max_items = 0; max_pages = 0 }

loops :
    (traverse toy production repeats_page first all_pages 10 0).0
    ≡ err (invalid_response (text "Directory pagination loop detected"))
unfolding walks
loops = refl

abbrev two : List (PageOf ℕ)
two =
    record { items = 1 ∷ 2 ∷ []; next = text "/v1/services?cursor=b" }
    ∷ record { items = 3 ∷ []; next = [] }
    ∷ []

visits : traverse toy production ends first all_pages 10 0 ≡ (ok two, 2)
unfolding walks
visits = refl

traverse_inv_example :
    (page : PageOf ℕ) × (sent : ℕ) × (first 0 ≡ (ok page, sent))
    × (targets : List Text) × Walk toy production ends page sent two targets 2
    × Unique targets
    × (length two ≤ maximum_pages)
traverse_inv_example = traverse_inv toy production ends first all_pages 10 0 2 two visits
