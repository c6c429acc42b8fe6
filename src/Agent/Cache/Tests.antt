-- ===== src/Agent/Cache/Tests.antt =====
-- Runs of the cache, and its theorems at small caches.
use odp_rust.Prelude.{
  ℕ, ◌≤◌, ◌≡◌, refl, length, false, [], ◌∷◌, arith, ◌==◌, if◌then◌else◌, ok, some, none,
}
use odp_rust.Prelude.Text.{Text, text, text_eq, text_beq, text_leb}
use odp_rust.Prelude.Maps.{lookup, insert, remove}
use odp_rust.Agent.Cache.{
  CacheRecord, MemoryCache, with_capacity, make_room, set, get, delete, insert_sorted, sort,
  remove_all,
}
use odp_rust.Agent.Cache.Eviction.{IsVictim}
use odp_rust.Agent.Cache.Bounds.{set_step, run, run-with_capacity_bound, get-set_full}

cache : Unit {0}
unfolding with_capacity make_room set get delete insert_sorted sort remove_all lookup insert remove
    run text_beq text_leb
cache = tt

abbrev stored : ℕ → CacheRecord
stored at = record {
  body = [];
  etag = none;
  expires_at = 100;
  final_url = [];
  last_modified = none;
  status = 200;
  stored_at = at;
}

abbrev two : MemoryCache
two = record {
  capacity = 2;
  records = (text "b", stored 5) ∷ (text "a", stored 3) ∷ [];
  poisoned = false;
}

evicts :
    (set two (text "c") (stored 9)).1.records ≡ (text "b", stored 5) ∷ (text "c", stored 9) ∷ []
unfolding cache
evicts = refl

run-with_capacity_bound_example :
    length
      (run
        (with_capacity 1)
        (set_step (text "a") (stored 1) ∷ set_step (text "b") (stored 2) ∷ [])).records
    ≤ 1
run-with_capacity_bound_example =
    run-with_capacity_bound 1 (set_step (text "a") (stored 1) ∷ set_step (text "b") (stored 2) ∷ [])

get-set_full_example :
    (name : Text) × IsVictim two.records name
    × ((j : Text)
        → get (set two (text "c") (stored 9)).1 j ≡ (
            if text "c" == j
            then ok (some (stored 9))
            else if name == j
            then ok none
            else get two j))
unfolding cache
get-set_full_example = get-set_full two (text "c") (stored 9) refl (omega arith) refl refl
