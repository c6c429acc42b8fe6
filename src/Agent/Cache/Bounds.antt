-- ===== src/Agent/Cache/Bounds.antt =====
-- The cache never holds more than its capacity, and what it loses.
use mathlib.Core.List.{Memᴰ}
use odp_rust.Prelude.{
  ℕ, ◌<◌, ◌≤◌, ◌≡◌, refl, ap, length, true, false, List, [], ◌∷◌, arith, ◌==◌, if◌then◌else◌,
  Bool-cases, inl, inr, leb, ◌⊎◌, ok, ◌∙◌, some, none, nat_eq,
}
use odp_rust.Prelude.Text.{Text, text_eq, text_eq_iff, text_eq_refl}
use odp_rust.Prelude.Maps.{
  Map, lookup, contains_key, insert, remove, lookup-insert, lookup-remove, length-insert,
  length-insert_present, length-remove_present, length-remove,
}
use odp_rust.Agent.Cache.{CacheRecord, MemoryCache, with_capacity, make_room, set, get, delete}
use odp_rust.Agent.Cache.Eviction.{IsVictim, make_room-IsVictim}

abbrev pub IsBounded : MemoryCache → Type 0
IsBounded c = length c.records ≤ c.capacity

-- An operation on the cache.
pub data Step : Type 0 where
  set_step : Text → CacheRecord → Step
  delete_step : Text → Step

unfoldable pub run : MemoryCache → List Step → MemoryCache
run c [] = c
run c (set_step k value ∷ steps) = run (set c k value).1 steps
run c (delete_step k ∷ steps) = run (delete c k).1 steps

Mem-contains_key :
    (k : Text) (v : CacheRecord) (m : Map CacheRecord) → Memᴰ (k, v) m → contains_key k m ≡ true
unfolding lookup
Mem-contains_key k v ((j, w) ∷ m) (Memᴰ.head p) =
    let same : k ≡ j = ap (λ (e : Text × CacheRecord). e.0) p in ground (arith, text_eq_iff j k)
Mem-contains_key k v ((j, w) ∷ m) (Memᴰ.tail h) = ground (arith, Mem-contains_key k v m h)
Mem-contains_key k v [] h = elim h [ ]

room_made :
    (capacity : ℕ) (k : Text) (v : CacheRecord) (m : Map CacheRecord)
    → 0 < capacity
    → length m ≤ capacity
    → length (insert k v (make_room capacity k m)) ≤ capacity
unfolding make_room
room_made capacity k v m room fits = elim (Bool-cases (contains_key k m)) [
  | inl present ↦ rw present (omega (arith, length-insert_present k v m present))
  | inr missing ↦ elim (Bool-cases (leb capacity (length m))) [
    | inl full ↦
        let exact : length m ≡ capacity = ground arith in
        let (name, victim, e) = make_room-IsVictim capacity k m missing exact room in
        let shorter =
          length-remove_present name m (Mem-contains_key name victim.value m victim.stored) in
        let bound : length (insert k v (make_room capacity k m)) ≤ capacity =
          rw e (omega (arith, length-insert k v (remove name m), shorter)) in
        bound
    | inr spare ↦ rw (missing, spare) (ground (arith, length-insert k v m))
  ]
]

set-IsBounded :
    (c : MemoryCache) (k : Text) (v : CacheRecord) → IsBounded c → IsBounded (set c k v).1
unfolding set
set-IsBounded c k v h = elim (Bool-cases (c.capacity == 0)) [
  | inl none_kept ↦ ground arith
  | inr kept ↦ ground (arith, room_made c.capacity k v c.records)
]

delete-IsBounded : (c : MemoryCache) (k : Text) → IsBounded c → IsBounded (delete c k).1
unfolding delete
delete-IsBounded c k h = ground (arith, length-remove k c.records)

run-IsBounded : (c : MemoryCache) (steps : List Step) → IsBounded c → IsBounded (run c steps)
unfolding run
run-IsBounded c [] h = h
run-IsBounded c (set_step k v ∷ steps) h = run-IsBounded (set c k v).1 steps (set-IsBounded c k v h)
run-IsBounded c (delete_step k ∷ steps) h =
    run-IsBounded (delete c k).1 steps (delete-IsBounded c k h)

capacity-set : (c : MemoryCache) (k : Text) (v : CacheRecord) → (set c k v).1.capacity ≡ c.capacity
unfolding set
capacity-set c k v = ground arith

capacity-delete : (c : MemoryCache) (k : Text) → (delete c k).1.capacity ≡ c.capacity
unfolding delete
capacity-delete c k = ground arith

capacity-run : (c : MemoryCache) (steps : List Step) → (run c steps).capacity ≡ c.capacity
unfolding run
capacity-run c [] = refl
capacity-run c (set_step k v ∷ steps) = capacity-run (set c k v).1 steps ∙ capacity-set c k v
capacity-run c (delete_step k ∷ steps) = capacity-run (delete c k).1 steps ∙ capacity-delete c k

-- Whatever is stored and deleted, a cache made with a capacity never holds more records than that.
pub run-with_capacity_bound :
    (capacity : ℕ) (steps : List Step)
    → length (run (with_capacity capacity) steps).records ≤ capacity
run-with_capacity_bound capacity steps =
    let bounded =
      run-IsBounded (with_capacity capacity) steps (unfold with_capacity in omega arith) in
    let same : (run (with_capacity capacity) steps).capacity ≡ capacity =
      capacity-run (with_capacity capacity) steps ∙ (unfold with_capacity in refl) in
    omega arith

module _ (c : MemoryCache) (k : Text) (v : CacheRecord) (sound : c.poisoned ≡ false)
    (room : 0 < c.capacity) where
  -- What a cache with a sound lock and a capacity above zero has stored can be read back.
  pub get-set : get (set c k v).1 k ≡ ok (some v)
  unfolding set get
  get-set = ground (arith, lookup-insert k k v (make_room c.capacity k c.records), text_eq_refl k)

  -- A store into a full cache under a new key loses one record, the least recently stored, with ties
  -- going to the smaller name; every other key reads as before.
  pub get-set_full :
      contains_key k c.records ≡ false
      → length c.records ≡ c.capacity
      → (name : Text) × IsVictim c.records name
        × ((j : Text)
            → get (set c k v).1 j
              ≡ (if k == j then ok (some v) else if name == j then ok none else get c j))
  unfolding set get
  get-set_full missing full =
      let (name, victim, e) = make_room-IsVictim c.capacity k c.records missing full room in
      (
        name,
        victim,
        λ j. ground (
          arith,
          e,
          lookup-insert k j v (make_room c.capacity k c.records),
          lookup-remove name j c.records,
        ),
      )

  -- A store under a key that is there, or into a cache with room, loses nothing.
  pub get-set_spare :
      (contains_key k c.records ≡ true) ⊎ (length c.records < c.capacity)
      → (j : Text) → get (set c k v).1 j ≡ (if k == j then ok (some v) else get c j)
  unfolding set get make_room
  get-set_spare spare j =
      let stays : make_room c.capacity k c.records ≡ c.records = ground arith in
      ground (arith, stays, lookup-insert k j v c.records)
