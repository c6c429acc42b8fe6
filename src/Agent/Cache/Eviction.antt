-- ===== src/Agent/Cache/Eviction.antt =====
-- What is evicted: the sort of cache.rs puts the least recently stored record first.
use mathlib.Core.List.{Memᴰ}
use odp_rust.Prelude.{
  ℕ, suc, ◌+◌, ◌-◌, ◌<◌, ◌≡◌, refl, sym, ap, subst, length, true, false, List, [], ◌∷◌, map, arith,
  All, Bool-cases, inl, inr, leb,
}
use odp_rust.Prelude.Text.{Text, text_leb}
use odp_rust.Prelude.Maps.{Map, contains_key, remove}
use odp_rust.Agent.Cache.{
  CacheRecord, Age, age_leb, age_of, insert_sorted, sort, remove_all, make_room,
}

text_leb-total : (a b : Text) → text_leb a b ≡ false → text_leb b a ≡ true
unfolding text_leb
text_leb-total [] b h = cc
text_leb-total (x ∷ a) [] h = refl
text_leb-total (x ∷ a) (y ∷ b) h = ground (arith, text_leb-total a b)

text_leb_trans : (a b c : Text) → text_leb a b ≡ true → text_leb b c ≡ true → text_leb a c ≡ true
unfolding text_leb
text_leb_trans [] b c h k = refl
text_leb_trans (x ∷ a) [] c h k = cc
text_leb_trans (x ∷ a) (y ∷ b) [] h k = cc
text_leb_trans (x ∷ a) (y ∷ b) (z ∷ c) h k = ground (arith, text_leb_trans a b c)

age_leb-total : (a b : Age) → age_leb a b ≡ false → age_leb b a ≡ true
age_leb-total (s, j) (t, k) h = ground (arith, text_leb-total j k)

age_leb_trans : (a b c : Age) → age_leb a b ≡ true → age_leb b c ≡ true → age_leb a c ≡ true
age_leb_trans (s, j) (t, k) (u, l) h g = ground (arith, text_leb_trans j k l)

text_leb_refl : (a : Text) → text_leb a a ≡ true
unfolding text_leb
text_leb_refl [] = refl
text_leb_refl (x ∷ a) = ground (arith, text_leb_refl a)

self : (a : Age) → age_leb a a ≡ true
self (s, j) = ground (arith, text_leb_refl j)

-- `a` is at least as old as all of `bs`.
abbrev pub IsOldest : Age → List Age → Type 0
IsOldest a = All (λ b. age_leb a b ≡ true)

IsOldest-trans : (a b : Age) (l : List Age) → age_leb a b ≡ true → IsOldest b l → IsOldest a l
IsOldest-trans a b [] h k = tt
IsOldest-trans a b (c ∷ l) h (p, k) = (age_leb_trans a b c h p, IsOldest-trans a b l h k)

abbrev IsSorted : List Age → Type 0
IsSorted [] = Unit
IsSorted (a ∷ l) = IsOldest a l × IsSorted l

IsOldest-insert_sorted :
    (a b : Age) (l : List Age) → age_leb a b ≡ true → IsOldest a l → IsOldest a (insert_sorted b l)
unfolding insert_sorted
IsOldest-insert_sorted a b [] h k = (h, tt)
IsOldest-insert_sorted a b (c ∷ l) h (p, k) = elim (Bool-cases (age_leb b c)) [
  | inl e ↦ rw e (h, (p, k))
  | inr e ↦ rw e (p, IsOldest-insert_sorted a b l h k)
]

insert_sorted-IsSorted : (a : Age) (l : List Age) → IsSorted l → IsSorted (insert_sorted a l)
unfolding insert_sorted
insert_sorted-IsSorted a [] h = (tt, tt)
insert_sorted-IsSorted a (b ∷ l) (p, h) = elim (Bool-cases (age_leb a b)) [
  | inl e ↦ rw e ((e, IsOldest-trans a b l e p), (p, h))
  | inr e ↦
      rw e (IsOldest-insert_sorted b a l (age_leb-total a b e) p, insert_sorted-IsSorted a l h)
]

pub sort-IsSorted : (l : List Age) → IsSorted (sort l)
unfolding sort
sort-IsSorted [] = tt
sort-IsSorted (a ∷ l) = insert_sorted-IsSorted a (sort l) (sort-IsSorted l)

Mem-skip : (e a b : Age) (l : List Age) → Memᴰ e (a ∷ l) → Memᴰ e (a ∷ (b ∷ l))
Mem-skip e a b l (Memᴰ.head p) = Memᴰ.head p
Mem-skip e a b l (Memᴰ.tail m) = Memᴰ.tail (Memᴰ.tail m)

Mem-under :
    (e a b : Age) (l r : List Age)
    → (Memᴰ e r → Memᴰ e (a ∷ l))
    → Memᴰ e (b ∷ r)
    → Memᴰ e (a ∷ (b ∷ l))
Mem-under e a b l r ih (Memᴰ.head p) = Memᴰ.tail (Memᴰ.head p)
Mem-under e a b l r ih (Memᴰ.tail m) = Mem-skip e a b l (ih m)

insert_sorted-Mem : (e a : Age) (l : List Age) → Memᴰ e (insert_sorted a l) → Memᴰ e (a ∷ l)
unfolding insert_sorted
insert_sorted-Mem e a [] m = m
insert_sorted-Mem e a (b ∷ l) m = elim (Bool-cases (age_leb a b)) [
  | inl here ↦ rw (here, insert_sorted) at m
  | inr later ↦
      Mem-under e a b l (insert_sorted a l) (insert_sorted-Mem e a l)
        (rw (later, insert_sorted) at m)
]

Mem-cons : (e a : Age) (l r : List Age) → (Memᴰ e l → Memᴰ e r) → Memᴰ e (a ∷ l) → Memᴰ e (a ∷ r)
Mem-cons e a l r f (Memᴰ.head p) = Memᴰ.head p
Mem-cons e a l r f (Memᴰ.tail m) = Memᴰ.tail (f m)

sort-Mem : (e : Age) (l : List Age) → Memᴰ e (sort l) → Memᴰ e l
unfolding sort
sort-Mem e [] m = m
sort-Mem e (a ∷ l) m = Mem-cons e a (sort l) l (sort-Mem e l) (insert_sorted-Mem e a (sort l) m)

IsOldest-of_insert_sorted :
    (e a : Age) (l : List Age) → IsOldest e (insert_sorted a l) → IsOldest e (a ∷ l)
unfolding insert_sorted
IsOldest-of_insert_sorted e a [] h = h
IsOldest-of_insert_sorted e a (b ∷ l) h = elim (Bool-cases (age_leb a b)) [
  | inl here ↦ rw (here, insert_sorted) at h
  | inr later ↦
      let h' : IsOldest e (b ∷ insert_sorted a l) = rw (later, insert_sorted) at h in
      let rest = IsOldest-of_insert_sorted e a l h'.1 in (rest.0, (h'.0, rest.1))
]

IsOldest-of_sort : (e : Age) (l : List Age) → IsOldest e (sort l) → IsOldest e l
unfolding sort
IsOldest-of_sort e [] h = tt
IsOldest-of_sort e (a ∷ l) h =
    let k = IsOldest-of_insert_sorted e a (sort l) h in (k.0, IsOldest-of_sort e l k.1)

-- An entry of `m` that was stored no later than any other, ties going to the smaller name.
pub record IsVictim (m : Map CacheRecord) (name : Text) : Type 0 where
  pub value : CacheRecord
  pub stored : Memᴰ (name, value) m
  pub oldest : IsOldest (age_of (name, value)) (map age_of m)

Mem-entry :
    (e : Age) (m : Map CacheRecord)
    → Memᴰ e (map age_of m)
    → (entry : Text × CacheRecord) × (Memᴰ entry m) × (age_of entry ≡ e)
Mem-entry e [] k = elim k [ ]
Mem-entry e (x ∷ m) (Memᴰ.head p) = (x, Memᴰ.head refl, sym p)
Mem-entry e (x ∷ m) (Memᴰ.tail k) =
    let (entry, at, same) = Mem-entry e m k in (entry, Memᴰ.tail at, same)

head-IsVictim :
    (m : Map CacheRecord) (s : List Age)
    → sort (map age_of m) ≡ s
    → 0 < length s
    → (victim : Age) × (rest : List Age) × (s ≡ victim ∷ rest) × IsVictim m victim.1
head-IsVictim m [] e h = elim h [ ]
head-IsVictim m (v ∷ rest) e h =
    let sorted = subst IsSorted e (sort-IsSorted (map age_of m)) in
    let listed = sort-Mem v (map age_of m) (subst (Memᴰ v) (sym e) (Memᴰ.head refl)) in
    let ((name, value), stored, same) = Mem-entry v m listed in
    let oldest =
      IsOldest-of_sort v (map age_of m) (subst (IsOldest v) (sym e) (self v, sorted.0)) in
    (
      v,
      rest,
      refl,
      subst (IsVictim m) (ap (λ (a : Age). a.1) same) (record {
        value = value;
        stored = stored;
        oldest = subst (λ a. IsOldest a (map age_of m)) (sym same) oldest;
      }),
    )

length-insert_sorted : (a : Age) (l : List Age) → length (insert_sorted a l) ≡ suc (length l)
unfolding insert_sorted
length-insert_sorted a [] = refl
length-insert_sorted a (b ∷ l) = ground (arith, length-insert_sorted a l)

length-sort : (l : List Age) → length (sort l) ≡ length l
unfolding sort
length-sort [] = refl
length-sort (a ∷ l) = omega (arith, length-insert_sorted a (sort l), length-sort l)

length-ages : (m : Map CacheRecord) → length (map age_of m) ≡ length m
length-ages [] = refl
length-ages (x ∷ m) = ap suc (length-ages m)

-- A full map that lacks `k` loses exactly one entry, the least recently stored.
pub make_room-IsVictim :
    (capacity : ℕ) (k : Text) (m : Map CacheRecord)
    → contains_key k m ≡ false
    → length m ≡ capacity
    → 0 < capacity
    → (name : Text) × IsVictim m name × (make_room capacity k m ≡ remove name m)
unfolding make_room remove_all
make_room-IsVictim capacity k m missing fits room =
    let size : 0 < length (sort (map age_of m)) =
      omega (arith, length-sort (map age_of m), length-ages m) in
    let (victim, rest, e, found) = head-IsVictim m (sort (map age_of m)) refl size in
    let full : leb capacity (length m) ≡ true = ground arith in
    let one : length m + 1 - capacity ≡ 1 = omega arith in
    (victim.1, found, rw (missing, full, one, e))
