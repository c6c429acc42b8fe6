-- ===== src/Agent/Cache.antt =====
-- crates/odp-agent/src/cache.rs: the in-memory cache. A time is a count of nanoseconds.
pub mod Eviction
pub mod Bounds
mod Tests
use odp_rust.Prelude.{
  ℕ, ◌+◌, ◌-◌, ◌≡◌, Bool, true, false, not, ◌&&◌, ◌||◌, Option, none, some, List, [], ◌∷◌, map,
  Result, ok, err, ◌==◌, nat_eq, ltb, leb, length, take, if◌then◌else◌,
}
use odp_rust.Prelude.Text.{Text, text, text_leb}
use odp_rust.Prelude.Maps.{Map, lookup, contains_key, insert, remove}

pub record CacheRecord : Type 0 where
  pub body : Text
  pub etag : Option Text
  pub expires_at : ℕ
  pub final_url : Text
  pub last_modified : Option Text
  pub status : ℕ
  pub stored_at : ℕ

-- `poisoned`: a thread panicked while it held the lock.
pub record MemoryCache : Type 0 where
  pub capacity : ℕ
  pub records : Map CacheRecord
  pub poisoned : Bool

abbrev pub default_capacity : ℕ
default_capacity = 256

unfoldable pub with_capacity : ℕ → MemoryCache
with_capacity capacity = record { capacity = capacity; records = []; poisoned = false }

unfoldable pub len : MemoryCache → ℕ
len cache = if cache.poisoned then 0 else length cache.records

abbrev pub poisoned_lock : Text
poisoned_lock = text "memory cache lock is poisoned"

unfoldable pub delete : MemoryCache → Text → Result Text (Unit {0}) × MemoryCache
delete cache k =
    if cache.poisoned
    then (err poisoned_lock, cache)
    else (ok tt, record cache { records = remove k cache.records })

unfoldable pub get : MemoryCache → Text → Result Text (Option CacheRecord)
get cache k = if cache.poisoned then err poisoned_lock else ok (lookup k cache.records)

-- `(SystemTime, String)`, ordered by the time and then by the name.
abbrev pub Age : Type 0
Age = ℕ × Text

abbrev pub age_leb : Age → Age → Bool
age_leb (s, j) (t, k) = ltb s t || (s == t && text_leb j k)

unfoldable pub insert_sorted : Age → List Age → List Age
insert_sorted a [] = a ∷ []
insert_sorted a (b ∷ bs) = if age_leb a b then a ∷ (b ∷ bs) else b ∷ insert_sorted a bs

-- `sort` of the standard library: the sorted list of the same entries.
unfoldable pub sort : List Age → List Age
sort [] = []
sort (a ∷ as') = insert_sorted a (sort as')

abbrev pub age_of : Text × CacheRecord → Age
age_of (name, value) = (value.stored_at, name)

unfoldable pub remove_all : List Age → Map CacheRecord → Map CacheRecord
remove_all [] m = m
remove_all ((_, name) ∷ rest) m = remove_all rest (remove name m)

unfoldable pub make_room : ℕ → Text → Map CacheRecord → Map CacheRecord
make_room capacity k records =
    if not (contains_key k records) && leb capacity (length records)
    then remove_all (take (length records + 1 - capacity) (sort (map age_of records))) records
    else records

unfoldable pub set : MemoryCache → Text → CacheRecord → Result Text (Unit {0}) × MemoryCache
set cache k value =
    if cache.poisoned
    then (err poisoned_lock, cache)
    else if cache.capacity == 0
    then (ok tt, cache)
    else (
      ok tt,
      record cache { records = insert k value (make_room cache.capacity k cache.records) },
    )
