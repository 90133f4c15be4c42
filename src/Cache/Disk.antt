-- ===== src/Cache/Disk.antt =====
-- `DiskCache` of cmd/cache-proxy/cache.go. The directory is a map from names to contents, a time is a
-- number of nanoseconds; the sort is given, as are the writes and removals that fail. Metrics and
-- logs are not modelled.
use duckgres.Base.{
  ℕ, zero, suc, ◌+◌, ◌-◌, Bool, true, false, not, ◌&&◌, ◌||◌, List, [], ◌∷◌, ◌++◌, Option, none,
  some, Bytes, bytes_eq, length, ltb, leb, ◌==◌, if◌then◌else◌,
}
use duckgres.Base.Dict.{lookup, insert, delete}
use duckgres.Auth.Limiter.{byte_keys}

-- The class `[0-9a-f]`
abbrev pub is_hex_digit : ℕ → Bool
is_hex_digit c = (leb b'0' c && leb c b'9') || (leb b'a' c && leb c b'f')

unfoldable pub all_hex : Bytes → Bool
all_hex [] = true
all_hex (c ∷ s) = is_hex_digit c && all_hex s

-- `IsValidCacheKey`
unfoldable pub is_valid_cache_key : Bytes → Bool
unfolding all_hex
is_valid_cache_key key = length key == 64 && all_hex key

-- `cacheEntry`
pub record CacheEntry : Type 0 where
  pub key : Bytes
  pub size : ℕ
  pub last_access : ℕ

-- `DiskCache`, with the files of its directory.
pub record DiskCache : Type 0 where
  pub max_bytes : ℕ
  pub current_size : ℕ
  pub order : List CacheEntry
  pub files : List (Bytes × Bytes)

pub data CacheError : Type 0 where
  invalid_key write_failed : CacheError

-- An entry of `os.ReadDir`: its name, whether it is a directory, and its size and time of change,
-- where `Info` does not fail.
pub record DirEntry : Type 0 where
  pub name : Bytes
  pub is_dir : Bool
  pub info : Option (ℕ × ℕ)

-- `scanExisting`, of a directory that can be read.
unfoldable pub scan_existing : List DirEntry → DiskCache → DiskCache
scan_existing [] c = c
scan_existing (e ∷ es) c =
    let found : DiskCache = elim e.info [
      | none ↦ c
      | some (size, mod_time) ↦ record c {
        order = c.order ++ record { key = e.name; size = size; last_access = mod_time } ∷ [];
        current_size = c.current_size + size;
      }
    ] in
    scan_existing es (if e.is_dir then c else found)

-- `Has`
unfoldable pub has : Bytes → DiskCache → Bool
unfolding is_valid_cache_key lookup
has key c = is_valid_cache_key key && (elim (lookup key c.files) [ none ↦ false | some _ ↦ true ])

-- `touchLocked`: the first entry of the key goes to the end.
unfoldable pub take_entry : Bytes → List CacheEntry → Option (CacheEntry × List CacheEntry)
take_entry key [] = none
take_entry key (e ∷ es) =
    let rest = take_entry key es in
    if bytes_eq e.key key
    then some (e, es)
    else elim rest [ none ↦ none | some (f, fs) ↦ some (f, e ∷ fs) ]

unfoldable pub touch_locked : ℕ → Bytes → DiskCache → DiskCache
unfolding take_entry
touch_locked now key c = elim (take_entry key c.order) [
  | none ↦ c
  | some (e, es) ↦ record c { order = es ++ record e { last_access = now } ∷ [] }
]

-- `Get`
unfoldable pub get : ℕ → Bytes → DiskCache → DiskCache × Option Bytes
unfolding is_valid_cache_key touch_locked lookup
get now key c =
    if is_valid_cache_key key
    then (elim (lookup key c.files) [
      | none ↦ (c, none)
      | some data' ↦ (touch_locked now key c, some data')
    ])
    else (c, none)

-- `Open`: the reader's bytes and the size, of a file that can be opened and examined.
unfoldable pub open_reader : ℕ → Bytes → DiskCache → DiskCache × Option (Bytes × ℕ)
unfolding is_valid_cache_key touch_locked lookup
open_reader now key c =
    if is_valid_cache_key key
    then (elim (lookup key c.files) [
      | none ↦ (c, none)
      | some data' ↦ (touch_locked now key c, some (data', length data'))
    ])
    else (c, none)

abbrev pub is_empty : List CacheEntry → Bool
is_empty [] = true
is_empty (_ ∷ _) = false

-- The less function that `evictOldest` sorts by: `lastAccess.Before`.
unfoldable pub less_recent : CacheEntry → CacheEntry → Bool
less_recent a b = ltb a.last_access b.last_access

-- `sort.Slice` on the entries, for any less function.
abbrev pub SortSlice : Type 0
SortSlice = (CacheEntry → CacheEntry → Bool) → List CacheEntry → List CacheEntry

module _ (sort : SortSlice) (removes : Bytes → Bool) where
  -- The oldest entry goes, and its file where that can be removed.
  abbrev pub drop_first : List CacheEntry → DiskCache → DiskCache
  drop_first [] c = c
  drop_first (oldest ∷ rest) c = record c {
    files = if removes oldest.key then delete oldest.key c.files else c.files;
    current_size = c.current_size - oldest.size;
    order = rest;
  }

  -- `evictOldest`
  unfoldable pub evict_oldest : DiskCache → DiskCache
  unfolding delete
  evict_oldest c = elim c.order [ [] ↦ c | _ ∷ _ ↦ drop_first (sort less_recent c.order) c ]

  -- The loop of `Put`, with `fuel` evictions.
  unfoldable pub evict_loop : ℕ → ℕ → DiskCache → Option DiskCache
  unfolding evict_oldest
  evict_loop zero size c =
      if ltb c.max_bytes (c.current_size + size) && not (is_empty c.order) then none else some c
  evict_loop (suc f) size c =
      let next = evict_loop f size (evict_oldest c) in
      if ltb c.max_bytes (c.current_size + size) && not (is_empty c.order) then next else some c

-- What `Put` does when it holds the lock again.
abbrev pub record_entry : ℕ → Bytes → ℕ → DiskCache → DiskCache
record_entry now key size c = record c {
  order = c.order ++ record { key = key; size = size; last_access = now } ∷ [];
  current_size = c.current_size + size;
}

-- The write of the file and what follows it.
abbrev pub write_entry : Bool → ℕ → Bytes → Bytes → DiskCache → DiskCache × Option CacheError
write_entry writes now key data' c =
    if writes
    then (record_entry now key (length data') (record c { files = insert key data' c.files }), none)
    else (c, some write_failed)

-- `Put`, alone: `writes` says whether the file can be written; `none` is a loop out of fuel.
unfoldable pub put :
    SortSlice
    → (Bytes → Bool)
    → Bool
    → ℕ
    → ℕ
    → Bytes
    → Bytes
    → DiskCache
    → Option (DiskCache × Option CacheError)
unfolding is_valid_cache_key evict_loop insert
put sort removes writes fuel now key data' c =
    if is_valid_cache_key key
    then (elim (evict_loop sort removes fuel (length data') c) [
      | none ↦ none
      | some d ↦ some (write_entry writes now key data' d)
    ])
    else some (c, some invalid_key)
