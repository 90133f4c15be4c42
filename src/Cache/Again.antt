-- ===== src/Cache/Again.antt =====
-- A second `Put` of a key.
use duckgres.Base.{
  ℕ, zero, suc, ◌+◌, ◌≤◌, ◌≡◌, refl, ap, ◌∙◌, Bool, true, Option, none, some, Bytes, bytes_eq,
  bytes_eq_iff, length, le→ltb, arith, if-true,
}
use duckgres.Base.Dict.{lookup, insert, lookup-insert}
use duckgres.Auth.Limiter.{byte_keys}
use duckgres.Cache.Disk.{
  is_valid_cache_key, DiskCache, SortSlice, CacheError, evict_loop, record_entry, write_entry, put,
}

-- What a `Put` makes of a cache that has room.
abbrev pub with_file : ℕ → Bytes → Bytes → DiskCache → DiskCache
with_file now key data' c =
    record_entry now key (length data') (record c { files = insert key data' c.files })

module _ (sort : SortSlice) (removes : Bytes → Bool) where
  evict_loop-room :
      (f size : ℕ) (c : DiskCache)
      → c.current_size + size ≤ c.max_bytes
      → evict_loop sort removes f size c ≡ some c
  unfolding evict_loop
  evict_loop-room zero size c h = rw (le→ltb c.max_bytes (c.current_size + size) h)
  evict_loop-room (suc f) size c h = rw (le→ltb c.max_bytes (c.current_size + size) h)

  put-room :
      (f now : ℕ) (key data' : Bytes) (c : DiskCache)
      → is_valid_cache_key key ≡ true
      → c.current_size + length data' ≤ c.max_bytes
      → put sort removes true f now key data' c ≡ some (with_file now key data' c, none)
  unfolding put
  put-room f now key data' c v h =
      if-true (is_valid_cache_key key) _ _ v ∙ ap written (evict_loop-room f (length data') c h)
    where
      written : Option DiskCache → Option (DiskCache × Option CacheError)
      written o = elim o [ none ↦ none | some d ↦ some (write_entry true now key data' d) ]

-- Two times `Put` of one valid key, in a cache with room for both: the directory holds the second
-- data alone, and the size that the cache keeps has grown by both lengths.
pub put-put :
    (sort : SortSlice) (removes : Bytes → Bool) (fuel now later : ℕ) (key first second : Bytes)
    (c : DiskCache)
    → is_valid_cache_key key ≡ true
    → c.current_size + length first + length second ≤ c.max_bytes
    → (d e : DiskCache) × (put sort removes true fuel now key first c ≡ some (d, none))
      × (put sort removes true fuel later key second d ≡ some (e, none))
      × (lookup key e.files ≡ some second)
      × (e.current_size ≡ c.current_size + length first + length second)
put-put sort removes fuel now later key first second c v h = (
  with_file now key first c,
  with_file later key second (with_file now key first c),
  put-room sort removes fuel now key first c v (omega arith),
  put-room sort removes fuel later key second (with_file now key first c) v h,
  lookup-insert key key second _ ∙ if-true (bytes_eq key key) _ _ ((bytes_eq_iff key key).1 refl),
  refl,
)
