-- ===== src/Cache/Steps.antt =====
-- The critical sections of the cache's operations, in any order: the size that is kept is the sum of
-- the entries' sizes.
use duckgres.Base.{ℕ, ◌≡◌, refl, sym, ◌∙◌, Bool, List, [], ◌∷◌, Bytes, arith}
use duckgres.Auth.Limiter.{byte_keys}
use duckgres.Cache.Disk.{
  CacheEntry, SortSlice, less_recent, DiskCache, DirEntry, scan_existing, touch_locked, drop_first,
  evict_oldest, record_entry,
}
use duckgres.Cache.Counted.{
  total_size, total_size-Perm, Sorts, Counted, touch_locked-Counted, record_entry-Counted,
  scan_existing-Counted,
}

module _ (sort : SortSlice) (sorts : Sorts sort) (removes : Bytes → Bool) where
  -- The entry that goes is no larger than the sum.
  drop_first-Counted :
      (es : List CacheEntry) (c : DiskCache)
      → c.current_size ≡ total_size es
      → total_size c.order ≡ total_size es
      → Counted (drop_first sort removes es c)
  drop_first-Counted [] c h k = h ∙ sym k
  drop_first-Counted (e ∷ es) c h k = omega (arith, h)

  pub evict_oldest-Counted : (c : DiskCache) → Counted c → Counted (evict_oldest sort removes c)
  unfolding evict_oldest
  evict_oldest-Counted c h = go c.order refl
    where
      same : total_size (sort less_recent c.order) ≡ total_size c.order
      same = total_size-Perm _ _ (sorts.permutes less_recent c.order)

      go :
          (o : List CacheEntry)
          → c.order ≡ o
          → Counted (elim o as (λ _. DiskCache) [
            | [] ↦ c
            | _ ∷ _ ↦ drop_first sort removes (sort less_recent c.order) c
          ])
      go [] q = h
      go (e ∷ es) q = drop_first-Counted (sort less_recent c.order) c (h ∙ sym same) (sym same)

-- What the lock's holders make of a new cache, while the files change as they may: a start, a touch
-- of `Get` or `Open`, an eviction of `Put` and an entry that `Put` adds.
pub data Reached (sort : SortSlice) (max : ℕ) : DiskCache → Type 0 where
  started :
      (files : List (Bytes × Bytes))
      → (es : List DirEntry)
      → Reached sort max (
          scan_existing es
            (record { max_bytes = max; current_size = 0; order = []; files = files }))
  touched :
      {c : DiskCache}
      → Reached sort max c
      → (now : ℕ) → (key : Bytes) → Reached sort max (touch_locked now key c)
  evicted :
      {c : DiskCache}
      → Reached sort max c
      → (removes : Bytes → Bool) → Reached sort max (evict_oldest sort removes c)
  recorded :
      {c : DiskCache}
      → Reached sort max c
      → (now : ℕ) → (key : Bytes) → (size : ℕ) → Reached sort max (record_entry now key size c)
  files_changed :
      {c : DiskCache}
      → Reached sort max c
      → (files : List (Bytes × Bytes)) → Reached sort max (record c { files = files })

-- Whatever order the critical sections of the operations come in, and whatever happens to the files,
-- the size that the cache keeps is the sum of its entries' sizes, where the sort permutes.
pub Reached-Counted :
    (sort : SortSlice) (max : ℕ) (c : DiskCache) → Sorts sort → Reached sort max c → Counted c
Reached-Counted sort max c sorts (started files es) = scan_existing-Counted es _ refl
Reached-Counted sort max c sorts (touched {c = d} h now key) =
    touch_locked-Counted now key d (Reached-Counted sort max d sorts h)
Reached-Counted sort max c sorts (evicted {c = d} h removes) =
    evict_oldest-Counted sort sorts removes d (Reached-Counted sort max d sorts h)
Reached-Counted sort max c sorts (recorded {c = d} h now key size) =
    record_entry-Counted now key size d (Reached-Counted sort max d sorts h)
Reached-Counted sort max c sorts (files_changed {c = d} h files) =
    Reached-Counted sort max d sorts h
