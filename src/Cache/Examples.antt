-- ===== src/Cache/Examples.antt =====
-- The cache on a small directory, with an insertion sort.
use mathlib.Core.List.Permᴰ
use mathlib.Core.List.{Permᴰ}
use duckgres.Base.{
  ◌≡◌, refl, Bool, true, false, List, [], ◌∷◌, none, some, Bytes, codes, replicate, All, inl, inr,
  Bool-cases, if◌then◌else◌, arith, if-cases,
}
use duckgres.Base.Dict.{lookup}
use duckgres.Auth.Limiter.{byte_keys}
use duckgres.Cache.Disk.{
  is_valid_cache_key, all_hex, CacheEntry, SortSlice, DiskCache, DirEntry, scan_existing,
  evict_oldest, put,
}
use duckgres.Cache.Counted.{IsOrder, Ordered, Sorts, Counted}
use duckgres.Cache.Steps
use duckgres.Cache.Puts.{Evicts, evict_oldest-Evicts, Stored, put-Stored}
use duckgres.Cache.Again.{put-put}

unfoldable insert_entry :
    (CacheEntry → CacheEntry → Bool) → CacheEntry → List CacheEntry → List CacheEntry
insert_entry less e [] = e ∷ []
insert_entry less e (f ∷ fs) =
    let rest = insert_entry less e fs in if less f e then f ∷ rest else e ∷ f ∷ fs

unfoldable sort_entries : SortSlice
unfolding insert_entry
sort_entries less [] = []
sort_entries less (e ∷ es) = insert_entry less e (sort_entries less es)

module _ (less : CacheEntry → CacheEntry → Bool) where
  insert_entry-Perm :
      (e : CacheEntry) (es : List CacheEntry) → Permᴰ (insert_entry less e es) (e ∷ es)
  unfolding insert_entry
  insert_entry-Perm e [] = Permᴰ.refl (e ∷ [])
  insert_entry-Perm e (f ∷ fs) =
      if-cases (λ (l : List CacheEntry). Permᴰ l (e ∷ f ∷ fs)) (less f e) _ _
        (λ _. Permᴰ.trans (Permᴰ.cons refl (insert_entry-Perm e fs)) (Permᴰ.swap refl refl))
        (λ _. Permᴰ.refl (e ∷ f ∷ fs))

  sort_entries-Perm : (es : List CacheEntry) → Permᴰ (sort_entries less es) es
  unfolding sort_entries
  sort_entries-Perm [] = Permᴰ.nil
  sort_entries-Perm (e ∷ es) =
      Permᴰ.trans (insert_entry-Perm e (sort_entries less es))
        (Permᴰ.cons refl (sort_entries-Perm es))

  -- None of the entries is less than `a`.
  abbrev NoneLess : CacheEntry → List CacheEntry → Type 0
  NoneLess a = All (λ f. less f a ≡ false)

  insert_entry-NoneLess :
      (a e : CacheEntry) (es : List CacheEntry)
      → less e a ≡ false
      → NoneLess a es
      → NoneLess a (insert_entry less e es)
  unfolding insert_entry
  insert_entry-NoneLess a e [] l h = (l, tt)
  insert_entry-NoneLess a e (f ∷ fs) l (h, hs) =
      if-cases (NoneLess a) (less f e) _ _ (λ _. (h, insert_entry-NoneLess a e fs l hs))
        (λ _. (l, (h, hs)))

  module _ (order : IsOrder less) where
    NoneLess-trans :
        (a b : CacheEntry) (es : List CacheEntry) → less b a ≡ false → NoneLess b es → NoneLess a es
    NoneLess-trans a b [] l h = tt
    NoneLess-trans a b (f ∷ fs) l (h, hs) =
        (order.incomparable f b a h l, NoneLess-trans a b fs l hs)

    not_back : (a b : CacheEntry) → less a b ≡ true → less b a ≡ false
    not_back a b h = elim (Bool-cases (less b a)) [
      | inl y ↦ cc (order.transitive a b a h y, order.irreflexive a)
      | inr n ↦ n
    ]

    insert_entry-Ordered :
        (e : CacheEntry) (es : List CacheEntry)
        → Ordered less es
        → Ordered less (insert_entry less e es)
    unfolding insert_entry
    insert_entry-Ordered e [] h = (tt, tt)
    insert_entry-Ordered e (f ∷ fs) (h, hs) =
        if-cases (Ordered less) (less f e) _ _
          (λ y. (insert_entry-NoneLess f e fs (not_back f e y) h, insert_entry-Ordered e fs hs))
          (λ n. ((n, NoneLess-trans e f fs n h), (h, hs)))

    sort_entries-Ordered : (es : List CacheEntry) → Ordered less (sort_entries less es)
    unfolding sort_entries
    sort_entries-Ordered [] = tt
    sort_entries-Ordered (e ∷ es) = insert_entry-Ordered e _ (sort_entries-Ordered es)

sort_entries-Sorts : Sorts sort_entries
sort_entries-Sorts = record { permutes = sort_entries-Perm; ordered = sort_entries-Ordered }

abbrev all_removed : Bytes → Bool
all_removed key = true

abbrev key_a : Bytes
key_a = replicate 64 b'a'

abbrev key_b : Bytes
key_b = replicate 64 b'b'

abbrev one_entry : DiskCache
one_entry = record {
  max_bytes = 5;
  current_size = 4;
  order = record { key = key_a; size = 4; last_access = 7 } ∷ [];
  files = (key_a, codes "data") ∷ [];
}

abbrev empty_cache : DiskCache
empty_cache = record { max_bytes = 9; current_size = 0; order = []; files = [] }

abbrev found : List DirEntry
found =
    record { name = key_a; is_dir = false; info = some (4, 7) }
    ∷ record { name = key_b; is_dir = true; info = none }
    ∷ []

Reached-Counted_example : Counted (
    evict_oldest sort_entries all_removed
      (scan_existing found (record { max_bytes = 5; current_size = 0; order = []; files = [] })))
Reached-Counted_example =
    Steps.Reached-Counted sort_entries 5 _ sort_entries-Sorts
      (Steps.evicted (Steps.started [] found) all_removed)

-- The entry in front was accessed last.
abbrev two_entries : DiskCache
two_entries = record one_entry {
  current_size = 6;
  order =
      record { key = key_a; size = 4; last_access = 7 }
      ∷ record { key = key_b; size = 2; last_access = 3 }
      ∷ [];
}

evict_oldest-Evicts_example : Evicts two_entries (evict_oldest sort_entries all_removed two_entries)
evict_oldest-Evicts_example =
    evict_oldest-Evicts sort_entries all_removed sort_entries-Sorts two_entries (omega arith) refl

put-Stored_example :
    (d : DiskCache) × (put sort_entries all_removed true 1 9 key_b (codes "xyz") one_entry
      ≡ some (d, none))
    × Stored 10 key_b (codes "xyz") one_entry d
unfolding is_valid_cache_key all_hex
put-Stored_example =
    put-Stored sort_entries all_removed 9 10 key_b (codes "xyz") one_entry sort_entries-Sorts refl
      refl

put-put_example :
    (d e : DiskCache) × (put sort_entries all_removed true 0 1 key_a (codes "data") empty_cache
      ≡ some (d, none))
    × (put sort_entries all_removed true 0 2 key_a (codes "data") d ≡ some (e, none))
    × (lookup key_a e.files ≡ some (codes "data"))
    × (e.current_size ≡ 8)
unfolding is_valid_cache_key all_hex
put-put_example =
    put-put sort_entries all_removed 0 1 2 key_a (codes "data") (codes "data") empty_cache refl
      (omega arith)
