-- ===== src/Cache/Puts.antt =====
-- `Put` alone: it ends, makes room by the oldest entries, and what it stores can be read.

use mathlib.Core.List.{Permᴰ}
use duckgres.Base.{
  ℕ, zero, suc, ◌+◌, ◌≤◌, ◌≡◌, refl, sym, ap, subst, ◌∙◌, ◌⊎◌, inl, inr, Bool, true, false, not,
  ◌&&◌, List, [], ◌∷◌, Option, none, some, Bytes, bytes_eq, bytes_eq_iff, length, All, ltb, arith,
  if-true, if-false, Bool-cases, and_right,
}
use duckgres.Base.Dict.{lookup, insert, lookup-insert}
use duckgres.Auth.Limiter.{byte_keys}
use duckgres.Cache.Disk.{
  is_valid_cache_key, CacheEntry, SortSlice, less_recent, DiskCache, CacheError, touch_locked, get,
  drop_first, evict_oldest, is_empty, evict_loop, record_entry, write_entry, put,
}
use duckgres.Cache.Counted.{
  total_size, total_size-Perm, IsOrder, Ordered, Sorts, Counted, record_entry-Counted,
}
use duckgres.Cache.Steps.{evict_oldest-Counted}

length-Perm : (es fs : List CacheEntry) → Permᴰ es fs → length es ≡ length fs
length-Perm _ _ Permᴰ.nil = refl
length-Perm _ _ (Permᴰ.cons {l₁ = es} {l₂ = fs} e p) = omega (arith, length-Perm es fs p)
length-Perm _ _ (Permᴰ.swap e f) = refl
length-Perm _ _ (Permᴰ.trans {l₁ = es} {l₂ = fs} {l₃ = gs} p q) =
    length-Perm es fs p ∙ length-Perm fs gs q

less_recent-IsOrder : IsOrder less_recent
unfolding less_recent
less_recent-IsOrder = record {
  irreflexive = λ a. ground arith;
  transitive = λ a b c h k. ground arith;
  incomparable = λ a b c h k. ground arith;
}

not_less : (e f : CacheEntry) → less_recent f e ≡ false → e.last_access ≤ f.last_access
unfolding less_recent
not_less e f h = ground arith

-- What stands behind an entry in the sorted order was accessed no earlier.
All-older :
    (e : CacheEntry) (es : List CacheEntry)
    → All (λ f. less_recent f e ≡ false) es
    → All (λ f. e.last_access ≤ f.last_access) es
All-older e [] h = tt
All-older e (f ∷ es) (h, hs) = (not_less e f h, All-older e es hs)

-- What an eviction does to a cache that has entries.
pub record Evicts (c d : DiskCache) : Type 0 where
  pub oldest : CacheEntry
  pub same_entries : Permᴰ (oldest ∷ d.order) c.order
  pub is_oldest : All (λ (e : CacheEntry). oldest.last_access ≤ e.last_access) d.order
  pub freed : d.current_size + oldest.size ≡ c.current_size
  pub same_max : d.max_bytes ≡ c.max_bytes

module _ (sort : SortSlice) (removes : Bytes → Bool) (sorts : Sorts sort) where
  drop_first-Evicts :
      (es : List CacheEntry) (c : DiskCache)
      → 1 ≤ length es
      → Permᴰ es c.order
      → Ordered less_recent es
      → c.current_size ≡ total_size es
      → Evicts c (drop_first sort removes es c)
  drop_first-Evicts [] c n p a h = let none_left : ⊥ = omega arith in absurd none_left
  drop_first-Evicts (e ∷ es) c n p (a, _) h = record {
    oldest = e;
    same_entries = p;
    is_oldest = All-older e es a;
    freed = omega (arith, h);
    same_max = refl;
  }

  -- An eviction from a cache that has entries and whose size was the sum of their sizes takes an
  -- entry that was accessed no later than any other, by the code's less function, and its size. The
  -- sort permutes and, for any less function that is a strict weak ordering, leaves no entry behind one
  -- that it is less than.
  pub evict_oldest-Evicts :
      (c : DiskCache) → 1 ≤ length c.order → Counted c → Evicts c (evict_oldest sort removes c)
  unfolding evict_oldest
  evict_oldest-Evicts c n h = go c.order refl
    where
      p : Permᴰ (sort less_recent c.order) c.order
      p = sorts.permutes less_recent c.order

      go :
          (o : List CacheEntry)
          → c.order ≡ o
          → Evicts c (elim o as (λ _. DiskCache) [
            | [] ↦ c
            | _ ∷ _ ↦ drop_first sort removes (sort less_recent c.order) c
          ])
      go [] q = let none_left : ⊥ = empty (ap length q) in absurd none_left
        where
          empty : length c.order ≡ 0 → ⊥
          empty z = omega arith
      go (e ∷ es) q =
          drop_first-Evicts (sort less_recent c.order) c (omega (arith, n, length-Perm _ _ p)) p
            (sorts.ordered less_recent less_recent-IsOrder c.order)
            (h ∙ sym (total_size-Perm _ _ p))

  -- The loop ends with room for the new entry, or without entries.
  pub record MakesRoom (size max current : ℕ) (d : DiskCache) : Type 0 where
    pub counted : Counted d
    pub room : (d.current_size + size ≤ max) ⊎ (d.current_size ≡ 0)
    pub shrinks : d.current_size ≤ current

  abbrev is_full : ℕ → DiskCache → Bool
  is_full size c = ltb c.max_bytes (c.current_size + size) && not (is_empty c.order)

  not_empty : (size : ℕ) (c : DiskCache) → is_full size c ≡ true → 1 ≤ length c.order
  not_empty size c y = go c.order (and_right (ltb c.max_bytes (c.current_size + size)) _ y)
    where
      go : (o : List CacheEntry) → not (is_empty o) ≡ true → 1 ≤ length o
      go [] z = cc
      go (e ∷ es) z = omega arith

  stops :
      (size : ℕ) (c : DiskCache)
      → Counted c
      → is_full size c ≡ false
      → MakesRoom size c.max_bytes c.current_size c
  stops size c h n = record {
    counted = h;
    room = elim (Bool-cases (ltb c.max_bytes (c.current_size + size))) [
      | inl y ↦ inr (h ∙ empty c.order (sym (ap (λ (b : Bool). b && not (is_empty c.order)) y) ∙ n))
      | inr m ↦ inl (at_most c.max_bytes (c.current_size + size) m)
    ];
    shrinks = omega arith;
  }
    where
      empty : (o : List CacheEntry) → not (is_empty o) ≡ false → total_size o ≡ 0
      empty [] z = refl
      empty (e ∷ es) z = cc

      at_most : (a b : ℕ) → ltb a b ≡ false → b ≤ a
      at_most a b m = ground arith

  evict_loop-MakesRoom :
      (f size : ℕ) (c : DiskCache)
      → length c.order ≤ f
      → Counted c
      → (d : DiskCache) × (evict_loop sort removes f size c ≡ some d)
        × MakesRoom size c.max_bytes c.current_size d
  unfolding evict_loop
  evict_loop-MakesRoom zero size c n h = elim (Bool-cases (is_full size c)) [
    | inl y ↦ (let none_left : ⊥ = late (not_empty size c y) in absurd none_left)
    | inr m ↦ (c, if-false (is_full size c) _ _ m, stops size c h m)
  ]
    where
      late : 1 ≤ length c.order → ⊥
      late z = omega arith
  evict_loop-MakesRoom (suc f) size c n h = elim (Bool-cases (is_full size c)) [
    | inr m ↦ (c, if-false (is_full size c) _ _ m, stops size c h m)
    | inl y ↦
        (let e = evict_oldest-Evicts c (not_empty size c y) h in
          let (d, q, m) =
            evict_loop-MakesRoom f size (evict_oldest sort removes c)
              (omega (arith, n, length-Perm _ _ e.same_entries))
              (evict_oldest-Counted sort sorts removes c h) in
          (
            d,
            if-true (is_full size c) _ _ y ∙ q,
            record {
              counted = m.counted;
              room =
                  subst (λ (x : ℕ). (d.current_size + size ≤ x) ⊎ (d.current_size ≡ 0)) e.same_max
                    m.room;
              shrinks = omega (arith, m.shrinks, e.freed);
            },
          ))
  ]

get-found :
    (now : ℕ) (key : Bytes) (c : DiskCache) (data' : Bytes)
    → is_valid_cache_key key ≡ true
    → lookup key c.files ≡ some data'
    → (get now key c).1 ≡ some data'
unfolding get
get-found now key c data' v e =
    ap (λ (r : DiskCache × Option Bytes). r.1) (if-true (is_valid_cache_key key) _ _ v)
    ∙ go (lookup key c.files) e
  where
    go :
        (o : Option Bytes)
        → o ≡ some data'
        → (◌≡◌ {A = Option Bytes}
            (elim o as (λ _. DiskCache × Option Bytes) [
              | none ↦ (c, none)
              | some x ↦ (touch_locked now key c, some x)
            ]).1
            (some data'))
    go none q = cc
    go (some x) q = q

-- What a `Put` that writes its file leaves.
pub record Stored (later : ℕ) (key data' : Bytes) (c d : DiskCache) : Type 0 where
  pub readable : (get later key d).1 ≡ some data'
  pub counted : Counted d
  pub fits : (d.current_size ≤ c.max_bytes) ⊎ (d.current_size ≡ length data')
  pub grows : d.current_size ≤ c.current_size + length data'

-- A `Put` of a valid key whose file can be written ends after at most as many evictions as there are
-- entries, and leaves the data to be read by `Get`, the size the sum of the entries' sizes and within
-- the limit, or that of the new entry alone. The sort is right and the size was the sum before.
pub put-Stored :
    (sort : SortSlice) (removes : Bytes → Bool) (now later : ℕ) (key data' : Bytes) (c : DiskCache)
    → Sorts sort
    → Counted c
    → is_valid_cache_key key ≡ true
    → (d : DiskCache) × (put sort removes true (length c.order) now key data' c ≡ some (d, none))
      × Stored later key data' c d
unfolding put
put-Stored sort removes now later key data' c sorts h valid =
    let (d, q, m) =
      evict_loop-MakesRoom sort removes sorts (length c.order) (length data') c (omega arith) h in
    (
      stored d,
      if-true (is_valid_cache_key key) _ _ valid ∙ ap written q,
      record {
        readable = get-found later key (stored d) data' valid (
            lookup-insert key key data' d.files
            ∙ if-true (bytes_eq key key) _ _ ((bytes_eq_iff key key).1 refl));
        counted =
            record_entry-Counted now key (length data')
              (record d { files = insert key data' d.files }) m.counted;
        fits = elim m.room [ inl y ↦ inl y | inr z ↦ inr (omega arith) ];
        grows = omega (arith, m.shrinks);
      },
    )
  where
    stored : DiskCache → DiskCache
    stored d = record_entry now key (length data') (record d { files = insert key data' d.files })

    written : Option DiskCache → Option (DiskCache × Option CacheError)
    written o = elim o [ none ↦ none | some d ↦ some (write_entry true now key data' d) ]
