-- ===== src/Cache/Counted.antt =====
-- The size that the cache keeps is the sum of its entries' sizes, whatever order the critical
-- sections of its operations come in.

use mathlib.Core.List.{Permᴰ}
use duckgres.Base.{
  ℕ, ◌+◌, ◌≡◌, refl, Bool, true, false, All, ap, ◌∙◌, List, [], ◌∷◌, ◌++◌, Option, none, some,
  Bytes, bytes_eq, arith, if-cases,
}
use duckgres.Auth.Limiter.{byte_keys}
use duckgres.Cache.Disk.{
  CacheEntry, SortSlice, DiskCache, DirEntry, scan_existing, take_entry, touch_locked, record_entry,
}

abbrev pub total_size : List CacheEntry → ℕ
total_size [] = 0
total_size (e ∷ es) = e.size + total_size es

pub total_size-append :
    (es fs : List CacheEntry) → total_size (es ++ fs) ≡ total_size es + total_size fs
total_size-append [] fs = omega arith
total_size-append (e ∷ es) fs = omega (arith, total_size-append es fs)

-- The requirement on a less function that `sort.Slice` documents: a strict weak ordering.
pub record IsOrder (less : CacheEntry → CacheEntry → Bool) : Type 0 where
  pub irreflexive : (a : CacheEntry) → less a a ≡ false
  pub transitive : (a b c : CacheEntry) → less a b ≡ true → less b c ≡ true → less a c ≡ true
  pub incomparable : (a b c : CacheEntry) → less a b ≡ false → less b c ≡ false → less a c ≡ false

-- No entry is less than one in front of it.
abbrev pub Ordered : (CacheEntry → CacheEntry → Bool) → List CacheEntry → Type 0
Ordered less [] = Unit
Ordered less (e ∷ es) = All (λ f. less f e ≡ false) es × Ordered less es

-- What `sort.Slice` does, whatever it sorts by: the same entries, in order.
pub record Sorts (sort : SortSlice) : Type 0 where
  pub permutes :
      (less : CacheEntry → CacheEntry → Bool) (es : List CacheEntry) → Permᴰ (sort less es) es
  pub ordered :
      (less : CacheEntry → CacheEntry → Bool)
      → IsOrder less
      → (es : List CacheEntry) → Ordered less (sort less es)

pub total_size-Perm : (es fs : List CacheEntry) → Permᴰ es fs → total_size es ≡ total_size fs
total_size-Perm _ _ Permᴰ.nil = refl
total_size-Perm _ _ (Permᴰ.cons {l₁ = es} {l₂ = fs} e p) =
    omega (arith, ap CacheEntry.size e, total_size-Perm es fs p)
total_size-Perm _ _ (Permᴰ.swap e f) = omega (arith, ap CacheEntry.size e, ap CacheEntry.size f)
total_size-Perm _ _ (Permᴰ.trans {l₁ = es} {l₂ = fs} {l₃ = gs} p q) =
    total_size-Perm es fs p ∙ total_size-Perm fs gs q

-- The size kept is the sum.
abbrev pub Counted : DiskCache → Type 0
Counted c = c.current_size ≡ total_size c.order

-- The sizes of an entry and of the entries without it.
abbrev left_size : Option (CacheEntry × List CacheEntry) → ℕ
left_size none = 0
left_size (some (e, es)) = total_size es + e.size

take_entry-total :
    (key : Bytes) (es : List CacheEntry) (e : CacheEntry) (fs : List CacheEntry)
    → take_entry key es ≡ some (e, fs)
    → total_size es ≡ total_size fs + e.size
unfolding take_entry
take_entry-total key [] e fs h = cc
take_entry-total key (x ∷ es) e fs h =
    if-cases
      (λ (o : Option (CacheEntry × List CacheEntry)).
        o ≡ some (e, fs) → x.size + total_size es ≡ total_size fs + e.size)
      (bytes_eq x.key key) _ _ (λ _ h. here h)
      (λ _ h. later (take_entry key es) refl (take_entry-total key es) h) h
  where
    here :
        ◌≡◌ {A = Option (CacheEntry × List CacheEntry)} (some (x, es)) (some (e, fs))
        → x.size + total_size es ≡ total_size fs + e.size
    here h = omega (arith, ap left_size h)

    later :
        (o : Option (CacheEntry × List CacheEntry))
        → take_entry key es ≡ o
        → ((f : CacheEntry) (gs : List CacheEntry)
            → take_entry key es ≡ some (f, gs)
            → total_size es ≡ total_size gs + f.size)
        → ◌≡◌ {A = Option (CacheEntry × List CacheEntry)}
            (elim o [ none ↦ none | some (f, gs) ↦ some (f, x ∷ gs) ])
            (some (e, fs))
        → x.size + total_size es ≡ total_size fs + e.size
    later none q ih h = cc
    later (some (f, gs)) q ih h = omega (arith, ap left_size h, ih f gs q)

pub touch_locked-Counted :
    (now : ℕ) (key : Bytes) (c : DiskCache) → Counted c → Counted (touch_locked now key c)
unfolding touch_locked
touch_locked-Counted now key c h = go (take_entry key c.order) refl
  where
    go :
        (o : Option (CacheEntry × List CacheEntry))
        → take_entry key c.order ≡ o
        → Counted (elim o as (λ _. DiskCache) [
          | none ↦ c
          | some (e, es) ↦ record c { order = es ++ record e { last_access = now } ∷ [] }
        ])
    go none q = h
    go (some (e, es)) q = omega (
      arith,
      h,
      take_entry-total key c.order e es q,
      total_size-append es (record e { last_access = now } ∷ []),
    )

abbrev entry_of : ℕ → Bytes → ℕ → CacheEntry
entry_of now key size = record { key = key; size = size; last_access = now }

pub record_entry-Counted :
    (now : ℕ) (key : Bytes) (size : ℕ) (c : DiskCache)
    → Counted c
    → Counted (record_entry now key size c)
record_entry-Counted now key size c h =
    omega (arith, h, total_size-append c.order (entry_of now key size ∷ []))

pub scan_existing-Counted :
    (es : List DirEntry) (c : DiskCache) → Counted c → Counted (scan_existing es c)
unfolding scan_existing
scan_existing-Counted [] c h = h
scan_existing-Counted (e ∷ es) c h =
    scan_existing-Counted es _ (if-cases Counted e.is_dir _ _ (λ _. h) (λ _. found e.info))
  where
    found :
        (o : Option (ℕ × ℕ))
        → Counted (elim o as (λ _. DiskCache) [
          | none ↦ c
          | some (size, mod_time) ↦ record c {
            order = c.order ++ record { key = e.name; size = size; last_access = mod_time } ∷ [];
            current_size = c.current_size + size;
          }
        ])
    found none = h
    found (some (size, mod_time)) = record_entry-Counted mod_time e.name size c h
