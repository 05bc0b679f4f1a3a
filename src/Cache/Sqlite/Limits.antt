-- ===== src/Cache/Sqlite/Limits.antt =====
-- How `SqliteCache::store` of src/cache.rs keeps the table within `max_entries`.
use mathlib.Core.List.Permᴰ
use mathlib.Core.List.{Permᴰ}
use http_cache.Prelude.{
  lt→ltb, ◌≡◌, refl, sym, ap, subst, Option, Str, List, [], ◌∷◌, ◌++◌, arith, All, ℕ, zero, suc,
  take, drop, length, length-append, ◌-◌, ◌≤◌, ◌<◌,
}
use http_cache.Prelude.Int.{◌≤ℤ◌}
use http_cache.Body.{Bytes}
use http_cache.Errors.{ok}
use http_cache.Cache.{CacheStoreRequest}
use http_cache.Cache.World.{Row}
use http_cache.Cache.Table.{upsert}
use http_cache.Cache.Table.Keys.{HasUniqueKeys, upsert-HasUniqueKeys}
use http_cache.Cache.Table.Eviction.{
  delete_keys, keys_of, delete_keys-drop, Permᴰ-All, Permᴰ-length,
}
use http_cache.Cache.Sqlite.{SqliteCache, Order, Json, Ascending, to_row, store}
use http_cache.Cache.Sqlite.Calm.{calm, all_removed, store-calm}

take-append-drop {ℓ} : {A : Type ℓ} (n : ℕ) (xs : List A) → take n xs ++ drop n xs ≡ xs
take-append-drop zero xs = refl
take-append-drop (suc n) [] = refl
take-append-drop (suc n) (x ∷ xs) = ap (◌∷◌ x) (take-append-drop n xs)

length-drop {ℓ} : {A : Type ℓ} (n : ℕ) (xs : List A) → length (drop n xs) ≡ length xs - n
length-drop zero xs = omega arith
length-drop (suc n) [] = omega arith
length-drop (suc n) (x ∷ xs) = omega (arith, length-drop n xs)

All-drop {ℓ κ} : {A : Type ℓ} (P : A → Type κ) (n : ℕ) (xs : List A) → All P xs → All P (drop n xs)
All-drop P zero xs h = h
All-drop P (suc n) [] h = h
All-drop P (suc n) (x ∷ xs) h = All-drop P n xs h.1

Permᴰ-append_left {ℓ} :
    {A : Type ℓ} (zs : List A) {xs ys : List A} → Permᴰ xs ys → Permᴰ (zs ++ xs) (zs ++ ys)
Permᴰ-append_left [] p = p
Permᴰ-append_left (z ∷ zs) p = Permᴰ.cons refl (Permᴰ-append_left zs p)

-- Every row of `old` was last used no later than every row of `kept`.
abbrev pub NoLater : List Row → List Row → Type 0
NoLater old kept = All (λ v. All (λ r. v.last_access ≤ℤ r.last_access) kept) old

Ascending-split : (n : ℕ) (rows : List Row) → Ascending rows → NoLater (take n rows) (drop n rows)
Ascending-split zero rows a = tt
Ascending-split (suc n) [] a = tt
Ascending-split (suc n) (r ∷ rows) a = (All-drop _ n rows a.0, Ascending-split n rows a.1)

NoLater-Permᴰ :
    (old kept kept' : List Row) → Permᴰ kept kept' → NoLater old kept → NoLater old kept'
NoLater-Permᴰ [] kept kept' p h = tt
NoLater-Permᴰ (v ∷ old) kept kept' p h =
    (Permᴰ-All (λ r. v.last_access ≤ℤ r.last_access) p h.0, NoLater-Permᴰ old kept kept' p h.1)

-- The rows `after` come from `before` by evicting `victims`.
pub record Evicts (max_entries : ℕ) (before after victims : List Row) : Type 0 where
  pub split : Permᴰ (victims ++ after) before
  pub oldest : NoLater victims after
  pub needed : length victims ≡ length before - max_entries
  pub bounded : length after ≤ max_entries

module _ (order : Order) where
  open order use {by_last_access, permutes, ascends}

  evicts :
      (max_entries : ℕ) (rows : List Row)
      → HasUniqueKeys rows
      → let victims = take (length rows - max_entries) (by_last_access rows) in
        Evicts max_entries rows (delete_keys (keys_of victims) rows) victims
  evicts max_entries rows u =
      let n = length rows - max_entries in
      let sorted = by_last_access rows in
      let kept : Permᴰ (drop n sorted) (delete_keys (keys_of (take n sorted)) rows) =
        delete_keys-drop n sorted rows (permutes rows) u in
      let whole = ap length (take-append-drop n sorted) in
      let parts = length-append (take n sorted) (drop n sorted) in
      let all_rows = Permᴰ-length (permutes rows) in
      let rest = length-drop n sorted in
      let left = Permᴰ-length kept in
      record {
        split =
            Permᴰ.trans (Permᴰ-append_left (take n sorted) (Permᴰ.symm kept))
              (subst (λ l. Permᴰ l rows) (sym (take-append-drop n sorted)) (permutes rows));
        oldest = NoLater-Permᴰ (take n sorted) _ _ kept (Ascending-split n sorted (ascends rows));
        needed = omega arith;
        bounded = omega arith;
      }

  -- With a limit, unique keys and no failing call, `store` succeeds and leaves the rows with the
  -- new one written in, less exactly as many victims as exceed the limit, none used later than any
  -- row that stays, so that at most `max_entries` rows stay; the victims' body files are removed
  -- and no others.
  pub store-Evicts :
      (json : Json) (cache : SqliteCache) (entry : CacheStoreRequest) (rows : List Row)
      (files : Str → Option Bytes)
      → 0 < cache.max_entries
      → HasUniqueKeys rows
      → (after victims : List Row) × (store json order cache entry (calm rows files)
          ≡ (ok tt, calm after (all_removed victims files)))
        × Evicts cache.max_entries (upsert (to_row json entry) rows) after victims
  store-Evicts json cache entry rows files positive u =
      let stored = upsert (to_row json entry) rows in
      let victims = take (length stored - cache.max_entries) (by_last_access stored) in
      (
        delete_keys (keys_of victims) stored,
        victims,
        rw (store-calm order json cache entry rows files, lt→ltb _ _ positive),
        evicts cache.max_entries stored (upsert-HasUniqueKeys (to_row json entry) rows u),
      )
