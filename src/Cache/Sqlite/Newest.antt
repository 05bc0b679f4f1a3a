-- ===== src/Cache/Sqlite/Newest.antt =====
-- When the eviction of `SqliteCache::store` in src/cache.rs spares the row that was just written.
use mathlib.Core.List.Permᴰ
use http_cache.Cache.World.{Row, World}
use http_cache.Body.{Bytes}
use http_cache.Errors.{ok}
use http_cache.Cache.{CacheStoreRequest}
use http_cache.Cache.Sqlite.{Json, store, to_row}
use http_cache.Cache.Sqlite.Stays.{store-IsHeld}
use http_cache.Cache.Table.{select_key}
use http_cache.Cache.Sqlite.{Order, SqliteCache, Ascending}
use http_cache.Cache.Sqlite.Stays.{Spares, Stays}
use http_cache.Cache.Table.{upsert}
use http_cache.Cache.Table.Keys.{IsFresh, HasUniqueKeys, upsert-HasUniqueKeys}
use http_cache.Cache.Table.Eviction.{Permᴰ-All, Permᴰ-length, Permᴰ-HasUniqueKeys}
use http_cache.Prelude.Int.{◌<ℤ◌}
use http_cache.Prelude.{
  ◌≡◌, ◌≢◌, ◌∙◌, sym, subst, Str, List, [], ◌∷◌, All, ◌⊎◌, inl, inr, arith, refl, take, length, ◌-◌,
  ◌<◌, ℕ, zero, suc, true, false, some, str_eq, str_eq_sound, Bool-cases, ltb,
}

upsert_positive : (row : Row) (rows : List Row) → 0 < length (upsert row rows)
unfolding upsert
upsert_positive row [] = omega arith
upsert_positive row (r ∷ rows) = ground arith

module _ (row : Row) (path : Str) where
  -- Under another key, used earlier than the row, and not naming the file.
  abbrev pub IsEarlier : Row → Type 0
  IsEarlier r =
      (str_eq r.key row.key ≡ false)
      × (r.last_access <ℤ row.last_access)
      × (r.body_path ≢ some path)

  -- Every row but that of the same key is earlier.
  abbrev pub IsNewest : List Row → Type 0
  IsNewest = All (λ r. (str_eq r.key row.key ≡ true) ⊎ IsEarlier r)

  abbrev IsNewOrEarlier : Row → Type 0
  IsNewOrEarlier r = ((r.key ≡ row.key) × (r.last_access ≡ row.last_access)) ⊎ IsEarlier r

  others-IsEarlier :
      (rows : List Row) → IsFresh row.key rows → IsNewest rows → All IsNewOrEarlier rows
  others-IsEarlier [] f h = tt
  others-IsEarlier (r ∷ rows) f h = elim h.0 [
    | inl same ↦ absurd (f.0 (str_eq_sound r.key row.key same))
    | inr earlier ↦ (inr earlier, others-IsEarlier rows f.1 h.1)
  ]

  upsert-IsNewOrEarlier :
      (rows : List Row) → HasUniqueKeys rows → IsNewest rows → All IsNewOrEarlier (upsert row rows)
  unfolding upsert
  upsert-IsNewOrEarlier [] u h = (inl (refl, refl), tt)
  upsert-IsNewOrEarlier (r ∷ rows) u h = elim (Bool-cases (str_eq r.key row.key)) [
    | inl same ↦
        let e : r.key ≡ row.key = str_eq_sound r.key row.key same in
        rw same (inl (e, refl), others-IsEarlier rows (subst (λ k. IsFresh k rows) e u.0) h.1)
    | inr apart ↦ rw apart (elim h.0 [
      | inl same ↦ cc
      | inr earlier ↦ (inr earlier, upsert-IsNewOrEarlier rows u.1 h.1)
    ])
  ]

  -- The last of the rows in order is not among the first.
  first-Spares :
      (n : ℕ) (sorted : List Row)
      → n < length sorted
      → Ascending sorted
      → HasUniqueKeys sorted
      → All IsNewOrEarlier sorted
      → All (Spares row.key path) (take n sorted)
  first-Spares zero sorted less a u h = tt
  first-Spares (suc n) [] less a u h = tt
  first-Spares (suc n) (r ∷ []) less a u h = absurd (omega arith)
  first-Spares (suc n) (r ∷ s ∷ rest) less a u h = elim h.0 [
    | inr earlier ↦ ((earlier.0, earlier.2), first-Spares n (s ∷ rest) (omega arith) a.1 u.1 h.1)
    | inl new ↦ elim h.1.0 [
      | inl new_too ↦ absurd (u.0.0 (new_too.0 ∙ sym new.0))
      | inr earlier ↦
          let before : s.last_access <ℤ r.last_access = rw new.1 earlier.1 in
          let above = a.0.0 in absurd (omega arith)
    ]
  ]

  -- What a store evicts is never the row that it has written, if no other row was used as late, nor
  -- the file of that row, if no other row names it.
  pub IsNewest-Stays :
      (order : Order) (cache : SqliteCache) (rows : List Row)
      → HasUniqueKeys rows
      → IsNewest rows
      → Stays order cache row path rows
  IsNewest-Stays order cache rows u newest =
      let stored = upsert row rows in
      let sorted = order.by_last_access stored in
      let same = order.permutes stored in
      let counted = Permᴰ-length same in
      let some_row = upsert_positive row rows in
      elim (Bool-cases (ltb 0 cache.max_entries)) [
        | inr unlimited ↦ rw unlimited tt
        | inl limited ↦
            let positive : 0 < cache.max_entries = ground arith in
            rw limited (
              first-Spares (length stored - cache.max_entries) sorted (omega arith)
                (order.ascends stored)
                (Permᴰ-HasUniqueKeys (Permᴰ.symm same) (upsert-HasUniqueKeys row rows u))
                (Permᴰ-All IsNewOrEarlier (Permᴰ.symm same) (upsert-IsNewOrEarlier rows u newest)))
      ]

-- A store that succeeds has kept what it stored. Whatever the limit, and whichever of the calls of
-- its eviction fail: if `store` reports success, the key selects the new row, and a file that no row
-- of another key names still has its content. The keys were unique before, and every row of another
-- key was used earlier than the new one.
pub store-Keeps :
    (json : Json) (order : Order) (cache : SqliteCache) (request : CacheStoreRequest) (path : Str)
    (bytes : Bytes) (w : World)
    → HasUniqueKeys w.rows
    → IsNewest (to_row json request) path w.rows
    → w.files path ≡ some bytes
    → let (r, w') = store json order cache request w in
      r ≡ ok tt
      → (select_key request.key w'.rows ≡ some (to_row json request)) × (w'.files path ≡ some bytes)
unfolding to_row
store-Keeps json order cache request path bytes w u newest here =
    store-IsHeld json order cache request path bytes w here
      (IsNewest-Stays (to_row json request) path order cache w.rows u newest)
