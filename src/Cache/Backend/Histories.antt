-- ===== src/Cache/Backend/Histories.antt =====
-- Whole histories of cache operations of src/cache.rs, from the start of the program.
use http_cache.Prelude.Int.{ℤ}
use http_cache.Prelude.{◌≡◌, Option, Str, List, [], ◌∷◌, arith, All}
use http_cache.Config.{CacheConfig}
use http_cache.Errors.{ok}
use http_cache.Cache.{CacheStoreRequest, Clock}
use http_cache.Cache.World.{sql, attempt, World, Row}
use http_cache.Cache.Sqlite.{Json, Order, to_row}
use http_cache.Cache.Sqlite.Rows.{get_keeps, store_keeps, delete_keeps}
use http_cache.Cache.Table.{delete_key, touch_key, upsert}
use http_cache.Cache.Table.Keys.{
  HasUniqueKeys, upsert-HasUniqueKeys, delete_key-HasUniqueKeys, touch_key-HasUniqueKeys,
}
use http_cache.Cache.Backend.{Cache, noop_cache, sqlite_cache, build_cache, get, store, delete}

-- One call on the cache. `fails` means that calls of the libraries fail from then on as listed.
pub data Call : Type 0 where
  gets : Clock → Str → Str → Call
  stores : CacheStoreRequest → Call
  deletes : Str → Call
  fails : List (Option Str) → Call

module _ (json : Json) (order : Order) (cache : Cache) where
  unfoldable pub step : Call → World → World
  step (gets clock method url) w = (get json order cache clock method url w).1
  step (stores entry) w = (store json order cache entry w).1
  step (deletes key) w = (delete json order cache key w).1
  step (fails faults) w = record w { faults = faults }

  unfoldable pub run : List Call → World → World
  run [] w = w
  run (c ∷ calls) w = run calls (step c w)

module _ (P : List Row → Type 0)
    (deletes_keep : (key : Str) (rows : List Row) → P rows → P (delete_key key rows))
    (touches_keep : (now : ℤ) (key : Str) (rows : List Row) → P rows → P (touch_key now key rows))
    (json : Json) (order : Order) where
  -- What a call must be, for its statements to keep what holds of the rows.
  abbrev pub Keeps : Call → Type 0
  Keeps (stores entry) = (rows : List Row) → P rows → P (upsert (to_row json entry) rows)
  Keeps _ = Unit

  step_keeps :
      (cache : Cache) (c : Call) (w : World)
      → Keeps c
      → P w.rows
      → P (step json order cache c w).rows
  unfolding step get store delete
  step_keeps noop_cache (gets clock method url) w k p = p
  step_keeps noop_cache (stores entry) w k p = p
  step_keeps noop_cache (deletes key) w k p = p
  step_keeps cache (fails faults) w k p = p
  step_keeps (sqlite_cache c) (gets clock method url) w k p =
      get_keeps P deletes_keep touches_keep json clock method url w p
  step_keeps (sqlite_cache c) (stores entry) w k p =
      store_keeps P deletes_keep touches_keep order json c entry k w p
  step_keeps (sqlite_cache c) (deletes key) w k p = delete_keeps P deletes_keep touches_keep key w p

  pub run_keeps :
      (cache : Cache) (calls : List Call) (w : World)
      → All Keeps calls
      → P w.rows
      → P (run json order cache calls w).rows
  unfolding run
  run_keeps cache [] w k p = p
  run_keeps cache (c ∷ calls) w k p = run_keeps cache calls _ k.1 (step_keeps cache c w k.0 p)

unique_kept :
    (json : Json) (order : Order) (calls : List Call)
    → All (Keeps HasUniqueKeys delete_key-HasUniqueKeys touch_key-HasUniqueKeys json order) calls
unique_kept json order [] = tt
unique_kept json order (stores entry ∷ calls) =
    (upsert-HasUniqueKeys (to_row json entry), unique_kept json order calls)
unique_kept json order (gets clock method url ∷ calls) = (tt, unique_kept json order calls)
unique_kept json order (deletes key ∷ calls) = (tt, unique_kept json order calls)
unique_kept json order (fails faults ∷ calls) = (tt, unique_kept json order calls)

pub build_cache-rows : (config : CacheConfig) (w : World) → (build_cache config w).1.rows ≡ w.rows
unfolding build_cache sql attempt
build_cache-rows config w = ground arith

-- Whatever cache `build_cache` makes over a table without rows, and whatever calls follow, with
-- library calls failing at any points, no key is ever in two rows of the table.
pub run-HasUniqueKeys :
    (json : Json) (order : Order) (config : CacheConfig) (w : World) (cache : Cache)
    (calls : List Call)
    → w.rows ≡ []
    → (build_cache config w).0 ≡ ok cache
    → HasUniqueKeys (run json order cache calls (build_cache config w).1).rows
run-HasUniqueKeys json order config w cache calls empty built =
    let no_rows : HasUniqueKeys (build_cache config w).1.rows =
      rw (build_cache-rows config w, empty) tt in
    run_keeps HasUniqueKeys delete_key-HasUniqueKeys touch_key-HasUniqueKeys json order cache calls
      (build_cache config w).1 (unique_kept json order calls) no_rows
