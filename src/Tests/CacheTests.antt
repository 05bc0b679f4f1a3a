-- ===== src/Tests/CacheTests.antt =====
-- Inputs for the theorems on src/cache.rs.
use http_cache.Prelude.{◌≡◌, refl, inl, List, [], ◌∷◌, none, some, true, codes, str_eq, arith, inr}
use http_cache.Prelude.Int.{pos}
use http_cache.Config.{CacheConfig, default_caching}
use http_cache.Errors.{ok}
use http_cache.Cache.{CacheStoreRequest, cache_key, now_unix}
use http_cache.Cache.World.{World, Row, sql, join, attempt, execute, query, exists, remove_file}
use http_cache.Cache.Table.{select_key, upsert, delete_key, touch_key}
use http_cache.Cache.Table.Keys.{HasUniqueKeys}
use http_cache.Cache.Sqlite.{
  SqliteCache, to_row, to_entry, get, store, delete, select_entry, answer,
}
use http_cache.Cache.Sqlite.Calm.{calm, all_removed}
use http_cache.Cache.Sqlite.Newest.{store-Keeps}
use http_cache.Cache.Sqlite.Hits.{IsHit, get-IsHit}
use http_cache.Cache.Sqlite.Limits.{Evicts, store-Evicts}
use http_cache.Cache.Sqlite.Lookups.{entry_of, get-store}
use http_cache.Cache.Backend.{Cache, sqlite_cache, build_cache}
use http_cache.Cache.Backend.Histories.{Call, gets, stores, deletes, fails, run, run-HasUniqueKeys}
use http_cache.Cache.Control.{parse_cache_control}
use http_cache.Cache.Control.Directives.{Directives, parse_cache_control-Directives}
use http_cache.Tests.Headers.{json, print, read}
use http_cache.Tests.Fixtures.{order, sort_rows, asset, full_disk}

program : Unit {0}
unfolding get store delete select_entry select_key upsert delete_key touch_key sql join attempt
    execute query exists remove_file cache_key now_unix str_eq to_row to_entry answer print read
    sort_rows
program = tt

parse_cache_control-Directives_example :
    Directives (codes "max-age=60, no-cache") (parse_cache_control (codes "max-age=60, no-cache"))
parse_cache_control-Directives_example =
    parse_cache_control-Directives (codes "max-age=60, no-cache")

abbrev pub request : CacheStoreRequest
request = record {
  key = codes "GET http://example.com/asset";
  method = codes "GET";
  url = codes "http://example.com/asset";
  status = 200;
  headers = (codes "content-type", codes "text/plain") ∷ [];
  body_path = some (codes ".cache/objects/roundtrip-body");
  body_size = 11;
  created_at = pos 1000;
  expires_at = pos 1060;
}

abbrev pub unlimited : SqliteCache
unlimited = record { dir = codes ".cache"; db_path = codes ".cache/cache.sqlite"; max_entries = 0 }

abbrev pub one_entry : SqliteCache
one_entry = record unlimited { max_entries = 1 }

abbrev pub old : Row
old = asset (codes "old") 995 1060

get-store_example :
    let (stored, w) = store json order unlimited request (calm (old ∷ []) full_disk) in
    (stored ≡ ok tt)
    × ((get json (some 1001) (codes "GET") (codes "http://example.com/asset") w).0
        ≡ ok (some (entry_of request (now_unix (some 1001)))))
unfolding cache_key now_unix
get-store_example =
    get-store json order unlimited request (some 1001) (codes "GET")
      (codes "http://example.com/asset") (print request.headers) (old ∷ []) full_disk refl refl
      (omega arith) (omega arith) refl (inl refl)

store-Evicts_example :
    (after victims : List Row) × (store json order one_entry request (calm (old ∷ []) full_disk)
      ≡ (ok tt, calm after (all_removed victims full_disk)))
    × Evicts 1 (upsert (to_row json request) (old ∷ [])) after victims
store-Evicts_example =
    store-Evicts order json one_entry request (old ∷ []) full_disk (omega arith) (tt, tt)

-- `sqlite_cache_eviction_removes_oldest_entry_and_its_file`
evicted :
    (store json order one_entry request (calm (old ∷ []) full_disk)).1.rows
    ≡ to_row json request ∷ []
unfolding program
evicted = refl

hit_world : World
unfolding program
hit_world =
    (get json (some 1001) (codes "GET") (codes "http://example.com/old")
      (calm (old ∷ []) full_disk)).1

get-IsHit_example :
    (r : Row) × (select_key (cache_key (codes "GET") (codes "http://example.com/old")) (old ∷ [])
      ≡ some r)
    × IsHit
        (now_unix (some 1001))
        (to_entry json r)
        (record (to_entry json old) { last_access = pos 1001 })
        (calm (old ∷ []) full_disk)
        hit_world
unfolding program hit_world
get-IsHit_example =
    get-IsHit json (some 1001) (codes "GET") (codes "http://example.com/old")
      (calm (old ∷ []) full_disk) hit_world (record (to_entry json old) { last_access = pos 1001 })
      refl

abbrev pub on : CacheConfig
on = record default_caching { enabled = true }

abbrev history : List Call
history =
    stores request
    ∷ fails (none ∷ some (codes "disk I/O error") ∷ [])
    ∷ stores request
    ∷ gets (some 1001) (codes "GET") (codes "http://example.com/asset")
    ∷ deletes request.key
    ∷ []

abbrev pub built : Cache
built =
    sqlite_cache
      (record { dir = codes ".cache"; db_path = codes ".cache/cache.sqlite"; max_entries = 1024 })

run-HasUniqueKeys_example :
    HasUniqueKeys (run json order built history (build_cache on (calm [] full_disk)).1).rows
unfolding build_cache sql attempt
run-HasUniqueKeys_example =
    run-HasUniqueKeys json order on (calm [] full_disk) built history refl refl

-- The removal of the evicted row's file fails, which the store passes over.
abbrev unremovable : World
unremovable = record (calm (old ∷ []) full_disk) {
  faults =
      none ∷ none ∷ none ∷ none ∷ none ∷ none ∷ none ∷ none ∷ some (codes "permission denied") ∷ [];
}

is_stored : (store json order one_entry request unremovable).0 ≡ ok tt
unfolding program
is_stored = refl

store-Keeps_example :
    let w = (store json order one_entry request unremovable).1 in
    (select_key request.key w.rows ≡ some (to_row json request))
    × (w.files (codes ".cache/objects/roundtrip-body") ≡ some (codes "hello-cache"))
unfolding to_row str_eq
store-Keeps_example =
    store-Keeps json order one_entry request (codes ".cache/objects/roundtrip-body")
      (codes "hello-cache") unremovable (tt, tt) (inr (refl, omega arith, λ h. cc), tt) refl
      is_stored
