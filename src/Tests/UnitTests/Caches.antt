-- ===== src/Tests/UnitTests/Caches.antt =====
-- The unit tests of src/cache.rs, at the time 1000.
use http_cache.Body.{Bytes}
use http_cache.Cache.{CacheEntry, CacheStoreRequest, Clock, cache_key, now_unix}
use http_cache.Cache.Backend.{new, cache_objects_dir, join_path}
use http_cache.Cache.Control.{parse_cache_control}
use http_cache.Cache.Sqlite.{
  SqliteCache, to_row, to_entry, get, store, delete, select_entry, answer, enforce_limit, evict,
  evict_all, delete_file, fetch,
}
use http_cache.Cache.Sqlite.Calm.{calm}
use http_cache.Cache.Table.{select_key, upsert, delete_key, touch_key}
use http_cache.Cache.World.{World, sql, join, attempt, execute, query, exists, remove_file}
use http_cache.Config.{CacheConfig, default_caching}
use http_cache.Errors.{Result, ok}
use http_cache.Prelude.Decimal.{parse_u64}
use http_cache.Prelude.Int.{ℤ, pos}
use http_cache.Tests.Fixtures.{order, sort_rows, insert_row}
use http_cache.Tests.Headers.{json, print, read}
use http_cache.Prelude.{
  ◌≡◌, refl, [], ◌∷◌, ◌++◌, none, some, true, false, codes, str_eq, trim, split, is_some,
  eq_ignore_ascii_case, strip_prefix, to_ascii_lowercase, if◌then◌else◌, length, List, Option, Str,
  ℕ,
}

program : Unit {0}
unfolding get store delete select_entry select_key upsert delete_key touch_key sql join attempt
    execute query exists remove_file cache_key now_unix str_eq to_row to_entry answer print read
    sort_rows insert_row enforce_limit evict evict_all delete_file fetch new cache_objects_dir
program = tt

abbrev CacheControlParsing : Type 0
CacheControlParsing =
    let control = parse_cache_control (codes "max-age=60, no-cache") in
    (control.max_age ≡ some 60) × (control.no_cache ≡ true) × (control.no_store ≡ false)

cache_control_parsing : CacheControlParsing
unfolding parse_cache_control trim split eq_ignore_ascii_case strip_prefix to_ascii_lowercase str_eq
    parse_u64
cache_control_parsing = (refl, refl, refl)

-- After `clear_cache_dir`.
abbrev nothing : World
nothing = calm [] (λ path. none)

abbrev now : Clock
now = some 1000

abbrev enabled : ℕ → CacheConfig
enabled max_entries = record default_caching { enabled = true; max_entries = max_entries }

-- `cache_objects_dir(cache.cache_dir()).join(file)`
abbrev object : SqliteCache → Str → Str
object cache file = join_path (cache_objects_dir cache.dir) file

-- `tokio::fs::write`
abbrev write_file : Str → Bytes → World → World
write_file path bytes w = record w { files = λ p. if str_eq p path then some bytes else w.files p }

abbrev entry : Str → List (Str × Str) → Option Str → ℕ → ℤ → ℤ → CacheStoreRequest
entry file headers body_path body_size created_at expires_at = record {
  key = codes "GET http://example.com/" ++ file;
  method = codes "GET";
  url = codes "http://example.com/" ++ file;
  status = 200;
  headers = headers;
  body_path = body_path;
  body_size = body_size;
  created_at = created_at;
  expires_at = expires_at;
}

abbrev look_up_file : Str → World → Result (Option CacheEntry) × World
look_up_file file = get json now (codes "GET") (codes "http://example.com/" ++ file)

abbrev RoundTripsMetadataAndDeletesBodyFile : SqliteCache → World → Type 0
RoundTripsMetadataAndDeletesBodyFile cache w =
    let body_path = object cache (codes "roundtrip-body") in
    let text = (codes "content-type", codes "text/plain") ∷ [] in
    let request = entry (codes "asset") text (some body_path) 11 (pos 1000) (pos 1060) in
    let (stored, w₁) =
      store json order cache request (write_file body_path (codes "hello-cache") w) in
    let (found, w₂) = look_up_file (codes "asset") w₁ in
    (stored ≡ ok tt)
    × (loaded : CacheEntry) × (found ≡ ok (some loaded))
    × (loaded.status ≡ 200)
    × (loaded.body_size ≡ 11)
    × (length loaded.headers ≡ 1)
    × (let (deleted, w₃) = delete loaded.key w₂ in
        let (again, w₄) = look_up_file (codes "asset") w₃ in
        (deleted ≡ ok tt) × (again ≡ ok none) × (w₄.files body_path ≡ none))

abbrev RemovesExpiredEntriesOnLookup : SqliteCache → World → Type 0
RemovesExpiredEntriesOnLookup cache w =
    let request = entry (codes "expired") [] none 0 (pos 990) (pos 999) in
    let (stored, w₁) = store json order cache request w in
    (stored ≡ ok tt) × ((look_up_file (codes "expired") w₁).0 ≡ ok none)

abbrev EvictionRemovesOldestEntryAndItsFile : SqliteCache → World → Type 0
EvictionRemovesOldestEntryAndItsFile cache w =
    let old_body = object cache (codes "old-body") in
    let new_body = object cache (codes "new-body") in
    let written = write_file new_body (codes "new") (write_file old_body (codes "old") w) in
    let old = entry (codes "old") [] (some old_body) 3 (pos 995) (pos 1060) in
    let fresh = entry (codes "new") [] (some new_body) 3 (pos 1000) (pos 1060) in
    let (stored_old, w₁) = store json order cache old written in
    let (stored_new, w₂) = store json order cache fresh w₁ in
    let (found_old, w₃) = look_up_file (codes "old") w₂ in
    let (found_new, w₄) = look_up_file (codes "new") w₃ in
    (stored_old ≡ ok tt)
    × (stored_new ≡ ok tt)
    × (found_old ≡ ok none)
    × ((e : CacheEntry) × (found_new ≡ ok (some e)))
    × (w₄.files old_body ≡ none)
    × (is_some (w₄.files new_body) ≡ true)

abbrev InvalidatesDanglingBodyPath : SqliteCache → World → Type 0
InvalidatesDanglingBodyPath cache w =
    let missing_body = object cache (codes "missing-body") in
    let request = entry (codes "missing") [] (some missing_body) 10 (pos 1000) (pos 1060) in
    let (stored, w₁) = store json order cache request w in
    (stored ≡ ok tt) × ((look_up_file (codes "missing") w₁).0 ≡ ok none)

-- A test that is run on a cache that `SqliteCache::new` has opened.
abbrev OnCache : CacheConfig → (SqliteCache → World → Type 0) → Type 0
OnCache config Test =
    (cache : SqliteCache) × (w : World) × (new config nothing ≡ (ok cache, w)) × Test cache w

sqlite_cache_round_trips : OnCache (enabled 1024) RoundTripsMetadataAndDeletesBodyFile
unfolding program
sqlite_cache_round_trips = (_, _, refl, (refl, _, refl, refl, refl, refl, (refl, refl, refl)))

sqlite_cache_removes_expired_entries : OnCache (enabled 1024) RemovesExpiredEntriesOnLookup
unfolding program
sqlite_cache_removes_expired_entries = (_, _, refl, (refl, refl))

sqlite_cache_eviction_removes_oldest : OnCache (enabled 1) EvictionRemovesOldestEntryAndItsFile
unfolding program
sqlite_cache_eviction_removes_oldest = (_, _, refl, (refl, refl, refl, (_, refl), refl, refl))

sqlite_cache_invalidates_dangling : OnCache (enabled 1024) InvalidatesDanglingBodyPath
unfolding program
sqlite_cache_invalidates_dangling = (_, _, refl, (refl, refl))
