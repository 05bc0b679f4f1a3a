-- ===== src/Cache/Backend.antt =====
-- src/cache.rs: the `Cache` trait as a choice between its two implementations, `NoopCache` and
-- `SqliteCache`, and how `build_cache` makes one.
pub mod Histories
pub mod Provenance
use http_cache.Prelude.{Option, none, Str, codes, ◌++◌, Bool, true, false, if◌then◌else◌}
use http_cache.Config.{CacheConfig}
use http_cache.Errors.{io}
use http_cache.Cache.{CacheEntry, CacheStoreRequest, Clock}
use http_cache.Cache.World.{M, return, attempt, sql, ◌>>=◌, ◌>>◌}
use http_cache.Cache.Sqlite.{SqliteCache, Json, Order}
use http_cache.Cache.Sqlite

pub data Cache : Type 0 where
  noop_cache : Cache
  sqlite_cache : SqliteCache → Cache

-- `name`, `is_enabled` and `cache_dir`
unfoldable pub name : Cache → Str
name noop_cache = codes "noop"
name (sqlite_cache c) = codes "sqlite"

unfoldable pub is_enabled : Cache → Bool
is_enabled noop_cache = false
is_enabled (sqlite_cache c) = true

unfoldable pub cache_dir : Cache → Str
cache_dir noop_cache = codes "."
cache_dir (sqlite_cache c) = c.dir

-- `base.join(name)`, for a base that does not end in a slash and a relative name.
abbrev pub join_path : Str → Str → Str
join_path base file = base ++ (codes "/" ++ file)

-- `cache_objects_dir`
unfoldable pub cache_objects_dir : Str → Str
cache_objects_dir dir = join_path dir (codes "objects")

-- `init_db`: both statements leave a table that is there as it is.
unfoldable pub init_db : M (Unit {0})
init_db = do sql; sql; sql

-- `SqliteCache::new`
unfoldable pub new : CacheConfig → M SqliteCache
unfolding init_db
new config = do
  attempt io
  init_db
  return (record {
    dir = codes ".cache";
    db_path = join_path (codes ".cache") (codes "cache.sqlite");
    max_entries = config.max_entries;
  })

unfoldable pub build_cache : CacheConfig → M Cache
unfolding new
build_cache config =
    if config.enabled then (do c ← new config; return (sqlite_cache c)) else return noop_cache

module _ (json : Json) (order : Order) where
  unfoldable pub get : Cache → Clock → Str → Str → M (Option CacheEntry)
  get noop_cache clock method url = return none
  get (sqlite_cache c) clock method url = Sqlite.get json clock method url

  unfoldable pub store : Cache → CacheStoreRequest → M (Unit {0})
  store noop_cache entry = return tt
  store (sqlite_cache c) entry = Sqlite.store json order c entry

  unfoldable pub delete : Cache → Str → M (Unit {0})
  delete noop_cache key = return tt
  delete (sqlite_cache c) key = Sqlite.delete key
