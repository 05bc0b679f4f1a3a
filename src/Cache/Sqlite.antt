-- ===== src/Cache/Sqlite.antt =====
-- src/cache.rs: `SqliteCache`, with each call of rusqlite, tokio and the file system at its place.
pub mod Rows
pub mod Files
pub mod Stays
pub mod Newest
pub mod Hits
pub mod Calm
pub mod Limits
pub mod Lookups
use mathlib.Core.Option
use mathlib.Core.Option.{get_or}
use mathlib.Core.List.{Permᴰ}
use http_cache.Prelude.{
  All, ℕ, ◌-◌, List, [], ◌∷◌, Option, none, some, ltb, length, take, is_some, not, if◌then◌else◌,
  Str, codes, ◌≡◌, Bool, false,
}
use http_cache.Prelude.Int.{ℤ, leb_ℤ, ◌≤ℤ◌}
use http_cache.Prelude.Words.{as_i64, as_u64}
use http_cache.Cache.{CacheEntry, CacheStoreRequest, Clock, cache_key, now_unix}
use http_cache.Cache.World.{
  Row, World, M, ◌>>=◌, ◌>>◌, return, sql, join, remove_file, query, exists, execute,
}
use http_cache.Cache.Table.{select_key, upsert, delete_key, touch_key}

-- Rows in the order of their last access.
abbrev pub Ascending : List Row → Type 0
Ascending [] = Unit
Ascending (r ∷ rows) = All (λ s. r.last_access ≤ℤ s.last_access) rows × Ascending rows

pub record SqliteCache : Type 0 where
  pub dir : Str
  pub db_path : Str
  pub max_entries : ℕ  -- usize

-- serde_json on header lists: printing may fail, and what it prints can be read back.
pub record Json : Type 0 where
  pub to_json : List (Str × Str) → Option Str
  pub from_json : Str → Option (List (Str × Str))
  pub from_json-to_json :
      (headers : List (Str × Str)) (text : Str)
      → to_json headers ≡ some text
      → from_json text ≡ some headers

-- SQLite's `ORDER BY last_access ASC`, which leaves the order of equal times open.
pub record Order : Type 0 where
  pub by_last_access : List Row → List Row
  pub permutes : (rows : List Row) → Permᴰ (by_last_access rows) rows
  pub ascends : (rows : List Row) → Ascending (by_last_access rows)

-- `delete`
unfoldable pub delete_file : Option Str → M (Unit {0})
unfolding remove_file
delete_file none = return tt
delete_file (some path) = remove_file path

abbrev pub body_path_of : Option Row → Option Str
body_path_of none = none
body_path_of (some r) = r.body_path

unfoldable pub delete : Str → M (Unit {0})
unfolding delete_file query execute select_key delete_key sql join
delete key = do
  sql
  found ← query (select_key key)
  execute (delete_key key)
  delete_file (body_path_of found)
  join

unfoldable pub is_dangling : Option Str → M Bool
unfolding exists
is_dangling none = return false
is_dangling (some path) = do present ← exists path; return (not present)

unfoldable pub touch : ℤ → Str → M (Unit {0})
unfolding execute touch_key sql join
touch now key = do sql; execute (touch_key now key); join

-- The two ways out of a lookup that found a row.
unfoldable pub discard : CacheEntry → M (Option CacheEntry)
unfolding delete
discard entry = do delete entry.key; return none

unfoldable pub hit : ℤ → CacheEntry → M (Option CacheEntry)
unfolding touch
hit now entry = do touch now entry.key; return (some (record entry { last_access = now }))

unfoldable pub answer : ℤ → Option CacheEntry → M (Option CacheEntry)
unfolding is_dangling hit discard
answer now none = return none
answer now (some entry) =
    if leb_ℤ entry.expires_at now
    then discard entry
    else (do gone ← is_dangling entry.body_path; (if gone then discard entry else hit now entry))

-- `rows.next()?` over the rows of the result, and once more for its end.
unfoldable pub fetch : List Row → M (List (Str × Option Str))
unfolding sql
fetch [] = do sql; return []
fetch (r ∷ rows) = do sql; rest ← fetch rows; return ((r.key, r.body_path) ∷ rest)

unfoldable pub evict_all : List (Str × Option Str) → M (Unit {0})
unfolding execute delete_key delete_file
evict_all [] = return tt
evict_all ((key, body_path) ∷ victims) = do
  execute (delete_key key)
  delete_file body_path
  evict_all victims

module _ (order : Order) where
  open order use {by_last_access}

  unfoldable pub evict : ℕ → M (Unit {0})
  unfolding query fetch evict_all sql
  evict overflow = do
    sql
    found ← query (λ rows. take overflow (by_last_access rows))
    victims ← fetch found
    evict_all victims

  unfoldable pub enforce_limit : ℕ → M (Unit {0})
  unfolding query evict
  enforce_limit max_entries =
      if ltb 0 max_entries
      then (do
        count ← query length
        if ltb max_entries count then evict (count - max_entries) else return tt)
      else return tt

module _ (json : Json) where
  -- `serde_json::to_string(..).unwrap_or_else(|_| "[]".into())`, and `from_str(..).unwrap_or_default()`
  abbrev pub headers_text : List (Str × Str) → Str
  headers_text headers = get_or (json.to_json headers) (codes "[]")

  abbrev pub text_headers : Str → List (Str × Str)
  text_headers text = get_or (json.from_json text) []

  unfoldable pub to_entry : Row → CacheEntry
  to_entry r = record {
    key = r.key;
    method = r.method;
    url = r.url;
    status = r.status;
    headers = text_headers r.headers;
    body_path = r.body_path;
    body_size = as_u64 r.body_size;
    created_at = r.created_at;
    expires_at = r.expires_at;
    last_access = r.last_access;
  }

  unfoldable pub to_row : CacheStoreRequest → Row
  to_row entry = record {
    key = entry.key;
    method = entry.method;
    url = entry.url;
    status = entry.status;
    headers = headers_text entry.headers;
    body_path = entry.body_path;
    body_size = as_i64 entry.body_size;
    created_at = entry.created_at;
    expires_at = entry.expires_at;
    last_access = entry.created_at;
  }

  -- The three parts of `get`.
  unfoldable pub select_entry : Str → M (Option CacheEntry)
  unfolding query select_key sql join to_entry
  select_entry key = do
    sql
    sql
    row ← query (select_key key)
    join
    return (Option.map to_entry row)

  unfoldable pub get : Clock → Str → Str → M (Option CacheEntry)
  unfolding select_entry answer cache_key now_unix
  get clock method url = do
    entry ← select_entry (cache_key method url)
    answer (now_unix clock) entry

  unfoldable pub store : Order → SqliteCache → CacheStoreRequest → M (Unit {0})
  unfolding execute upsert to_row enforce_limit sql join
  store order cache entry = do
    sql
    execute (upsert (to_row entry))
    enforce_limit order cache.max_entries
    join
