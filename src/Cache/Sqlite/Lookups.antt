-- ===== src/Cache/Sqlite/Lookups.antt =====
-- What `SqliteCache` of src/cache.rs gives back: a lookup after `store`, after `delete`, and of
-- entries that have expired or lost their body file.
use http_cache.Prelude.{
  ◌≡◌, refl, ◌∙◌, Option, none, some, false, Str, List, [], arith, inl, inr, ◌⊎◌, ℕ, length, ◌-◌,
  ◌≤◌, ◌<◌, str_eq, str_eq_refl,
}
use http_cache.Prelude.Int.{ℤ, ◌≤ℤ◌, ◌<ℤ◌}
use http_cache.Prelude.Words.{u64_mod, as_u64-as_i64}
use http_cache.Body.{Bytes}
use http_cache.Errors.{ok}
use http_cache.Cache.{CacheEntry, CacheStoreRequest, Clock, cache_key, now_unix}
use http_cache.Cache.World.{Row}
use http_cache.Cache.Table.{upsert, select_key, delete_key, touch_key}
use http_cache.Cache.Table.Lookup.{select_key-key, select_key-upsert, select_key-delete_key}
use http_cache.Cache.Table.Eviction.{delete_keys}
use http_cache.Cache.Sqlite.{
  SqliteCache, Order, Json, to_row, to_entry, store, get, answer, discard, is_dangling, delete,
  body_path_of,
}
use http_cache.Cache.Sqlite.Calm.{calm, victims_of, removed, store-calm, get-calm, delete-calm}
use http_cache.Cache.Sqlite.Hits.{HasBody}

-- The entry that a stored request comes back as, when it is looked up at `now`.
abbrev pub entry_of : CacheStoreRequest → ℤ → CacheEntry
entry_of request now = record {
  key = request.key;
  method = request.method;
  url = request.url;
  status = request.status;
  headers = request.headers;
  body_path = request.body_path;
  body_size = request.body_size;
  created_at = request.created_at;
  expires_at = request.expires_at;
  last_access = now;
}

-- A live entry is returned and its last access set.
answer-live :
    (now : ℤ) (e : CacheEntry) (rows : List Row) (files : Str → Option Bytes)
    → now <ℤ e.expires_at
    → HasBody files e.body_path
    → answer now (some e) (calm rows files)
      ≡ (ok (some (record e { last_access = now })), calm (touch_key now e.key rows) files)
unfolding answer
answer-live now e rows files fresh body = ground arith

pub to_entry-to_row :
    (json : Json) (request : CacheStoreRequest) (text : Str)
    → json.to_json request.headers ≡ some text
    → request.body_size < u64_mod
    → to_entry json (to_row json request) ≡ entry_of request request.created_at
unfolding to_entry to_row
to_entry-to_row json request text printed small = rw (
  printed,
  json.from_json-to_json request.headers text printed,
  as_u64-as_i64 request.body_size small,
)

pub select_stored :
    (json : Json) (request : CacheStoreRequest) (key : Str) (rows : List Row)
    → request.key ≡ key
    → select_key key (upsert (to_row json request) rows) ≡ some (to_row json request)
unfolding to_row
select_stored json request key rows k =
    select_key-upsert key (to_row json request) rows ∙ rw (k, str_eq_refl key)

-- A dead entry is discarded.
answer-dead :
    (now : ℤ) (e : CacheEntry) (rows : List Row) (files : Str → Option Bytes)
    → (e.expires_at ≤ℤ now) ⊎ (¬ HasBody files e.body_path)
    → answer now (some e) (calm rows files) ≡ (
      ok none,
      calm (delete_key e.key rows) (removed (body_path_of (select_key e.key rows)) files),
    )
unfolding answer discard is_dangling
answer-dead now e rows files dead = ground (arith, delete-calm e.key rows files)

pub no_victims :
    (order : Order) (max_entries : ℕ) (rows : List Row)
    → (max_entries ≡ 0) ⊎ (length rows ≤ max_entries)
    → victims_of order max_entries rows ≡ []
no_victims order max_entries rows (inl e) = rw e
no_victims order max_entries rows (inr fits) =
    let e : length rows - max_entries ≡ 0 = omega arith in rw e (ground arith)

-- A lookup that finds the row of a request which is live.
pub get_found-calm :
    (json : Json) (request : CacheStoreRequest) (clock : Clock) (method url text : Str)
    (rows : List Row) (files : Str → Option Bytes)
    → select_key (cache_key method url) rows ≡ some (to_row json request)
    → json.to_json request.headers ≡ some text
    → request.body_size < u64_mod
    → now_unix clock <ℤ request.expires_at
    → HasBody files request.body_path
    → get json clock method url (calm rows files) ≡ (
      ok (some (entry_of request (now_unix clock))),
      calm (touch_key (now_unix clock) request.key rows) files,
    )
get_found-calm json request clock method url text rows files found printed small fresh body =
    get-calm json clock method url rows files
    ∙ rw (found, to_entry-to_row json request text printed small)
        (answer-live (now_unix clock) (entry_of request request.created_at) rows files fresh body)

-- A lookup of a request that was stored and is live.
pub get_stored-calm :
    (json : Json) (request : CacheStoreRequest) (clock : Clock) (method url text : Str)
    (rows : List Row) (files : Str → Option Bytes)
    → request.key ≡ cache_key method url
    → json.to_json request.headers ≡ some text
    → request.body_size < u64_mod
    → now_unix clock <ℤ request.expires_at
    → HasBody files request.body_path
    → get json clock method url (calm (upsert (to_row json request) rows) files) ≡ (
      ok (some (entry_of request (now_unix clock))),
      calm (touch_key (now_unix clock) request.key (upsert (to_row json request) rows)) files,
    )
get_stored-calm json request clock method url text rows files k =
    get_found-calm json request clock method url text (upsert (to_row json request) rows) files
      (select_stored json request (cache_key method url) rows k)

-- After `store` of an entry under its request's key a lookup of that request gives the entry back
-- with the time of the lookup as its last access, when no call fails, the headers can be printed,
-- the size is a u64, the entry expires later, its body file exists, and the table has no limit or
-- stays within it.
pub get-store :
    (json : Json) (order : Order) (cache : SqliteCache) (request : CacheStoreRequest)
    (clock : Clock) (method url text : Str) (rows : List Row) (files : Str → Option Bytes)
    → request.key ≡ cache_key method url
    → json.to_json request.headers ≡ some text
    → request.body_size < u64_mod
    → now_unix clock <ℤ request.expires_at
    → HasBody files request.body_path
    → (cache.max_entries ≡ 0) ⊎ (length (upsert (to_row json request) rows) ≤ cache.max_entries)
    → let (stored, w) = store json order cache request (calm rows files) in
      (stored ≡ ok tt)
      × ((get json clock method url w).0 ≡ ok (some (entry_of request (now_unix clock))))
unfolding delete_keys
get-store json order cache request clock method url text rows files k printed small fresh body
      fits =
    let row = to_row json request in
    let stored : store json order cache request (calm rows files)
        ≡ (ok tt, calm (upsert row rows) files) =
      store-calm order json cache request rows files
      ∙ rw (no_victims order cache.max_entries (upsert row rows) fits) in
    let answered =
      get_stored-calm json request clock method url text rows files k printed small fresh body in
    rw (stored, answered) (refl, refl)

discards :
    (json : Json) (now : ℤ) (key : Str) (rows : List Row) (files : Str → Option Bytes) (r : Row)
    → select_key key rows ≡ some r
    → r.key ≡ key
    → (r.expires_at ≤ℤ now) ⊎ (¬ HasBody files r.body_path)
    → answer now (some (to_entry json r)) (calm rows files)
      ≡ (ok none, calm (delete_key key rows) (removed r.body_path files))
unfolding to_entry
discards json now key rows files r found same dead =
    answer-dead now (to_entry json r) rows files dead ∙ rw (same, found)

gone : (key : Str) (rows : List Row) → select_key key (delete_key key rows) ≡ none
gone key rows = select_key-delete_key key key rows ∙ rw (str_eq_refl key)

-- A lookup that meets an entry which has expired, or whose body file is gone, returns nothing and
-- deletes the entry's row and its body file, when no call fails.
pub get_discards :
    (json : Json) (clock : Clock) (method url : Str) (rows : List Row) (files : Str → Option Bytes)
    (r : Row)
    → select_key (cache_key method url) rows ≡ some r
    → (r.expires_at ≤ℤ now_unix clock) ⊎ (¬ HasBody files r.body_path)
    → get json clock method url (calm rows files)
      ≡ (ok none, calm (delete_key (cache_key method url) rows) (removed r.body_path files))
get_discards json clock method url rows files r found dead =
    let same = select_key-key (cache_key method url) rows r found in
    get-calm json clock method url rows files
    ∙ rw found (discards json (now_unix clock) (cache_key method url) rows files r found same dead)

-- `delete` takes out its key: a lookup of that request then finds nothing and changes nothing, and
-- every other key selects the same row as before.
pub get-delete :
    (json : Json) (clock : Clock) (method url other : Str) (rows : List Row)
    (files : Str → Option Bytes)
    → let (deleted, w) = delete (cache_key method url) (calm rows files) in
      (deleted ≡ ok tt)
      × (get json clock method url w ≡ (ok none, w))
      × (str_eq (cache_key method url) other ≡ false
          → select_key other w.rows ≡ select_key other rows)
unfolding answer
get-delete json clock method url other rows files =
    rw (delete-calm (cache_key method url) rows files) (
      refl,
      get-calm json clock method url _ _ ∙ rw (gone (cache_key method url) rows) refl,
      λ e. select_key-delete_key (cache_key method url) other rows ∙ rw e,
    )
