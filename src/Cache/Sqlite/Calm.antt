-- ===== src/Cache/Sqlite/Calm.antt =====
-- The operations of `SqliteCache` in src/cache.rs when no call fails.
use mathlib.Core.Option
use http_cache.Prelude.{
  ◌≡◌, refl, Option, none, some, Str, List, [], ◌∷◌, arith, if◌then◌else◌, Bool-cases, inl, inr,
  map, ℕ, take, length, ltb, ◌-◌,
}
use http_cache.Body.{Bytes}
use http_cache.Errors.{ok}
use http_cache.Cache.{CacheStoreRequest, Clock, cache_key, now_unix}
use http_cache.Cache.World.{Row, World, without_file}
use http_cache.Cache.Table.{select_key, delete_key, upsert}
use http_cache.Cache.Table.Eviction.{delete_keys, keys_of}
use http_cache.Cache.Sqlite.{
  SqliteCache, Order, Json, delete, select_entry, answer, get, to_entry, to_row, body_path_of,
  fetch, evict_all, evict, enforce_limit, store,
}

-- A world in which every call succeeds.
abbrev pub calm : List Row → (Str → Option Bytes) → World
calm rows files = record { rows = rows; files = files; faults = [] }

abbrev pub removed : Option Str → (Str → Option Bytes) → Str → Option Bytes
removed none files = files
removed (some path) files = without_file path files

abbrev pub all_removed : List Row → (Str → Option Bytes) → Str → Option Bytes
all_removed [] files = files
all_removed (r ∷ rows) files = all_removed rows (removed r.body_path files)

pub delete-calm :
    (key : Str) (rows : List Row) (files : Str → Option Bytes)
    → delete key (calm rows files)
      ≡ (ok tt, calm (delete_key key rows) (removed (body_path_of (select_key key rows)) files))
unfolding delete
delete-calm key rows files = ground arith

pub get-calm :
    (json : Json) (clock : Clock) (method url : Str) (rows : List Row) (files : Str → Option Bytes)
    → get json clock method url (calm rows files)
      ≡ answer
          (now_unix clock)
          (Option.map (to_entry json) (select_key (cache_key method url) rows))
          (calm rows files)
unfolding get select_entry
get-calm json clock method url rows files = refl

-- What the eviction reads of a row.
abbrev pub victim : Row → Str × Option Str
victim r = (r.key, r.body_path)

fetch-calm :
    (found rows : List Row) (files : Str → Option Bytes)
    → fetch found (calm rows files) ≡ (ok (map victim found), calm rows files)
unfolding fetch
fetch-calm [] rows files = refl
fetch-calm (r ∷ found) rows files = ground (arith, fetch-calm found rows files)

evict_all-calm :
    (victims rows : List Row) (files : Str → Option Bytes)
    → evict_all (map victim victims) (calm rows files)
      ≡ (ok tt, calm (delete_keys (keys_of victims) rows) (all_removed victims files))
unfolding evict_all delete_keys
evict_all-calm [] rows files = refl
evict_all-calm (v ∷ victims) rows files =
    ground (arith, evict_all-calm victims (delete_key v.key rows) (removed v.body_path files))

module _ (order : Order) where
  open order use {by_last_access}

  -- The rows that a limit makes `store` evict, oldest first.
  abbrev pub victims_of : ℕ → List Row → List Row
  victims_of max_entries rows =
      if ltb 0 max_entries then take (length rows - max_entries) (by_last_access rows) else []

  evict-calm :
      (n : ℕ) (rows : List Row) (files : Str → Option Bytes)
      → evict order n (calm rows files) ≡ (
        ok tt,
        calm
            (delete_keys (keys_of (take n (by_last_access rows))) rows)
            (all_removed (take n (by_last_access rows)) files),
      )
  unfolding evict
  evict-calm n rows files = ground (
    arith,
    fetch-calm (take n (by_last_access rows)) rows files,
    evict_all-calm (take n (by_last_access rows)) rows files,
  )

  enforce_limit-calm :
      (max_entries : ℕ) (rows : List Row) (files : Str → Option Bytes)
      → enforce_limit order max_entries (calm rows files) ≡ (
        ok tt,
        calm
            (delete_keys (keys_of (victims_of max_entries rows)) rows)
            (all_removed (victims_of max_entries rows) files),
      )
  unfolding enforce_limit delete_keys
  enforce_limit-calm max_entries rows files = elim (Bool-cases (ltb 0 max_entries)) [
    | inr unlimited ↦ rw unlimited
    | inl limited ↦ elim (Bool-cases (ltb max_entries (length rows))) [
      | inl full ↦ rw (limited, full) (evict-calm (length rows - max_entries) rows files)
      | inr fits ↦ let e : length rows - max_entries ≡ 0 = ground arith in rw (limited, fits, e)
    ]
  ]

  pub store-calm :
      (json : Json) (cache : SqliteCache) (entry : CacheStoreRequest) (rows : List Row)
      (files : Str → Option Bytes)
      → let stored = upsert (to_row json entry) rows in
        let victims = victims_of cache.max_entries stored in
        store json order cache entry (calm rows files)
        ≡ (ok tt, calm (delete_keys (keys_of victims) stored) (all_removed victims files))
  unfolding store
  store-calm json cache entry rows files =
      ground (arith, enforce_limit-calm cache.max_entries (upsert (to_row json entry) rows) files)
