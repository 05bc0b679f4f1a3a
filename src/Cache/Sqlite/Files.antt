-- ===== src/Cache/Sqlite/Files.antt =====
-- `SqliteCache::store` of src/cache.rs makes no file.
use http_cache.Cache.{CacheStoreRequest}
use http_cache.Cache.World.{
  World, M, bind_keeps, ◌>>◌, ◌>>=◌, sql, query, execute, join, return, remove_file, later, Row,
}
use http_cache.Cache.Sqlite.{
  fetch, delete_file, evict_all, evict, enforce_limit, store, Order, Json, SqliteCache, to_row,
}
use http_cache.Cache.Table.{delete_key, upsert}
use http_cache.Prelude.{
  if◌then◌else◌, ◌≡◌, none, some, [], ◌∷◌, Str, Option, List, Bool-cases, inl, inr, ltb, ◌-◌,
  length, ℕ, arith, take,
}

module _ (path : Str) where
  -- There is no file at the path.
  abbrev pub IsAbsent : World → Type 0
  IsAbsent w = w.files path ≡ none

  -- A step that makes no file at the path.
  abbrev pub MakesNone : {A : Type 0} → M A → Type 0
  MakesNone m = (w : World) → IsAbsent w → IsAbsent (m w).1

  bind-MakesNone :
      {A B : Type 0} (m : M A) (f : A → M B)
      → MakesNone m
      → ((a : A) → MakesNone (f a))
      → MakesNone (◌>>=◌ m f)
  bind-MakesNone m f first next w gone =
      let still = first w gone in bind_keeps IsAbsent m f w still (λ a. next a (m w).1 still)

  sql-MakesNone : MakesNone sql
  unfolding sql
  sql-MakesNone w gone = gone

  join-MakesNone : MakesNone join
  unfolding join
  join-MakesNone w gone = gone

  query-MakesNone : {A : Type 0} (f : List Row → A) → MakesNone (query f)
  unfolding query
  query-MakesNone f w gone = ground arith

  execute-MakesNone : (f : List Row → List Row) → MakesNone (execute f)
  unfolding execute
  execute-MakesNone f w gone = ground arith

  delete_file-MakesNone : (file : Option Str) → MakesNone (delete_file file)
  unfolding delete_file remove_file
  delete_file-MakesNone none w gone = gone
  delete_file-MakesNone (some other) w gone = ground arith

  fetch-MakesNone : (found : List Row) → MakesNone (fetch found)
  unfolding fetch sql
  fetch-MakesNone [] w gone = ground arith
  fetch-MakesNone (r ∷ found) w gone =
      ground (arith, fetch-MakesNone found (record w { faults = later w.faults }))

  evict_all-MakesNone : (victims : List (Str × Option Str)) → MakesNone (evict_all victims)
  unfolding evict_all
  evict_all-MakesNone [] w gone = gone
  evict_all-MakesNone ((key, file) ∷ victims) w gone =
      bind-MakesNone (execute (delete_key key)) (λ u. delete_file file >> evict_all victims)
        (execute-MakesNone (delete_key key))
        (λ u.
          bind-MakesNone (delete_file file) (λ v. evict_all victims) (delete_file-MakesNone file)
            (λ v. evict_all-MakesNone victims))
        w gone

  module _ (order : Order) where
    open order use {by_last_access}

    evict-MakesNone : (overflow : ℕ) → MakesNone (evict order overflow)
    unfolding evict
    evict-MakesNone overflow =
        let oldest = λ (rows : List Row). take overflow (by_last_access rows) in
        bind-MakesNone sql (λ u. query oldest >>= λ found. fetch found >>= evict_all) sql-MakesNone
          (λ u.
            bind-MakesNone (query oldest) (λ found. fetch found >>= evict_all)
              (query-MakesNone oldest)
              (λ found.
                bind-MakesNone (fetch found) evict_all (fetch-MakesNone found) evict_all-MakesNone))

    abbrev over : ℕ → ℕ → M (Unit {0})
    over max_entries count =
        if ltb max_entries count then evict order (count - max_entries) else return tt

    over-MakesNone : (max_entries count : ℕ) → MakesNone (over max_entries count)
    over-MakesNone max_entries count = elim (Bool-cases (ltb max_entries count)) [
      | inl full ↦ rw full (evict-MakesNone (count - max_entries))
      | inr fits ↦ rw fits (λ w gone. gone)
    ]

    enforce_limit-MakesNone : (max_entries : ℕ) → MakesNone (enforce_limit order max_entries)
    unfolding enforce_limit
    enforce_limit-MakesNone max_entries = elim (Bool-cases (ltb 0 max_entries)) [
      | inl limited ↦ rw limited (
          bind-MakesNone (query length) (over max_entries) (query-MakesNone length)
            (over-MakesNone max_entries))
      | inr unlimited ↦ rw unlimited (λ w gone. gone)
    ]

    -- A store makes no file, whatever it evicts and whichever calls fail.
    pub store-MakesNone :
        (json : Json) (cache : SqliteCache) (request : CacheStoreRequest)
        → MakesNone (store json order cache request)
    unfolding store
    store-MakesNone json cache request =
        let writes = execute (upsert (to_row json request)) in
        let limits = enforce_limit order cache.max_entries in
        bind-MakesNone sql (λ u. writes >> (limits >> join)) sql-MakesNone
          (λ u.
            bind-MakesNone writes (λ v. limits >> join)
              (execute-MakesNone (upsert (to_row json request)))
              (λ v.
                bind-MakesNone limits (λ x. join) (enforce_limit-MakesNone cache.max_entries)
                  (λ x. join-MakesNone)))
