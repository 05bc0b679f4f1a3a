-- ===== src/Cache/Sqlite/Stays.antt =====
-- `SqliteCache::store` of src/cache.rs and the row that it writes, where a limit makes it evict.
use http_cache.Cache.{CacheStoreRequest}
use http_cache.Body.{Bytes}
use http_cache.Errors.{ok}
use http_cache.Cache.World.{
  World, Row, M, bind_keeps, bind_result, bind_gives, bind_ok, sql, query, execute, join, return,
  ◌>>=◌, ◌>>◌, remove_file,
}
use http_cache.Cache.Sqlite.{
  fetch, delete_file, evict_all, evict, enforce_limit, store, Order, Json, SqliteCache, to_row,
}
use http_cache.Cache.Sqlite.Calm.{victim, victims_of}
use http_cache.Cache.Table.{delete_key, upsert, select_key}
use http_cache.Cache.Table.Lookup.{select_key-delete_key, select_key-upsert}
use http_cache.Prelude.{
  ◌≡◌, ◌≢◌, ◌∙◌, none, some, [], ◌∷◌, Str, Option, List, Bool-cases, inl, inr, arith, refl, ap, All,
  map, take, length, ltb, ◌-◌, ℕ, false, str_eq, str_eq_sound, str_eq_refl, if◌then◌else◌,
}

-- A row that another key has, and that does not name the file.
abbrev pub Spares : Str → Str → Row → Type 0
Spares key path v = (str_eq v.key key ≡ false) × (v.body_path ≢ some path)

-- What the limit makes a store of the row evict is neither that row nor the file.
abbrev pub Stays : Order → SqliteCache → Row → Str → List Row → Type 0
Stays order cache row path rows =
    All (Spares row.key path) (victims_of order cache.max_entries (upsert row rows))

-- Steps that change neither the rows nor the files.
module _ (rows : List Row) (files : Str → Option Bytes) where
  abbrev IsTable : World → Type 0
  IsTable w = (w.rows ≡ rows) × (w.files ≡ files)

  sql-IsTable : (w : World) → IsTable w → IsTable (sql w).1
  unfolding sql
  sql-IsTable w h = h

  query-IsTable : {A : Type 0} (f : List Row → A) (w : World) → IsTable w → IsTable (query f w).1
  unfolding query
  query-IsTable f w h =
      bind_keeps IsTable sql (λ u v. (ok (f v.rows), v)) w (sql-IsTable w h) (λ u. sql-IsTable w h)

  fetch-IsTable : (found : List Row) (w : World) → IsTable w → IsTable (fetch found w).1
  unfolding fetch
  fetch-IsTable [] w h =
      bind_keeps IsTable sql (λ u. return []) w (sql-IsTable w h) (λ u. sql-IsTable w h)
  fetch-IsTable (r ∷ found) w h =
      let next = fetch-IsTable found (sql w).1 (sql-IsTable w h) in
      bind_keeps IsTable sql (λ u. fetch found >>= λ rest. return ((r.key, r.body_path) ∷ rest)) w
        (sql-IsTable w h)
        (λ u.
          bind_keeps IsTable (fetch found) (λ rest. return ((r.key, r.body_path) ∷ rest)) (sql w).1
            next (λ rest. next))

query_result :
    {A : Type 0} (f : List Row → A) (w : World) (a : A) → (query f w).0 ≡ ok a → a ≡ f w.rows
unfolding query sql
query_result f w a h = let (u, fine, e) = bind_ok sql (λ u v. (ok (f v.rows), v)) w a h in cc

fetch_result :
    (found : List Row) (w : World) (a : List (Str × Option Str))
    → (fetch found w).0 ≡ ok a
    → a ≡ map victim found
unfolding fetch
fetch_result [] w a h = let (u, fine, e) = bind_ok sql (λ u. return []) w a h in cc
fetch_result (r ∷ found) w a h =
    let next : List (Str × Option Str) → M (List (Str × Option Str)) =
      λ rest. return ((r.key, r.body_path) ∷ rest) in
    let (u, fine, e) = bind_ok sql (λ u. fetch found >>= next) w a h in
    let (rest, got, e') = bind_ok (fetch found) next (sql w).1 a e in
    let same = fetch_result found (sql w).1 rest got in cc

execute_done :
    (f : List Row → List Row) (w : World)
    → (execute f w).0 ≡ ok tt
    → IsTable (f w.rows) w.files (execute f w).1
unfolding execute sql
execute_done f w h =
    bind_gives (IsTable (f w.rows) w.files) sql (λ u v. (ok tt, record v { rows = f v.rows })) w tt
      h (λ u fine done. (refl, refl))

module _ (key path : Str) (row : Row) (bytes : Bytes) where
  -- The row is in the table, and the file is there.
  abbrev pub IsHeld : World → Type 0
  IsHeld w = (select_key key w.rows ≡ some row) × (w.files path ≡ some bytes)

  execute-IsHeld :
      (other : Str) (w : World)
      → str_eq other key ≡ false
      → IsHeld w
      → IsHeld (execute (delete_key other) w).1
  unfolding execute sql
  execute-IsHeld other w apart h =
      bind_keeps IsHeld sql (λ u v. (ok tt, record v { rows = delete_key other v.rows })) w h
        (λ u. (rw (select_key-delete_key other key w.rows, apart) h.0, h.1))

  delete_file-IsHeld :
      (file : Option Str) (w : World) → file ≢ some path → IsHeld w → IsHeld (delete_file file w).1
  unfolding delete_file remove_file
  delete_file-IsHeld none w other h = h
  delete_file-IsHeld (some p) w other h = elim (Bool-cases (str_eq p path)) [
    | inl same ↦ absurd (other (ap some (str_eq_sound p path same)))
    | inr apart ↦ (h.0, ground (arith, h.1))
  ]

  evict_all-IsHeld :
      (victims : List Row) (w : World)
      → All (Spares key path) victims
      → IsHeld w
      → IsHeld (evict_all (map victim victims) w).1
  unfolding evict_all
  evict_all-IsHeld [] w spared h = h
  evict_all-IsHeld (v ∷ victims) w spared h =
      let w' = (execute (delete_key v.key) w).1 in
      let w'' = (delete_file v.body_path w').1 in
      let deleted = execute-IsHeld v.key w spared.0.0 h in
      let removed = delete_file-IsHeld v.body_path w' spared.0.1 deleted in
      bind_keeps IsHeld (execute (delete_key v.key))
        (λ u. delete_file v.body_path >> evict_all (map victim victims)) w deleted
        (λ u.
          bind_keeps IsHeld (delete_file v.body_path) (λ x. evict_all (map victim victims)) w'
            removed (λ x. evict_all-IsHeld victims w'' spared.1 removed))

  module _ (order : Order) where
    open order use {by_last_access}

    -- The eviction over the rows it reads, whichever of its calls fail.
    evict-IsHeld :
        (rows : List Row) (files : Str → Option Bytes) (n : ℕ) (w : World)
        → IsHeld (record { rows = rows; files = files; faults = [] })
        → All (Spares key path) (take n (by_last_access rows))
        → IsTable rows files w
        → IsHeld (evict order n w).1
    unfolding evict
    evict-IsHeld rows files n w held spared t =
        let held_in : (v : World) → IsTable rows files v → IsHeld v =
          λ v t. (rw t.0 held.0, rw t.1 held.1) in
        let oldest : List Row → List Row = λ rows. take n (by_last_access rows) in
        let w₁ = (sql w).1 in
        let t₁ = sql-IsTable rows files w t in
        let w₂ = (query oldest w₁).1 in
        let t₂ = query-IsTable rows files oldest w₁ t₁ in
        bind_keeps IsHeld sql (λ u. query oldest >>= λ found. fetch found >>= evict_all) w
          (held_in w₁ t₁)
          (λ u.
            bind_result IsHeld (query oldest) (λ found. fetch found >>= evict_all) w₁
              (held_in w₂ t₂)
              (λ found e.
                let t₃ = fetch-IsTable rows files found w₂ t₂ in
                let read : found ≡ oldest rows = query_result oldest w₁ found e ∙ ap oldest t₁.0 in
                bind_result IsHeld (fetch found) evict_all w₂ (held_in (fetch found w₂).1 t₃)
                  (λ victims e'. rw (fetch_result found w₂ victims e') (
                    evict_all-IsHeld found (fetch found w₂).1 (rw read spared)
                      (held_in (fetch found w₂).1 t₃)))))

    enforce_limit-IsHeld :
        (max_entries : ℕ) (rows : List Row) (files : Str → Option Bytes) (w : World)
        → IsHeld (record { rows = rows; files = files; faults = [] })
        → All (Spares key path) (victims_of order max_entries rows)
        → IsTable rows files w
        → IsHeld (enforce_limit order max_entries w).1
    unfolding enforce_limit
    enforce_limit-IsHeld max_entries rows files w held spared t =
        let held_in : (v : World) → IsTable rows files v → IsHeld v =
          λ v t. (rw t.0 held.0, rw t.1 held.1) in
        let over : ℕ → M (Unit {0}) =
          λ count. if ltb max_entries count then evict order (count - max_entries) else return tt in
        let w₁ = (query length w).1 in
        let t₁ = query-IsTable rows files length w t in
        elim (Bool-cases (ltb 0 max_entries)) [
          | inr unlimited ↦ rw unlimited (held_in w t)
          | inl limited ↦
              let victims = rw limited at spared in
              rw limited (
                bind_result IsHeld (query length) over w (held_in w₁ t₁) (λ count e.
                  let counted : count ≡ length rows =
                    query_result length w count e ∙ ap length t.0 in
                  elim (Bool-cases (ltb max_entries count)) [
                    | inr fits ↦ rw fits (held_in w₁ t₁)
                    | inl full ↦ rw full (
                        evict-IsHeld rows files (count - max_entries) w₁ held (rw counted victims)
                          t₁)
                  ]))
        ]

module _ (json : Json) (order : Order) (cache : SqliteCache) (request : CacheStoreRequest)
    (path : Str) (bytes : Bytes) where
  abbrev stored : Row
  stored = to_row json request

  -- A store that succeeds leaves its row and the file, if what it evicts is neither.
  pub store-IsHeld :
      (w : World)
      → w.files path ≡ some bytes
      → Stays order cache stored path w.rows
      → (store json order cache request w).0 ≡ ok tt
      → IsHeld stored.key path stored bytes (store json order cache request w).1
  unfolding store sql join
  store-IsHeld w here stays h =
      let Held = IsHeld stored.key path stored bytes in
      let writes = execute (upsert stored) in
      let limits = enforce_limit order cache.max_entries in
      let rows = upsert stored w.rows in
      let w₁ = (sql w).1 in
      let w₂ = (writes w₁).1 in
      let selected : select_key stored.key rows ≡ some stored =
        rw (select_key-upsert stored.key stored w.rows, str_eq_refl stored.key) refl in
      bind_gives Held sql (λ u. writes >> (limits >> join)) w tt h
        (λ u fine h₁.
          bind_gives Held writes (λ v. limits >> join) w₁ tt h₁
            (λ v done h₂.
              let kept =
                enforce_limit-IsHeld stored.key path stored bytes order cache.max_entries rows
                  w.files w₂ (selected, here) stays (execute_done (upsert stored) w₁ done) in
              bind_keeps Held limits (λ x. join) w₂ kept (λ x. kept)))
