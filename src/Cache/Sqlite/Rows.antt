-- ===== src/Cache/Sqlite/Rows.antt =====
-- What every statement of src/cache.rs keeps of the rows, the operations of `SqliteCache` keep.
use http_cache.Prelude.{
  if◌then◌else◌, ◌≡◌, refl, Option, none, some, Str, List, [], ◌∷◌, Bool-cases, inl, inr, ltb, ◌-◌,
  length, ℕ, arith, take,
}
use http_cache.Prelude.Int.{ℤ}
use http_cache.Cache.Table.{delete_key, touch_key, upsert}
use http_cache.Cache.{CacheEntry, CacheStoreRequest, Clock, cache_key, now_unix}
use http_cache.Cache.World.{
  later, bind_keeps, ◌>>◌, ◌>>=◌, Row, World, M, return, sql, join, query, execute,
}
use http_cache.Cache.Sqlite.{
  SqliteCache, Json, Order, delete_file, delete, select_entry, is_dangling, discard, hit, answer,
  touch, get, fetch, evict_all, evict, enforce_limit, store, to_row,
}

module _ (P : List Row → Type 0)
    (deletes : (key : Str) (rows : List Row) → P rows → P (delete_key key rows))
    (touches : (now : ℤ) (key : Str) (rows : List Row) → P rows → P (touch_key now key rows)) where
  -- What holds of the rows holds after `delete`, whichever of its calls fail.
  pub delete_keeps : (key : Str) (w : World) → P w.rows → P (delete key w).1.rows
  unfolding delete
  delete_keeps key w u = ground (arith, deletes key w.rows)

  -- Reading leaves the rows alone.
  select_entry-rows :
      (json : Json) (key : Str) (w : World) → (select_entry json key w).1.rows ≡ w.rows
  unfolding select_entry
  select_entry-rows json key w = ground arith

  is_dangling-rows : (path : Option Str) (w : World) → (is_dangling path w).1.rows ≡ w.rows
  unfolding is_dangling
  is_dangling-rows none w = refl
  is_dangling-rows (some path) w = refl

  pub touch_keeps : (now : ℤ) (key : Str) (w : World) → P w.rows → P (touch now key w).1.rows
  unfolding touch
  touch_keeps now key w u = ground (arith, touches now key w.rows)

  hit_keeps : (now : ℤ) (e : CacheEntry) (w : World) → P w.rows → P (hit now e w).1.rows
  unfolding hit
  hit_keeps now e w u = ground (arith, touches now e.key w.rows)

  discard_keeps : (e : CacheEntry) (w : World) → P w.rows → P (discard e w).1.rows
  unfolding discard
  discard_keeps e w u = ground (arith, delete_keeps e.key w)

  -- A first step that leaves the rows alone.
  reads_then :
      {A B : Type 0} (m : M A) (f : A → M B) (w : World)
      → (m w).1.rows ≡ w.rows
      → P w.rows
      → ((a : A) (v : World) → P v.rows → P (f a v).1.rows)
      → P (◌>>=◌ m f w).1.rows
  reads_then m f w e u next =
      let v : P (m w).1.rows = rw e u in bind_keeps (λ v. P v.rows) m f w v (λ a. next a (m w).1 v)

  query-rows : {A : Type 0} (f : List Row → A) (w : World) → (query f w).1.rows ≡ w.rows
  unfolding query
  query-rows f w = ground arith

  sql-rows : (w : World) → (sql w).1.rows ≡ w.rows
  unfolding sql
  sql-rows w = refl

  join-rows : (w : World) → (join w).1.rows ≡ w.rows
  unfolding join
  join-rows w = refl

  answer_keeps :
      (now : ℤ) (found : Option CacheEntry) (w : World) → P w.rows → P (answer now found w).1.rows
  unfolding answer
  answer_keeps now none w u = u
  answer_keeps now (some e) w u =
      let seen = (is_dangling e.body_path w).1 in
      let u' : P seen.rows = rw (is_dangling-rows e.body_path w) u in
      ground (arith, discard_keeps e w u, discard_keeps e seen u', hit_keeps now e seen u')

  -- What holds of the rows holds after `get`, whichever of its calls fail.
  pub get_keeps :
      (json : Json) (clock : Clock) (method url : Str) (w : World)
      → P w.rows
      → P (get json clock method url w).1.rows
  unfolding get
  get_keeps json clock method url w u =
      reads_then (select_entry json (cache_key method url)) (answer (now_unix clock)) w
        (select_entry-rows json (cache_key method url) w) u (answer_keeps (now_unix clock))

  fetch-rows : (found : List Row) (w : World) → (fetch found w).1.rows ≡ w.rows
  unfolding fetch
  fetch-rows [] w = ground arith
  fetch-rows (r ∷ found) w = ground (arith, fetch-rows found (record w { faults = later w.faults }))

  execute_keeps :
      (f : List Row → List Row) (w : World) → P w.rows → P (f w.rows) → P (execute f w).1.rows
  unfolding execute
  execute_keeps f w u v = ground arith

  delete_file-rows : (path : Option Str) (w : World) → (delete_file path w).1.rows ≡ w.rows
  unfolding delete_file
  delete_file-rows none w = refl
  delete_file-rows (some path) w = refl

  evict_all_keeps :
      (victims : List (Str × Option Str)) (w : World) → P w.rows → P (evict_all victims w).1.rows
  unfolding evict_all
  evict_all_keeps [] w u = u
  evict_all_keeps ((key, path) ∷ victims) w u =
      let u₁ = execute_keeps (delete_key key) w u (deletes key w.rows u) in
      bind_keeps (λ v. P v.rows) (execute (delete_key key))
        (λ _. delete_file path >> evict_all victims) w u₁
        (λ _.
          reads_then (delete_file path) (λ _. evict_all victims) _ (delete_file-rows path _) u₁
            (λ _. evict_all_keeps victims))

  module _ (order : Order) where
    open order use {by_last_access}

    evict_keeps : (overflow : ℕ) (w : World) → P w.rows → P (evict order overflow w).1.rows
    unfolding evict
    evict_keeps overflow w u =
        let oldest = λ (rows : List Row). take overflow (by_last_access rows) in
        reads_then sql (λ _. query oldest >>= λ found. fetch found >>= evict_all) w (sql-rows w) u
          (λ _ v uv.
            reads_then (query oldest) (λ found. fetch found >>= evict_all) v (query-rows oldest v)
              uv
              (λ found v' uv'.
                reads_then (fetch found) evict_all v' (fetch-rows found v') uv' evict_all_keeps))

    abbrev over : ℕ → ℕ → M (Unit {0})
    over max_entries count =
        if ltb max_entries count then evict order (count - max_entries) else return tt

    over_keeps :
        (max_entries count : ℕ) (w : World) → P w.rows → P (over max_entries count w).1.rows
    over_keeps max_entries count w u = elim (Bool-cases (ltb max_entries count)) [
      | inl full ↦ rw full (evict_keeps (count - max_entries) w u)
      | inr fits ↦ rw fits u
    ]

    enforce_limit_keeps :
        (max_entries : ℕ) (w : World) → P w.rows → P (enforce_limit order max_entries w).1.rows
    unfolding enforce_limit
    enforce_limit_keeps max_entries w u = elim (Bool-cases (ltb 0 max_entries)) [
      | inr unlimited ↦ rw unlimited u
      | inl limited ↦ rw limited (
          reads_then (query length) (over max_entries) w (query-rows length w) u
            (over_keeps max_entries))
    ]

    -- What holds of the rows holds after `store`, whichever of its calls fail.
    pub store_keeps :
        (json : Json) (cache : SqliteCache) (entry : CacheStoreRequest)
        → ((rows : List Row) → P rows → P (upsert (to_row json entry) rows))
        → (w : World) → P w.rows
        → P (store json order cache entry w).1.rows
    unfolding store
    store_keeps json cache entry writes_entry w u =
        reads_then sql
          (λ _.
            execute (upsert (to_row json entry)) >> (enforce_limit order cache.max_entries >> join))
          w (sql-rows w) u
          (λ _ v uv.
            let uv' = execute_keeps (upsert (to_row json entry)) v uv (writes_entry v.rows uv) in
            bind_keeps (λ v. P v.rows) (execute (upsert (to_row json entry)))
              (λ _. enforce_limit order cache.max_entries >> join) v uv'
              (λ _.
                bind_keeps (λ v. P v.rows) (enforce_limit order cache.max_entries) (λ _. join) _
                  (enforce_limit_keeps cache.max_entries _ uv')
                  (λ _. rw (join-rows _) (enforce_limit_keeps cache.max_entries _ uv'))))
