-- ===== src/HttpProxy/Committing/Steps.antt =====
-- What the single steps of a commit in src/http_proxy/cache_pipeline.rs do, whichever calls fail.
use http_cache.Cache.{CacheStoreRequest}
use http_cache.Cache.Table.{upsert, select_key}
use http_cache.Cache.Table.Lookup.{select_key-upsert}
use http_cache.Cache.Sqlite.{Json, Order, SqliteCache, to_row}
use http_cache.Cache.World.{Row, World, ◌>>◌, sql, execute, join, return}
use http_cache.Cache.World.{query, bind_keeps, M}
use http_cache.Cache.World.{◌>>=◌}
use http_cache.Prelude.{
  ltb, ◌-◌, if◌then◌else◌, Bool-cases, ℕ, length, ◌≤◌, none, [], ◌∷◌, Option, str_eq_refl, List,
  Bool, ◌≡◌, some, true, false, inl, inr, ◌⊎◌, Str, arith, refl, str_eq,
}
use http_cache.Errors.{Result, ok, err}
use http_cache.Body.{Bytes}
use http_cache.Cache.World.{remove_file}
use http_cache.HttpProxy.Committing.{Job, after_store, give_up, flush, rename}
use http_cache.Cache.Sqlite

-- A store into a table with room for it writes its row or not, and succeeds only if it has.
pub record IsWritten (row : Row) (r : Result (Unit {0})) (w w' : World) : Type 0 where
  pub files : w'.files ≡ w.files
  pub rows : (w'.rows ≡ upsert row w.rows) ⊎ (w'.rows ≡ w.rows)
  pub done : r ≡ ok tt → w'.rows ≡ upsert row w.rows

-- The table has no limit, or room for the row.
abbrev pub Fits : SqliteCache → Row → List Row → Type 0
Fits cache row rows = (cache.max_entries ≡ 0) ⊎ (length (upsert row rows) ≤ cache.max_entries)

-- What stays as it is.
abbrev SameTable : World → World → Type 0
SameTable w w' = (w'.files ≡ w.files) × (w'.rows ≡ w.rows)

-- Within the limit nothing is evicted.
counts :
    (order : Order) (max_entries : ℕ) (rows : List Row) (files : Str → Option Bytes)
    (faults : List (Option Str))
    → let w : World = record { rows = rows; files = files; faults = faults } in
      ltb max_entries (length rows) ≡ false
      → SameTable w
          ((do
            count ← query length
            (if ltb max_entries count then Sqlite.evict order (count - max_entries) else return tt))
            w).1
unfolding query sql
counts order max_entries rows files [] small = rw small (refl, refl)
counts order max_entries rows files (none ∷ faults) small = rw small (refl, refl)
counts order max_entries rows files (some m ∷ faults) small = (refl, refl)

enforce_limit-idle :
    (order : Order) (max_entries : ℕ) (w : World)
    → (max_entries ≡ 0) ⊎ (length w.rows ≤ max_entries)
    → SameTable w (Sqlite.enforce_limit order max_entries w).1
unfolding Sqlite.enforce_limit
enforce_limit-idle order max_entries w fits = elim (Bool-cases (ltb 0 max_entries)) [
  | inr unlimited ↦ rw unlimited (refl, refl)
  | inl limited ↦
      let small : ltb max_entries (length w.rows) ≡ false = ground arith in
      rw limited (counts order max_entries w.rows w.files w.faults small)
]

-- The calls of such a store.
one_row-IsWritten :
    (row : Row) (rest : M (Unit {0})) (rows : List Row) (files : Str → Option Bytes)
    (faults : List (Option Str))
    → let w : World = record { rows = rows; files = files; faults = faults } in
      ((v : World) → v.rows ≡ upsert row rows → SameTable v (rest v).1)
      → let end_of = (sql >> (execute (upsert row) >> rest)) w in IsWritten row end_of.0 w end_of.1
unfolding sql execute
one_row-IsWritten row rest rows files [] keeps =
    let k = keeps (record { rows = upsert row rows; files = files; faults = [] }) refl in
    record { files = k.0; rows = inl k.1; done = λ h. k.1 }
one_row-IsWritten row rest rows files (some m ∷ faults) keeps = record {
  files = refl;
  rows = inr refl;
  done = λ h. cc;
}
one_row-IsWritten row rest rows files (none ∷ []) keeps =
    let k = keeps (record { rows = upsert row rows; files = files; faults = [] }) refl in
    record { files = k.0; rows = inl k.1; done = λ h. k.1 }
one_row-IsWritten row rest rows files (none ∷ some m ∷ faults) keeps = record {
  files = refl;
  rows = inr refl;
  done = λ h. cc;
}
one_row-IsWritten row rest rows files (none ∷ none ∷ faults) keeps =
    let k = keeps (record { rows = upsert row rows; files = files; faults = faults }) refl in
    record { files = k.0; rows = inl k.1; done = λ h. k.1 }

pub store-IsWritten :
    (json : Json) (order : Order) (cache : SqliteCache) (request : CacheStoreRequest) (w : World)
    → Fits cache (to_row json request) w.rows
    → IsWritten
        (to_row json request)
        (Sqlite.store json order cache request w).0
        w
        (Sqlite.store json order cache request w).1
unfolding Sqlite.store join
store-IsWritten json order cache request w fits =
    one_row-IsWritten (to_row json request) (Sqlite.enforce_limit order cache.max_entries >> join)
      w.rows w.files w.faults
      (λ v e.
        let idle = enforce_limit-idle order cache.max_entries v (rw e fits) in
        bind_keeps (SameTable v) (Sqlite.enforce_limit order cache.max_entries) (λ u. join) v idle
          (λ u. idle))

pub record IsEnded (final_path : Str) (r : Result Bool) (stored : Result (Unit {0})) (w w' : World)
    : Type 0 where
  pub ends : (r ≡ ok true) ⊎ (r ≡ ok false)
  pub done : r ≡ ok true → (w'.files ≡ w.files) × (stored ≡ ok tt)
  pub files : (q : Str) → str_eq final_path q ≡ false → w'.files q ≡ w.files q
  pub rows : w'.rows ≡ w.rows

pub after_store-IsEnded :
    (final_path : Str) (r : Result (Unit {0})) (w : World)
    → IsEnded final_path (after_store final_path (r, w)).0 r w (after_store final_path (r, w)).1
unfolding give_up remove_file
after_store-IsEnded final_path (ok u) w = record {
  ends = inl refl;
  done = λ h. (refl, refl);
  files = λ q other. refl;
  rows = refl;
}
after_store-IsEnded final_path (err e) w = record {
  ends = inr refl;
  done = λ h. cc;
  files = λ q other. ground arith;
  rows = refl;
}

pub upserted_others :
    (row : Row) (w w' : World) (key : Str)
    → (w'.rows ≡ upsert row w.rows) ⊎ (w'.rows ≡ w.rows)
    → str_eq row.key key ≡ false
    → select_key key w'.rows ≡ select_key key w.rows
upserted_others row w w' key (inl wrote) other =
    rw wrote (rw (select_key-upsert key row w.rows, other) refl)
upserted_others row w w' key (inr kept) other = rw kept refl

pub upserted : (row : Row) (rows : List Row) → select_key row.key (upsert row rows) ≡ some row
upserted row rows = rw (select_key-upsert row.key row rows, str_eq_refl row.key) refl

-- The files but the two, and the rows.
pub record IsKept (job : Job) (w v : World) : Type 0 where
  pub files :
      (q : Str)
      → str_eq job.final_path q ≡ false
      → str_eq job.temp_path q ≡ false
      → v.files q ≡ w.files q
  pub rows : v.rows ≡ w.rows

pub flush-IsKept :
    (job : Job) (written : Bytes) (w : World) → IsKept job w (flush job.temp_path written w).1
unfolding flush
flush-IsKept job written w = record { files = λ q final temp. ground arith; rows = refl }

pub rename-IsKept : (job : Job) (w : World) → IsKept job w (rename job.temp_path job.final_path w).1
unfolding rename
rename-IsKept job w = record { files = λ q final temp. ground arith; rows = refl }
