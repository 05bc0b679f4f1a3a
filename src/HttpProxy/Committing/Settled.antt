-- ===== src/HttpProxy/Committing/Settled.antt =====
-- What the writer of src/http_proxy/cache_pipeline.rs leaves of a commit, whichever calls fail.
use http_cache.Cache.Backend.{sqlite_cache}
use http_cache.Cache.Table.{select_key}
use http_cache.Cache.Sqlite.{Json, Order, SqliteCache, to_row}
use http_cache.Cache.World.{◌>>=◌, succeeds, Row, World, M}
use http_cache.Prelude.{
  if◌then◌else◌, ◌∙◌, str_eq_refl, Bool, ◌≡◌, none, some, true, false, inl, inr, ◌⊎◌, ℕ, Str, arith,
  refl, str_eq, ap, Bool-cases, ◌∙◌,
}
use http_cache.Errors.{Result, ok}
use http_cache.Cache.Backend
use http_cache.Body.{Bytes}
use http_cache.Cache.World.{remove_file}
use http_cache.HttpProxy.Committing.{
  Job, give_up, request_of, commit_files, store_job, flush, rename,
}
use http_cache.Cache.Sqlite
use http_cache.HttpProxy.Committing.Steps.{
  Fits, IsKept, store-IsWritten, after_store-IsEnded, upserted_others, upserted, flush-IsKept,
  rename-IsKept,
}

-- What a commit leaves behind, of the two files and the row of its key and of all others.
pub record IsSettled (job : Job) (written : Bytes) (row : Row) (r : Result Bool) (w w' : World)
    : Type 0 where
  pub ends : (r ≡ ok true) ⊎ (r ≡ ok false)
  pub done :
      r ≡ ok true
      → (w'.files job.final_path ≡ some written)
        × (w'.files job.temp_path ≡ none)
        × (select_key row.key w'.rows ≡ some row)
  pub files :
      (q : Str)
      → str_eq job.final_path q ≡ false
      → str_eq job.temp_path q ≡ false
      → w'.files q ≡ w.files q
  pub rows :
      (key : Str) → str_eq row.key key ≡ false → select_key key w'.rows ≡ select_key key w.rows

settles_after :
    (job : Job) (written : Bytes) (row : Row) (r : Result Bool) (w v w' : World)
    → IsKept job w v
    → IsSettled job written row r v w'
    → IsSettled job written row r w w'
settles_after job written row r w v w' kept s = record {
  ends = s.ends;
  done = s.done;
  files = λ q final temp. s.files q final temp ∙ kept.files q final temp;
  rows = λ key other. s.rows key other ∙ ap (select_key key) kept.rows;
}

give_up-IsSettled :
    (job : Job) (written : Bytes) (row : Row) (w : World)
    → IsSettled job written row (give_up job.temp_path w).0 w (give_up job.temp_path w).1
unfolding give_up remove_file
give_up-IsSettled job written row w = record {
  ends = inr refl;
  done = λ h. cc;
  files = λ q final temp. ground arith;
  rows = λ key other. refl;
}

module _ (json : Json) (order : Order) (cache : SqliteCache) (job : Job) (written : Bytes)
    (size : ℕ) where
  abbrev pub row : Row
  row = to_row json (request_of job size)

  -- The store behind a renaming, in a world where the files are in place.
  store_job-IsSettled :
      (w : World)
      → Fits cache row w.rows
      → w.files job.final_path ≡ some written
      → w.files job.temp_path ≡ none
      → IsSettled job written row
          (store_job json order (sqlite_cache cache) job size w).0
          w
          (store_job json order (sqlite_cache cache) job size w).1
  unfolding store_job Backend.store
  store_job-IsSettled w fits body gone =
      let (r, v) = Sqlite.store json order cache (request_of job size) w in
      let stored = store-IsWritten json order cache (request_of job size) w fits in
      let ended = after_store-IsEnded job.final_path r v in
      record {
        ends = ended.ends;
        done = λ h.
            let (same, succeeded) = ended.done h in
            let files = same ∙ stored.files in
            (
              ap (λ f. f job.final_path) files ∙ body,
              ap (λ f. f job.temp_path) files ∙ gone,
              ap (select_key row.key) (ended.rows ∙ stored.done succeeded) ∙ upserted row w.rows,
            );
        files = λ q other _. ended.files q other ∙ ap (λ f. f q) stored.files;
        rows = λ key other.
            ap (select_key key) ended.rows ∙ upserted_others row w v key stored.rows other;
      }

  pub renamed_body :
      (w : World)
      → succeeds w.faults ≡ true
      → w.files job.temp_path ≡ some written
      → (rename job.temp_path job.final_path w).1.files job.final_path ≡ some written
  unfolding rename
  renamed_body w fine here = rw (fine, str_eq_refl job.final_path, here) refl

  pub renamed_away :
      (w : World)
      → succeeds w.faults ≡ true
      → str_eq job.final_path job.temp_path ≡ false
      → (rename job.temp_path job.final_path w).1.files job.temp_path ≡ none
  unfolding rename
  renamed_away w fine apart = rw (fine, apart, str_eq_refl job.temp_path) refl

  pub flushed_body :
      (w : World)
      → succeeds w.faults ≡ true
      → (flush job.temp_path written w).1.files job.temp_path ≡ some written
  unfolding flush
  flushed_body w fine = rw (fine, str_eq_refl job.temp_path) refl

  abbrev pub after_rename : Bool → M Bool
  after_rename renamed =
      if renamed then store_job json order (sqlite_cache cache) job size else give_up job.temp_path

  abbrev pub after_flush : Bool → M Bool
  after_flush flushed =
      if flushed
      then rename job.temp_path job.final_path >>= after_rename
      else give_up job.temp_path

  after_rename-IsSettled :
      (w : World)
      → Fits cache row w.rows
      → str_eq job.final_path job.temp_path ≡ false
      → w.files job.temp_path ≡ some written
      → let v = (rename job.temp_path job.final_path w).1 in
        IsSettled job written row
          (after_rename (succeeds w.faults) v).0
          w
          (after_rename (succeeds w.faults) v).1
  after_rename-IsSettled w fits apart here =
      let v = (rename job.temp_path job.final_path w).1 in
      let kept = rename-IsKept job w in
      let still : Fits cache row v.rows = rw kept.rows fits in
      settles_after job written row _ w v _ kept (elim (Bool-cases (succeeds w.faults)) [
        | inl fine ↦
            rw fine
              (store_job-IsSettled v still (renamed_body w fine here) (renamed_away w fine apart))
        | inr failed ↦ rw failed (give_up-IsSettled job written row v)
      ])

  after_flush-IsSettled :
      (w : World)
      → Fits cache row w.rows
      → str_eq job.final_path job.temp_path ≡ false
      → let v = (flush job.temp_path written w).1 in
        IsSettled job written row
          (after_flush (succeeds w.faults) v).0
          w
          (after_flush (succeeds w.faults) v).1
  unfolding rename
  after_flush-IsSettled w fits apart =
      let v = (flush job.temp_path written w).1 in
      let kept = flush-IsKept job written w in
      let still : Fits cache row v.rows = rw kept.rows fits in
      settles_after job written row _ w v _ kept (elim (Bool-cases (succeeds w.faults)) [
        | inl fine ↦ rw fine (after_rename-IsSettled v still apart (flushed_body w fine))
        | inr failed ↦ rw failed (give_up-IsSettled job written row v)
      ])

-- Whichever calls fail, a commit of the writer, with nothing of the rest of the program between its
-- calls, into a table that has no limit or room for its row ends, and reports its failure as such:
-- no error is raised. If it committed, the final path holds exactly what was written, the temporary
-- file is gone, and its key selects the new row. In either case no other file is changed, and every
-- other key selects what it did before. The two paths are distinct.
pub commit_files-IsSettled :
    (json : Json) (order : Order) (cache : SqliteCache) (job : Job) (written : Bytes) (size : ℕ)
    (w : World)
    → Fits cache (to_row json (request_of job size)) w.rows
    → str_eq job.final_path job.temp_path ≡ false
    → let (r, w') = commit_files json order (sqlite_cache cache) job written size w in
      IsSettled job written (to_row json (request_of job size)) r w w'
unfolding commit_files flush
commit_files-IsSettled json order cache job written size w fits apart =
    after_flush-IsSettled json order cache job written size w fits apart
