-- ===== src/HttpProxy/Committing/Placed.antt =====
-- What a commit of the writer of src/http_proxy/cache_pipeline.rs leaves in place, where the limit of
-- the table may make its store evict rows.
use http_cache.Body.{Bytes}
use http_cache.Cache.Backend
use http_cache.Cache.Backend.{sqlite_cache}
use http_cache.Cache.Sqlite
use http_cache.Cache.Sqlite.{Json, Order, SqliteCache, to_row}
use http_cache.Cache.Sqlite.Calm.{calm, store-calm}
use http_cache.Cache.Sqlite.Files.{store-MakesNone}
use http_cache.Cache.Sqlite.Stays.{Stays, store-IsHeld}
use http_cache.Cache.Table.{select_key}
use http_cache.Cache.World.{World, M, succeeds, ◌>>=◌, ◌>>◌}
use http_cache.Errors.{Result, ok}
use http_cache.HttpProxy.Committing.{
  Job, commit_files, flush, give_up, rename, request_of, store_job, let_pass, commit_amid,
  after_store, quiet,
}
use http_cache.HttpProxy.Committing.Settled.{flushed_body, renamed_away, renamed_body}
use http_cache.HttpProxy.Committing.Steps.{after_store-IsEnded}
use http_cache.Prelude.{
  ◌≡◌, ◌∙◌, [], sym, subst, if◌then◌else◌, ap, Bool, Bool-cases, false, inl, inr, none, refl, some,
  str_eq, true, ℕ,
}

module _ (json : Json) (order : Order) (cache : SqliteCache) (job : Job) (size : ℕ) where
  abbrev pub onward_rename : Bool → M Bool
  onward_rename renamed =
      if renamed
      then let_pass json order (sqlite_cache cache) job job.while_storing
        >> store_job json order (sqlite_cache cache) job size
      else give_up job.temp_path

  abbrev pub onward_flush : Bool → M Bool
  onward_flush flushed =
      if flushed
      then let_pass json order (sqlite_cache cache) job job.while_renaming
        >> (rename job.temp_path job.final_path >>= onward_rename)
      else give_up job.temp_path

module _ (json : Json) (order : Order) (cache : SqliteCache) (job : Job) (written : Bytes)
    (size : ℕ) where
  -- A commit that succeeds leaves the bytes under the final path, no temporary file, and the row.
  abbrev pub IsPlaced : Result Bool × World → Type 0
  IsPlaced o =
      let row = to_row json (request_of job size) in
      o.0 ≡ ok true
      → (o.1.files job.final_path ≡ some written)
        × (o.1.files job.temp_path ≡ none)
        × (select_key row.key o.1.rows ≡ some row)

  -- The world behind a rename, and that in which the writer then stores: it finds the file that it
  -- has renamed, and what its store evicts is neither its row nor that file.
  abbrev pub IsSpared : World → Type 0
  IsSpared v =
      let u = job.while_storing.passes v in
      (u.files job.final_path ≡ v.files job.final_path)
      × Stays order cache (to_row json (request_of job size)) job.final_path u.rows

  -- The world behind the rename of a commit.
  abbrev pub renamed_in : World → World
  renamed_in w =
      (rename job.temp_path job.final_path
        (job.while_renaming.passes (flush job.temp_path written w).1)).1

  give_up-IsPlaced : (w : World) → IsPlaced (give_up job.temp_path w)
  unfolding give_up
  give_up-IsPlaced w h = cc

  store_job-IsPlaced :
      (w : World)
      → Stays order cache (to_row json (request_of job size)) job.final_path w.rows
      → str_eq job.final_path job.temp_path ≡ false
      → w.files job.final_path ≡ some written
      → w.files job.temp_path ≡ none
      → IsPlaced (store_job json order (sqlite_cache cache) job size w)
  unfolding store_job Backend.store
  store_job-IsPlaced w stays apart body gone h =
      let row = to_row json (request_of job size) in
      let (r, v) = Sqlite.store json order cache (request_of job size) w in
      let ended = after_store-IsEnded job.final_path r v in
      let (same, succeeded) = ended.done h in
      let held =
        store-IsHeld json order cache (request_of job size) job.final_path written w body stays
          succeeded in
      (
        ap (λ f. f job.final_path) same ∙ held.1,
        ap (λ f. f job.temp_path) same
            ∙ store-MakesNone job.temp_path order json cache (request_of job size) w gone,
        ap (select_key row.key) ended.rows ∙ held.0,
      )

  onward_rename-IsPlaced :
      (w : World)
      → let v = (rename job.temp_path job.final_path w).1 in
        IsSpared v
        → str_eq job.final_path job.temp_path ≡ false
        → w.files job.temp_path ≡ some written
        → IsPlaced (onward_rename json order cache job size (succeeds w.faults) v)
  onward_rename-IsPlaced w spared apart here =
      let v = (rename job.temp_path job.final_path w).1 in
      elim (Bool-cases (succeeds w.faults)) [
        | inl fine ↦ rw fine (
            store_job-IsPlaced (job.while_storing.passes v) spared.1 apart
              (spared.0 ∙ renamed_body json order cache job written size w fine here)
              (job.while_storing.keeps_temp v
                ∙ renamed_away json order cache job written size w fine apart))
        | inr failed ↦ rw failed (give_up-IsPlaced v)
      ]

  pub commit_amid-IsPlaced :
      (w : World)
      → IsSpared (renamed_in w)
      → str_eq job.final_path job.temp_path ≡ false
      → IsPlaced (commit_amid json order (sqlite_cache cache) job written size w)
  unfolding commit_amid
  commit_amid-IsPlaced w spared apart = go (succeeds w.faults) refl
    where
      go :
          (fine : Bool)
          → succeeds w.faults ≡ fine
          → IsPlaced (onward_flush json order cache job size fine (flush job.temp_path written w).1)
      go true fine =
          let v = (flush job.temp_path written w).1 in
          onward_rename-IsPlaced (job.while_renaming.passes v) spared apart (
            job.while_renaming.keeps_temp v ∙ flushed_body json order cache job written size w fine)
      go false failed = give_up-IsPlaced (flush job.temp_path written w).1

  store_job_succeeds :
      (w : World)
      → w.faults ≡ []
      → (store_job json order (sqlite_cache cache) job size w).0 ≡ ok true
  unfolding store_job Backend.store
  store_job_succeeds w calm =
      let same : w ≡ record w { faults = [] } = ap (λ f. record w { faults = f }) calm in
      subst
        (λ v.
          (after_store job.final_path (Sqlite.store json order cache (request_of job size) v)).0
          ≡ ok true)
        (sym same) (rw (store-calm order json cache (request_of job size) w.rows w.files) refl)

  rename-calm : (w : World) → w.faults ≡ [] → (rename job.temp_path job.final_path w).1.faults ≡ []
  unfolding rename
  rename-calm w calm = rw calm refl

  onward_rename-succeeds :
      (w : World)
      → w.faults ≡ []
      → (onward_rename json order cache job size
          (succeeds w.faults)
          (rename job.temp_path job.final_path w).1).0
        ≡ ok true
  onward_rename-succeeds w calm =
      let v = (rename job.temp_path job.final_path w).1 in
      let v_calm = rename-calm w calm in
      let fine : succeeds w.faults ≡ true = rw calm refl in
      let still = job.while_storing.keeps_faults v ∙ v_calm in
      rw fine (store_job_succeeds (job.while_storing.passes v) still)

  -- When no call fails, the writer commits, whatever comes between its calls.
  pub commit_amid_succeeds :
      (w : World)
      → w.faults ≡ []
      → (commit_amid json order (sqlite_cache cache) job written size w).0 ≡ ok true
  unfolding commit_amid flush
  commit_amid_succeeds w calm =
      let v = (flush job.temp_path written w).1 in
      let v_calm : v.faults ≡ [] = rw calm refl in
      let still = job.while_renaming.keeps_faults v ∙ v_calm in
      let fine : succeeds w.faults ≡ true = rw calm refl in
      go (succeeds w.faults) fine (onward_rename-succeeds (job.while_renaming.passes v) still)
    where
      go :
          (fine : Bool)
          → fine ≡ true
          → (onward_rename json order cache job size
              (succeeds (job.while_renaming.passes (flush job.temp_path written w).1).faults)
              (rename job.temp_path job.final_path
                (job.while_renaming.passes (flush job.temp_path written w).1)).1).0
            ≡ ok true
          → (onward_flush json order cache job size fine (flush job.temp_path written w).1).0
            ≡ ok true
      go true e h = h
      go false e h = cc

-- Where the rest of the program keeps still between the calls.
abbrev quietly : Job → Job
quietly job = record job {
  while_renaming = quiet job.temp_path;
  while_storing = quiet job.temp_path;
}

-- Then the commit is `commit_files`.
pub commit_amid-quietly :
    (json : Json) (order : Order) (cache : SqliteCache) (job : Job) (written : Bytes) (size : ℕ)
    (w : World)
    → commit_amid json order (sqlite_cache cache) (quietly job) written size w
      ≡ commit_files json order (sqlite_cache cache) job written size w
unfolding commit_amid commit_files store_job
commit_amid-quietly json order cache job written size w = refl
