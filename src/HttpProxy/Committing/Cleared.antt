-- ===== src/HttpProxy/Committing/Cleared.antt =====
-- What becomes of the temporary file when the writer of src/http_proxy/cache_pipeline.rs commits.
use http_cache.HttpProxy.Committing.Settled.{renamed_away}
use http_cache.HttpProxy.Committing.Placed.{onward_rename, onward_flush}
use http_cache.Body.{Bytes}
use http_cache.Cache.Backend.{sqlite_cache}
use http_cache.Cache.Sqlite.{Json, Order, SqliteCache}
use http_cache.Cache.Backend
use http_cache.Cache.Sqlite
use http_cache.HttpProxy.Committing.Steps.{after_store-IsEnded}
use http_cache.Cache.Sqlite.Files.{store-MakesNone}
use http_cache.HttpProxy.Committing.{
  Job, commit_amid, give_up, flush, rename, store_job, request_of,
}
use http_cache.Prelude.{
  [], ◌∷◌, ◌++◌, Bool, true, false, Bool-cases, inl, inr, ◌⊎◌, refl, ◌≡◌, none, some, ap, ◌∙◌,
  str_eq, sym, List, Str, Option, str_eq_refl, ℕ,
}
use http_cache.Cache.World.{World, later, succeeds, remove_file}

-- The last of the calls that were made failed.
abbrev pub LastFailed : World → World → Type 0
LastFailed w w' = (made : List (Option Str)) × (m : Str) × (w.faults ≡ made ++ (some m ∷ w'.faults))

abbrev pub IsCleared : Str → World → World → Type 0
IsCleared path w w' = (w'.files path ≡ none) ⊎ LastFailed w w'

pub first_failed :
    (faults : List (Option Str))
    → succeeds faults ≡ false
    → (m : Str) × (faults ≡ some m ∷ later faults)
first_failed [] h = cc
first_failed (none ∷ faults) h = cc
first_failed (some m ∷ faults) h = (m, refl)

one_call :
    (faults : List (Option Str))
    → (later faults ≡ faults) ⊎ ((fault : Option Str) × (faults ≡ fault ∷ later faults))
one_call [] = inl refl
one_call (fault ∷ faults) = inr (fault, refl)

-- A call in front.
pub behind_call :
    (path : Str) (w v w' : World)
    → v.faults ≡ later w.faults
    → IsCleared path v w'
    → IsCleared path w w'
behind_call path w v w' e (inl gone) = inl gone
behind_call path w v w' e (inr (made, m, last)) = elim (one_call w.faults) [
  | inl none_left ↦ inr (made, m, rw (← none_left, ← e) last)
  | inr (fault, first) ↦ inr (fault ∷ made, m, first ∙ ap (λ f. fault ∷ f) (rw e at last))
]

pub remove_file-IsCleared : (path : Str) (w : World) → IsCleared path w (remove_file path w).1
unfolding remove_file
remove_file-IsCleared path w = elim (Bool-cases (succeeds w.faults)) [
  | inl fine ↦ inl (rw (fine, str_eq_refl path) refl)
  | inr failed ↦ let (m, first) = first_failed w.faults failed in inr ([], m, first)
]

give_up-IsCleared : (path : Str) (w : World) → IsCleared path w (give_up path w).1
unfolding give_up
give_up-IsCleared path w = remove_file-IsCleared path w

-- A wait in front.
pub behind_gap :
    (path : Str) (w v w' : World) → v.faults ≡ w.faults → IsCleared path v w' → IsCleared path w w'
behind_gap path w v w' e (inl gone) = inl gone
behind_gap path w v w' e (inr (made, m, last)) = inr (made, m, sym e ∙ last)

module _ (json : Json) (order : Order) (cache : SqliteCache) (job : Job)
    (apart : str_eq job.final_path job.temp_path ≡ false) where
  store_job-temp :
      (size : ℕ) (w : World)
      → w.files job.temp_path ≡ none
      → (store_job json order (sqlite_cache cache) job size w).1.files job.temp_path ≡ none
  unfolding store_job Backend.store
  store_job-temp size w gone =
      let (r, v) = Sqlite.store json order cache (request_of job size) w in
      (after_store-IsEnded job.final_path r v).files job.temp_path apart
      ∙ store-MakesNone job.temp_path order json cache (request_of job size) w gone

  module _ (written : Bytes) (size : ℕ) where
    -- The temporary file is gone behind a rename that succeeds, and stays so while the writer waits.
    renamed_on :
        (w : World)
        → succeeds w.faults ≡ true
        → (job.while_storing.passes (rename job.temp_path job.final_path w).1).files job.temp_path
          ≡ none
    renamed_on w fine =
        job.while_storing.keeps_temp (rename job.temp_path job.final_path w).1
        ∙ renamed_away json order cache job written size w fine apart

    rename-faults : (w : World) → (rename job.temp_path job.final_path w).1.faults ≡ later w.faults
    unfolding rename
    rename-faults w = refl

    flush-faults : (w : World) → (flush job.temp_path written w).1.faults ≡ later w.faults
    unfolding flush
    flush-faults w = refl

    onward_rename-IsCleared :
        (w : World)
        → IsCleared job.temp_path w
            (onward_rename json order cache job size
              (succeeds w.faults)
              (rename job.temp_path job.final_path w).1).1
    onward_rename-IsCleared w =
        let v = (rename job.temp_path job.final_path w).1 in
        elim (Bool-cases (succeeds w.faults)) [
          | inl fine ↦
              rw fine (inl (store_job-temp size (job.while_storing.passes v) (renamed_on w fine)))
          | inr failed ↦ rw failed (
              behind_call job.temp_path w v (give_up job.temp_path v).1 (rename-faults w)
                (give_up-IsCleared job.temp_path v))
        ]

    onward_flush-IsCleared :
        (fine : Bool) (w v : World)
        → v.faults ≡ later w.faults
        → IsCleared job.temp_path w (onward_flush json order cache job size fine v).1
    unfolding rename
    onward_flush-IsCleared true w v e =
        let u = job.while_renaming.passes v in
        let next = (onward_flush json order cache job size true v).1 in
        behind_call job.temp_path w v next e (
          behind_gap job.temp_path v u next (job.while_renaming.keeps_faults v)
            (onward_rename-IsCleared u))
    onward_flush-IsCleared false w v e =
        behind_call job.temp_path w v (give_up job.temp_path v).1 e
          (give_up-IsCleared job.temp_path v)

    pub commit_amid-IsCleared :
        (w : World)
        → IsCleared job.temp_path w
            (commit_amid json order (sqlite_cache cache) job written size w).1
    unfolding commit_amid flush
    commit_amid-IsCleared w =
        onward_flush-IsCleared (succeeds w.faults) w (flush job.temp_path written w).1
          (flush-faults w)
