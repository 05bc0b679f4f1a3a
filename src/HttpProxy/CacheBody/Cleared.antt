-- ===== src/HttpProxy/CacheBody/Cleared.antt =====
-- What becomes of the temporary file of the writer of src/http_proxy/cache_pipeline.rs.
use http_cache.Prelude.Words.{u64_mod}
use http_cache.Body.{Bytes}
use http_cache.Cache.Backend.{sqlite_cache}
use http_cache.Cache.Sqlite.{Json, Order, SqliteCache}
use http_cache.HttpProxy.CacheWrite.{
  Pipeline, Phase, starting, receiving, checking, awaiting, discarded, committed, Settings,
}
use http_cache.HttpProxy.CacheBody.{
  turn_at, turn, receive_chunk, take_chunk, open_temp, test_abort, await_end, settle, finish_file,
  remove_temp, pass, create, write_all, Caching,
}
use http_cache.HttpProxy.Committing.{Job}
use http_cache.Prelude.{
  ◌==◌, [], ◌∷◌, ◌++◌, Bool, true, false, Bool-cases, inl, inr, ◌&&◌, refl, arith, if◌then◌else◌,
  ltb, ◌≡◌, none, some, str_eq, List, Option, ℕ, ◌+◌, length, ◌%◌,
}
use http_cache.Cache.World.{World, succeeds}
use http_cache.HttpProxy.Committing.Cleared.{
  IsCleared, first_failed, behind_call, remove_file-IsCleared, commit_amid-IsCleared,
}

abbrev pub is_over : Phase → Bool
is_over discarded = true
is_over committed = true
is_over _ = false

module _ (json : Json) (order : Order) (cache : SqliteCache) (job : Job) (settings : Settings)
    (apart : str_eq job.final_path job.temp_path ≡ false) where
  open settings use {max_object_size_bytes}

  remove_temp-IsCleared :
      (p : Pipeline) (w : World)
      → IsCleared job.temp_path w
          (remove_temp json order (sqlite_cache cache) job settings p w).world
  unfolding remove_temp
  remove_temp-IsCleared p w = remove_file-IsCleared job.temp_path w

  finish_file-IsCleared :
      (p : Pipeline) (w : World)
      → IsCleared job.temp_path w
          (finish_file json order (sqlite_cache cache) job settings p w).world
  unfolding finish_file
  finish_file-IsCleared p w =
      elim (Bool-cases (ltb 0 max_object_size_bytes && ltb max_object_size_bytes p.size)) [
        | inl too_large ↦ rw too_large (remove_temp-IsCleared p w)
        | inr small ↦ rw small (commit_amid-IsCleared json order cache job apart p.written p.size w)
      ]

  settle-IsCleared :
      (clean : Bool) (announced : Option ℕ) (p : Pipeline) (w : World)
      → IsCleared job.temp_path w
          (settle json order (sqlite_cache cache) job settings clean announced p w).world
  settle-IsCleared clean (some expected) p w = elim (Bool-cases (p.size == expected)) [
    | inl met ↦ rw met (finish_file-IsCleared p w)
    | inr missed ↦ rw missed (remove_temp-IsCleared p w)
  ]
  settle-IsCleared true none p w = finish_file-IsCleared p w
  settle-IsCleared false none p w = remove_temp-IsCleared p w

  -- Clears, if it ends the writer.
  abbrev Clears : World → Caching → Type 0
  Clears w c = is_over c.pipeline.phase ≡ true → IsCleared job.temp_path w c.world

  unless-Clears :
      (waits : Bool) (p : Pipeline) (w : World)
      → is_over p.phase ≡ false
      → Clears w (
          if waits
          then pass json order (sqlite_cache cache) job settings p w
          else settle json order
              (sqlite_cache cache)
              job
              settings
              false
              settings.content_length
              p
              w)
  unless-Clears true p w going h = cc
  unless-Clears false p w going h = settle-IsCleared false settings.content_length p w

  await_end-Clears :
      (completion : Option Bool) (p : Pipeline) (w : World)
      → is_over p.phase ≡ false
      → Clears w (await_end json order (sqlite_cache cache) job settings completion p w)
  await_end-Clears (some clean) p w going h = settle-IsCleared clean settings.content_length p w
  await_end-Clears none p w going h = unless-Clears p.completion_tx p w going h

  open_temp-Clears :
      (p : Pipeline) (w : World)
      → Clears w (open_temp json order (sqlite_cache cache) job settings p w)
  unfolding open_temp create
  open_temp-Clears p w h = elim (Bool-cases (succeeds w.faults)) [
    | inl fine ↦ let over = (rw fine at h) in cc
    | inr failed ↦ let (m, first) = first_failed w.faults failed in inr ([], m, first)
  ]

  test_abort-Clears :
      (p : Pipeline) (w : World)
      → Clears w (test_abort json order (sqlite_cache cache) job settings p w)
  unfolding test_abort
  test_abort-Clears p w h = ground (arith, remove_temp-IsCleared p w)

  chosen-Clears :
      (a b c : Bool) (w : World) (k₁ k₂ k₃ k₄ : Caching)
      → Clears w k₁
      → Clears w k₂
      → Clears w k₃
      → Clears w k₄
      → Clears w (if a then k₁ else if b then k₂ else if c then k₃ else k₄)
  chosen-Clears true b c w k₁ k₂ k₃ k₄ h₁ h₂ h₃ h₄ = h₁
  chosen-Clears false true c w k₁ k₂ k₃ k₄ h₁ h₂ h₃ h₄ = h₂
  chosen-Clears false false true w k₁ k₂ k₃ k₄ h₁ h₂ h₃ h₄ = h₃
  chosen-Clears false false false w k₁ k₂ k₃ k₄ h₁ h₂ h₃ h₄ = h₄

  discarded-Clears :
      (held : Bytes) (p : Pipeline) (w : World)
      → Clears w (
          remove_temp json order
            (sqlite_cache cache)
            job
            settings
            p
            (write_all job.temp_path held w).1)
  unfolding write_all
  discarded-Clears held p w h =
      let v = (write_all job.temp_path held w).1 in
      behind_call job.temp_path w v
        (remove_temp json order (sqlite_cache cache) job settings p v).world refl
        (remove_temp-IsCleared p v)

  take_chunk-Clears :
      (held chunk : Bytes) (p : Pipeline) (w : World)
      → is_over p.phase ≡ false
      → Clears w (take_chunk json order (sqlite_cache cache) job settings held chunk p w)
  unfolding take_chunk
  take_chunk-Clears held chunk p w going =
      let size = (p.size + length chunk) % u64_mod in
      let w' = (write_all job.temp_path held w).1 in
      chosen-Clears p.abort_flag _ (succeeds w.faults) w
        (pass json order (sqlite_cache cache) job settings (record p { phase = checking }) w)
        (pass json order (sqlite_cache cache) job settings
          (record p { abort_flag = true; phase = checking }) w)
        (pass json order (sqlite_cache cache) job settings
          (record p { size = size; written = p.written ++ chunk }) w')
        (remove_temp json order (sqlite_cache cache) job settings
          (record p { size = size; abort_flag = true }) w')
        (λ h. cc) (λ h. cc) (λ h. cc)
        (discarded-Clears held (record p { size = size; abort_flag = true }) w)

  receive_chunk-Clears :
      (held : Bytes) (queue : List Bytes) (p : Pipeline) (w : World)
      → is_over p.phase ≡ false
      → Clears w (receive_chunk json order (sqlite_cache cache) job settings held queue p w)
  receive_chunk-Clears held [] p w going = λ h. ground arith
  receive_chunk-Clears held (chunk ∷ rest) p w going =
      take_chunk-Clears held chunk (record p { queue = rest }) w going

  turn_at-Clears :
      (phase : Phase) (held : Bytes) (p : Pipeline) (w : World)
      → p.phase ≡ phase
      → is_over phase ≡ false
      → Clears w (turn_at json order (sqlite_cache cache) job settings phase held p w)
  turn_at-Clears starting held p w e going = open_temp-Clears p w
  turn_at-Clears receiving held p w e going = receive_chunk-Clears held p.queue p w (rw e refl)
  turn_at-Clears checking held p w e going = test_abort-Clears p w
  turn_at-Clears awaiting held p w e going = await_end-Clears p.completion p w (rw e refl)
  turn_at-Clears discarded held p w e going = cc
  turn_at-Clears committed held p w e going = cc

  -- The turn with which the writer ends, committed or not, and whichever calls fail in it: the
  -- temporary file is gone, unless the last call of that turn failed. The two paths of the job are
  -- distinct.
  pub turn-Clears :
      (held : Bytes) (p : Pipeline) (w : World)
      → let c = turn json order (sqlite_cache cache) job settings held p w in
        is_over p.phase ≡ false
        → is_over c.pipeline.phase ≡ true
        → IsCleared job.temp_path w c.world
  unfolding turn
  turn-Clears held p w = turn_at-Clears p.phase held p w refl
