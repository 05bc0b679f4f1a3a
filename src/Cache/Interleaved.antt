-- ===== src/Cache/Interleaved.antt =====
-- src/cache.rs: a lookup among other operations. `get` reads its row, looks at the file, and writes
-- in three separate tasks, and statements of other operations run between them.
pub mod Sound
pub mod Alone
use http_cache.Body.{Bytes}
use http_cache.Cache.Table.{upsert, delete_key, touch_key}
use mathlib.Core.List.{Memᴰ}
use http_cache.Prelude.Int.{ℤ, leb_ℤ}
use http_cache.Errors.{Result, err, ok}
use http_cache.Cache.World.{World}
use http_cache.Cache.{CacheEntry, CacheStoreRequest}
use http_cache.Prelude.{none, some, Option, Bool, Str, if◌then◌else◌, List}
use http_cache.Cache.Sqlite.{Json, to_row, to_entry, select_entry, is_dangling, touch, delete}

-- Where the lookup stands.
pub data Place : Type 0 where
  selecting : Place
  inspecting : CacheEntry → Place
  touching : CacheEntry → Place
  discarding : CacheEntry → Place
  ended : Result (Option CacheEntry) → Place

pub record Moment : Type 0 where
  pub world : World
  pub place : Place

abbrev pub after_select : Result (Option CacheEntry) → Place
after_select (err e) = ended (err e)
after_select (ok none) = ended (ok none)
after_select (ok (some entry)) = inspecting entry

abbrev pub after_check : CacheEntry → Result Bool → Place
after_check entry (err e) = ended (err e)
after_check entry (ok gone) = if gone then discarding entry else touching entry

-- The end of the last task, given what the lookup then answers.
abbrev pub after_task : Option CacheEntry → Result (Unit {0}) → Place
after_task answer (err e) = ended (err e)
after_task answer (ok u) = ended (ok answer)

-- A statement of another operation, or any change of the files. The rows that the others write
-- are those of the requests listed.
pub data Other (json : Json) (stored : List CacheStoreRequest) (w : World) : World → Type 0 where
  upserts :
      (request : CacheStoreRequest)
      → Memᴰ request stored
      → Other json stored w (record w { rows = upsert (to_row json request) w.rows })
  deletes : (k : Str) → Other json stored w (record w { rows = delete_key k w.rows })
  touches : (t : ℤ) (k : Str) → Other json stored w (record w { rows = touch_key t k w.rows })
  changes_files :
      (files : Str → Option Bytes) (faults : List (Option Str))
      → Other json stored w (record w { files = files; faults = faults })

module _ (json : Json) (now : ℤ) (key : Str) where
  -- The lookup's next step.
  unfoldable pub advance : Place → World → Moment
  unfolding select_entry is_dangling touch delete
  advance selecting w =
      let (r, w') = select_entry json key w in record { world = w'; place = after_select r }
  advance (inspecting entry) w =
      if leb_ℤ entry.expires_at now
      then record { world = w; place = discarding entry }
      else (let (gone, w') = is_dangling entry.body_path w in
          record { world = w'; place = after_check entry gone })
  advance (touching entry) w =
      let (r, w') = touch now entry.key w in
      record { world = w'; place = after_task (some (record entry { last_access = now })) r }
  advance (discarding entry) w =
      let (r, w') = delete entry.key w in record { world = w'; place = after_task none r }
  advance (ended r) w = record { world = w; place = ended r }

  pub data Turn (stored : List CacheStoreRequest) (m : Moment) : Moment → Type 0 where
    own : Turn stored m (advance m.place m.world)
    other : {w : World} → Other json stored m.world w → Turn stored m (record m { world = w })

  pub data Course (stored : List CacheStoreRequest) (m : Moment) : Moment → Type 0 where
    here : Course stored m m
    onward : {n o : Moment} → Course stored m n → Turn stored n o → Course stored m o
