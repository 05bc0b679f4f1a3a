-- ===== src/Cache/Interleaved/Sound.antt =====
-- src/cache.rs: what a lookup answers when other operations run between its tasks.
use http_cache.Cache.Sqlite.Rows.{touch_keeps, delete_keeps}
use http_cache.Cache.Table.Lookup.{select_key-key}
use http_cache.Errors.{ok, err, Result, ProxyError}
use http_cache.Cache.Table.{select_key}
use http_cache.Cache.Backend.Provenance.{
  AreStored, upsert-AreStored, select_key-IsStoredRow, row_of, delete_key-AreStored,
  touch_key-AreStored, IsAnswerOf, read-IsEntryOf,
}
use mathlib.Core.List.{Memᴰ}
use http_cache.Cache.World.{World, Row}
use http_cache.Cache.{CacheStoreRequest, CacheEntry, Clock, now_unix, cache_key}
use http_cache.Cache.Sqlite.{Json, to_row, to_entry}
use http_cache.Prelude.{
  some, none, ◌≡◌, ◌∙◌, List, Str, sym, subst, ap, arith, inl, inr, Bool-cases, Option-cases, true,
  false, Option, Bool, ◌⊎◌,
}
use http_cache.Cache.Interleaved.{
  selecting, inspecting, touching, discarding, ended, upserts, deletes, touches, changes_files,
  here, onward, own, other, Place, Moment, Turn, Course, Other, advance, after_select, after_check,
  after_task,
}
use http_cache.Cache.Sqlite.Hits.{select_entry-found, is_dangling-HasBody}
use mathlib.Core.Option
use http_cache.Prelude.Int.{ℤ, ◌<ℤ◌, leb_ℤ}

module _ (json : Json) (stored : List CacheStoreRequest) (now : ℤ) (key : Str) where
  -- An entry that was read from the row of a stored request under the key.
  abbrev IsRead : CacheEntry → Type 0
  IsRead e =
      (request : CacheStoreRequest) × Memᴰ request stored
      × (request.key ≡ key)
      × (t : ℤ) × (e ≡ record (to_entry json (to_row json request)) { last_access = t })

  abbrev pub IsAnswer : CacheEntry → Type 0
  IsAnswer e =
      (request : CacheStoreRequest) × Memᴰ request stored
      × (request.key ≡ key)
      × (now <ℤ request.expires_at)
      × (e ≡ record (to_entry json (to_row json request)) { last_access = now })

  -- What is known of the entry that the lookup holds.
  abbrev IsKnown : Place → Type 0
  IsKnown selecting = Unit
  IsKnown (inspecting e) = IsRead e
  IsKnown (touching e) = IsRead e × (now <ℤ e.expires_at)
  IsKnown (discarding e) = Unit
  IsKnown (ended (ok (some e))) = IsAnswer e
  IsKnown (ended (ok none)) = Unit
  IsKnown (ended (err e)) = Unit

  record IsSound (m : Moment) : Type 0 where
    rows : AreStored json stored m.world.rows
    place : IsKnown m.place

  IsRead-row :
      (rows : List Row) (r : Row)
      → AreStored json stored rows
      → select_key key rows ≡ some r
      → IsRead (to_entry json r)
  unfolding to_row to_entry
  IsRead-row rows r a found =
      let (request, i, t, same) = select_key-IsStoredRow json stored key rows r a found in
      (
        request,
        i,
        sym (ap (λ (q : Row). q.key) same) ∙ select_key-key key rows r found,
        t,
        ap (to_entry json) same,
      )

  other-AreStored :
      (w v : World)
      → Other json stored w v
      → AreStored json stored w.rows
      → AreStored json stored v.rows
  other-AreStored w v (upserts request i) a =
      upsert-AreStored json stored (to_row json request) w.rows
        (request, i, request.created_at, row_of json stored request) a
  other-AreStored w v (deletes k) a = delete_key-AreStored json stored k w.rows a
  other-AreStored w v (touches t k) a = touch_key-AreStored json stored t k w.rows a
  other-AreStored w v (changes_files files faults) a = a

  -- The lookup's own steps.
  select-IsKnown :
      (rows : List Row) (found : Result (Option CacheEntry))
      → AreStored json stored rows
      → (found ≡ ok (Option.map (to_entry json) (select_key key rows)))
        ⊎ ((x : ProxyError) × (found ≡ err x))
      → IsKnown (after_select found)
  select-IsKnown rows found a (inr (x, failed)) = rw failed tt
  select-IsKnown rows found a (inl read) = elim (Option-cases (select_key key rows)) [
    | inl missing ↦ rw (read, missing) tt
    | inr (r, there) ↦ rw (read, there) (IsRead-row rows r a there)
  ]

  check-IsKnown :
      (e : CacheEntry) (gone : Result Bool)
      → IsRead e
      → now <ℤ e.expires_at
      → IsKnown (after_check e gone)
  check-IsKnown e (err x) known fresh = tt
  check-IsKnown e (ok true) known fresh = tt
  check-IsKnown e (ok false) known fresh = (known, fresh)

  touched-IsAnswer :
      (e : CacheEntry) → IsRead e → now <ℤ e.expires_at → IsAnswer (record e { last_access = now })
  unfolding to_row to_entry
  touched-IsAnswer e (request, i, k, t, same) fresh = (
    request,
    i,
    k,
    subst (λ (q : CacheEntry). now <ℤ q.expires_at) same fresh,
    ap (λ (q : CacheEntry). record q { last_access = now }) same,
  )

  task-IsKnown :
      (e : CacheEntry) (r : Result (Unit {0})) → IsAnswer e → IsKnown (after_task (some e) r)
  task-IsKnown e (err x) known = tt
  task-IsKnown e (ok u) known = known

  gone-IsKnown : (r : Result (Unit {0})) → IsKnown (after_task none r)
  gone-IsKnown (err x) = tt
  gone-IsKnown (ok u) = tt

  own-IsSound :
      (place : Place) (w : World)
      → IsSound (record { world = w; place = place })
      → IsSound (advance json now key place w)
  unfolding advance
  own-IsSound selecting w s =
      let (kept, _, result) = select_entry-found json key w in
      record { rows = rw kept s.rows; place = select-IsKnown w.rows _ s.rows result }
  own-IsSound (inspecting e) w s = elim (Bool-cases (leb_ℤ e.expires_at now)) [
    | inl old ↦ rw old (record { rows = s.rows; place = tt })
    | inr live ↦ rw live (record {
      rows = rw (is_dangling-HasBody e.body_path w).0 s.rows;
      place = check-IsKnown e _ s.place (ground arith);
    })
  ]
  own-IsSound (touching e) w s = record {
    rows =
        touch_keeps (AreStored json stored) (delete_key-AreStored json stored)
          (touch_key-AreStored json stored) now e.key w s.rows;
    place =
        task-IsKnown (record e { last_access = now }) _ (touched-IsAnswer e s.place.0 s.place.1);
  }
  own-IsSound (discarding e) w s = record {
    rows =
        delete_keeps (AreStored json stored) (delete_key-AreStored json stored)
          (touch_key-AreStored json stored) e.key w s.rows;
    place = gone-IsKnown _;
  }
  own-IsSound (ended r) w s = s

  Turn-IsSound : (m n : Moment) → Turn json now key stored m n → IsSound m → IsSound n
  Turn-IsSound m n own s = own-IsSound m.place m.world s
  Turn-IsSound m n (other {w} o) s = record {
    rows = other-AreStored m.world w o s.rows;
    place = s.place;
  }

  Course-IsSound : (m n : Moment) → Course json now key stored m n → IsSound m → IsSound n
  Course-IsSound m n here s = s
  Course-IsSound m n (onward {n = between} c t) s =
      Turn-IsSound between n t (Course-IsSound m between c s)

-- A lookup that starts over rows of stored requests, with statements of other operations between
-- its tasks: entries stored, deleted and touched, files and failures changed in any way. An entry
-- that it then answers comes from one stored request, under the key that is looked up, which expires
-- later than now. It has that request's key, method, URL, status, body path, time of creation and
-- expiry, its headers if they can be printed, and its size if that is a u64; its time of last access
-- is that of the lookup.
pub Course-IsAnswerOf :
    (json : Json) (stored : List CacheStoreRequest) (clock : Clock) (method url : Str)
    (w w' : World) (e : CacheEntry)
    → AreStored json stored w.rows
    → Course json
        (now_unix clock)
        (cache_key method url)
        stored
        (record { world = w; place = selecting })
        (record { world = w'; place = ended (ok (some e)) })
    → IsAnswerOf json stored clock method url e
Course-IsAnswerOf json stored clock method url w w' e a c =
    let (request, i, k, fresh, same) =
      (Course-IsSound json stored (now_unix clock) (cache_key method url) _ _ c
        (record { rows = a; place = tt })).place in
    (request, i, k, fresh, read-IsEntryOf json request (now_unix clock) e same)
