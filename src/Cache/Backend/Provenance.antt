-- ===== src/Cache/Backend/Provenance.antt =====
-- Where the entries that the cache of src/cache.rs answers come from.
use http_cache.Cache.Table.Lookup.{select_key-key}
use http_cache.Config.{CacheConfig}
use http_cache.Cache.Backend.{Cache, build_cache, sqlite_cache}
use http_cache.Errors.{Result, ok}
use http_cache.Prelude.Int.{ℤ, ◌<ℤ◌}
use http_cache.Prelude.Words.{u64_mod, as_u64-as_i64}
use http_cache.Cache.Table.{delete_key, touch_key, upsert, select_key, touched}
use http_cache.Cache.World.{Row, World}
use http_cache.Cache.{CacheStoreRequest, Clock, CacheEntry, cache_key, now_unix}
use http_cache.Cache.Sqlite.{Json, to_row, Order, to_entry}
use http_cache.Prelude.{
  some, ◌∷◌, inl, inr, List, ◌≡◌, All, Str, Bool-cases, str_eq, ap, subst, sym, str_eq_sound, [],
  refl, arith, ◌∙◌, ◌<◌,
}
use mathlib.Core.List.{Memᴰ}
use http_cache.Cache.Backend.Histories.{
  Call, gets, stores, deletes, fails, run, Keeps, run_keeps, build_cache-rows,
}
use http_cache.Cache.Sqlite.Hits.{get-IsHit}
use http_cache.Cache.Backend
use http_cache.Cache.Backend.{noop_cache}
use http_cache.Cache.Sqlite

pub with_world : {A : Type 0} (r : Result A × World) (a : Result A) → r.0 ≡ a → r ≡ (a, r.1)
with_world (b, w) a h = rw h

-- The requests that a history stores.
abbrev pub requests : List Call → List CacheStoreRequest
requests [] = []
requests (stores entry ∷ calls) = entry ∷ requests calls
requests (_ ∷ calls) = requests calls

-- An entry has, field by field, what was asked to be stored: the headers if they can be printed, the
-- size if it is a u64, and a time of last access of its own.
pub record IsEntryOf (json : Json) (request : CacheStoreRequest) (now : ℤ) (e : CacheEntry)
    : Type 0 where
  pub same_key : e.key ≡ request.key
  pub same_method : e.method ≡ request.method
  pub same_url : e.url ≡ request.url
  pub same_status : e.status ≡ request.status
  pub same_headers :
      (text : Str) → json.to_json request.headers ≡ some text → e.headers ≡ request.headers
  pub same_path : e.body_path ≡ request.body_path
  pub same_size : request.body_size < u64_mod → e.body_size ≡ request.body_size
  pub same_created : e.created_at ≡ request.created_at
  pub same_expires : e.expires_at ≡ request.expires_at
  pub accessed : e.last_access ≡ now

read_back-IsEntryOf :
    (json : Json) (request : CacheStoreRequest) (now : ℤ)
    → IsEntryOf json request now
        (record (to_entry json (to_row json request)) { last_access = now })
unfolding to_row to_entry
read_back-IsEntryOf json request now = record {
  same_key = refl;
  same_method = refl;
  same_url = refl;
  same_status = refl;
  same_headers =
      λ text printed. rw (printed, json.from_json-to_json request.headers text printed) refl;
  same_path = refl;
  same_size = λ small. as_u64-as_i64 request.body_size small;
  same_created = refl;
  same_expires = refl;
  accessed = refl;
}

pub read-IsEntryOf :
    (json : Json) (request : CacheStoreRequest) (now : ℤ) (e : CacheEntry)
    → e ≡ record (to_entry json (to_row json request)) { last_access = now }
    → IsEntryOf json request now e
read-IsEntryOf json request now e same =
    subst (IsEntryOf json request now) (sym same) (read_back-IsEntryOf json request now)

module _ (json : Json) (stored : List CacheStoreRequest) where
  -- A row is that of a stored request, but for its time of last access.
  abbrev pub IsStoredRow : Row → Type 0
  IsStoredRow r =
      (request : CacheStoreRequest) × Memᴰ request stored
      × (t : ℤ) × (r ≡ record (to_row json request) { last_access = t })

  abbrev pub AreStored : List Row → Type 0
  AreStored = All IsStoredRow

  pub delete_key-AreStored :
      (key : Str) (rows : List Row) → AreStored rows → AreStored (delete_key key rows)
  unfolding delete_key
  delete_key-AreStored key [] a = tt
  delete_key-AreStored key (r ∷ rows) (s, a) = elim (Bool-cases (str_eq r.key key)) [
    | inl same ↦ rw same (delete_key-AreStored key rows a)
    | inr other ↦ rw other (s, delete_key-AreStored key rows a)
  ]

  touched-IsStoredRow :
      (now : ℤ) (key : Str) (r : Row) → IsStoredRow r → IsStoredRow (touched now key r)
  touched-IsStoredRow now key r (request, i, t, e) = elim (Bool-cases (str_eq r.key key)) [
    | inl same ↦ rw same (request, i, now, ap (λ (q : Row). record q { last_access = now }) e)
    | inr other ↦ rw other (request, i, t, e)
  ]

  pub touch_key-AreStored :
      (now : ℤ) (key : Str) (rows : List Row) → AreStored rows → AreStored (touch_key now key rows)
  unfolding touch_key
  touch_key-AreStored now key [] a = tt
  touch_key-AreStored now key (r ∷ rows) (s, a) =
      (touched-IsStoredRow now key r s, touch_key-AreStored now key rows a)

  rekeyed : (row r : Row) → r.key ≡ row.key → record row { key = r.key } ≡ row
  rekeyed row r e = rw e

  pub row_of :
      (entry : CacheStoreRequest)
      → to_row json entry ≡ record (to_row json entry) { last_access = entry.created_at }
  unfolding to_row
  row_of entry = refl

  pub upsert-AreStored :
      (row : Row) (rows : List Row) → IsStoredRow row → AreStored rows → AreStored (upsert row rows)
  unfolding upsert
  upsert-AreStored row [] new a = (new, tt)
  upsert-AreStored row (r ∷ rows) new (s, a) = elim (Bool-cases (str_eq r.key row.key)) [
    | inl same ↦
        rw same (subst IsStoredRow (sym (rekeyed row r (str_eq_sound r.key row.key same))) new, a)
    | inr other ↦ rw other (s, upsert-AreStored row rows new a)
  ]

  pub select_key-IsStoredRow :
      (key : Str) (rows : List Row) (r : Row)
      → AreStored rows
      → select_key key rows ≡ some r
      → IsStoredRow r
  unfolding select_key
  select_key-IsStoredRow key [] r a h = cc
  select_key-IsStoredRow key (q ∷ rows) r (s, a) h = elim (Bool-cases (str_eq q.key key)) [
    | inl same ↦ let e : q ≡ r = ground arith in subst IsStoredRow e s
    | inr other ↦ select_key-IsStoredRow key rows r a (rw other at h)
  ]

  -- Every request that is stored is among those.
  stored_kept :
      (order : Order) (calls : List Call)
      → ((request : CacheStoreRequest) → Memᴰ request (requests calls) → Memᴰ request stored)
      → All (Keeps AreStored delete_key-AreStored touch_key-AreStored json order) calls
  stored_kept order [] among = tt
  stored_kept order (stores entry ∷ calls) among = (
    λ rows.
        upsert-AreStored (to_row json entry) rows
          (entry, among entry (Memᴰ.head refl), entry.created_at, row_of entry),
    stored_kept order calls (λ request i. among request (Memᴰ.tail i)),
  )
  stored_kept order (gets clock method url ∷ calls) among = (tt, stored_kept order calls among)
  stored_kept order (deletes key ∷ calls) among = (tt, stored_kept order calls among)
  stored_kept order (fails faults ∷ calls) among = (tt, stored_kept order calls among)

  -- What a lookup answers, of an entry under a key.
  abbrev pub IsAnswerOf : Clock → Str → Str → CacheEntry → Type 0
  IsAnswerOf clock method url e =
      (request : CacheStoreRequest) × Memᴰ request stored
      × (request.key ≡ cache_key method url)
      × (now_unix clock <ℤ request.expires_at)
      × IsEntryOf json request (now_unix clock) e

  hit-IsAnswerOf :
      (clock : Clock) (method url : Str) (w : World) (e : CacheEntry)
      → AreStored w.rows
      → (Sqlite.get json clock method url w).0 ≡ ok (some e)
      → IsAnswerOf clock method url e
  unfolding to_row to_entry
  hit-IsAnswerOf clock method url w e a h =
      let (r, found, is_hit) =
        get-IsHit json clock method url w (Sqlite.get json clock method url w).1 e
          (with_world _ (ok (some e)) h) in
      let (request, i, t, same) = select_key-IsStoredRow (cache_key method url) w.rows r a found in
      let seen = λ (q : Row). record (to_entry json q) { last_access = now_unix clock } in
      (
        request,
        i,
        sym (ap (λ (q : Row). q.key) same) ∙ select_key-key (cache_key method url) w.rows r found,
        subst (λ (q : Row). now_unix clock <ℤ q.expires_at) same is_hit.fresh,
        read-IsEntryOf json request (now_unix clock) e (is_hit.entry ∙ ap seen same),
      )

any_hit-IsAnswerOf :
    (json : Json) (order : Order) (stored : List CacheStoreRequest) (cache : Cache) (clock : Clock)
    (method url : Str) (w : World) (e : CacheEntry)
    → AreStored json stored w.rows
    → (Backend.get json order cache clock method url w).0 ≡ ok (some e)
    → IsAnswerOf json stored clock method url e
unfolding Backend.get
any_hit-IsAnswerOf json order stored noop_cache clock method url w e a h = cc
any_hit-IsAnswerOf json order stored (sqlite_cache c) clock method url w e a h =
    hit-IsAnswerOf json stored clock method url w e a h

-- Whatever cache `build_cache` makes over a table without rows, and whatever lookups, stores and
-- deletions follow, with library calls failing at any points: an entry that a lookup then answers
-- comes from one request that was stored, under the key that is looked up, which expires later than
-- now. It has that request's key, method, URL, status, body path, time of creation and expiry, its
-- headers if they can be printed, and its size if that is a u64; its time of last access is that of
-- the lookup.
pub run-IsAnswerOf :
    (json : Json) (order : Order) (config : CacheConfig) (w : World) (cache : Cache)
    (calls : List Call) (clock : Clock) (method url : Str) (e : CacheEntry)
    → w.rows ≡ []
    → (build_cache config w).0 ≡ ok cache
    → (Backend.get json order cache clock method url
        (run json order cache calls (build_cache config w).1)).0
      ≡ ok (some e)
    → IsAnswerOf json (requests calls) clock method url e
run-IsAnswerOf json order config w cache calls clock method url e empty built h =
    let P = AreStored json (requests calls) in
    let no_rows : P (build_cache config w).1.rows = rw (build_cache-rows config w, empty) tt in
    any_hit-IsAnswerOf json order (requests calls) cache clock method url _ e
      (run_keeps P (delete_key-AreStored json (requests calls))
        (touch_key-AreStored json (requests calls)) json order cache calls (build_cache config w).1
        (stored_kept json (requests calls) order calls (λ request i. i)) no_rows)
      h
