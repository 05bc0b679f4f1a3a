-- ===== src/Cache/Interleaved/Alone.antt =====
-- src/cache.rs: the steps of a lookup among other operations are those of `get`.
use http_cache.Cache.World.{World, ◌>>=◌}
use http_cache.Cache.{CacheEntry, Clock, now_unix, cache_key}
use http_cache.Cache.Sqlite.{Json, hit, discard, answer, is_dangling, get, select_entry}
use http_cache.Cache.Interleaved.{
  selecting, inspecting, touching, discarding, ended, Moment, advance, after_select, after_check,
}
use http_cache.Prelude.{
  if◌then◌else◌, ◌≡◌, some, none, inl, inr, Bool-cases, Str, arith, refl, Option, true, false, Bool,
}
use http_cache.Prelude.Int.{ℤ, leb_ℤ}
use http_cache.Errors.{Result, ok, err}

module _ (json : Json) (now : ℤ) (key : Str) where
  abbrev pub next : Moment → Moment
  next m = advance json now key m.place m.world

  abbrev pub end_of : Result (Option CacheEntry) × World → Moment
  end_of (r, w) = record { world = w; place = ended r }

  touching-alone :
      (e : CacheEntry) (w : World)
      → next (record { world = w; place = touching e }) ≡ end_of (hit now e w)
  unfolding advance hit
  touching-alone e w = ground arith

  discarding-alone :
      (e : CacheEntry) (w : World)
      → next (record { world = w; place = discarding e }) ≡ end_of (discard e w)
  unfolding advance discard
  discarding-alone e w = ground arith

  -- After the look at the file.
  checked-alone :
      (e : CacheEntry) (gone : Result Bool) (w : World)
      → next (record { world = w; place = after_check e gone })
        ≡ end_of (◌>>=◌ (λ _. (gone, w)) (λ (b : Bool). if b then discard e else hit now e) w)
  unfolding advance
  checked-alone e (err x) w = refl
  checked-alone e (ok true) w = discarding-alone e w
  checked-alone e (ok false) w = touching-alone e w

  inspecting-alone :
      (e : CacheEntry) (w : World)
      → next (next (record { world = w; place = inspecting e })) ≡ end_of (answer now (some e) w)
  unfolding advance answer
  inspecting-alone e w = elim (Bool-cases (leb_ℤ e.expires_at now)) [
    | inl old ↦ rw old (discarding-alone e w)
    | inr live ↦
        rw live (checked-alone e (is_dangling e.body_path w).0 (is_dangling e.body_path w).1)
  ]

  selected-alone :
      (found : Result (Option CacheEntry)) (w : World)
      → next (next (record { world = w; place = after_select found }))
        ≡ end_of (◌>>=◌ (λ _. (found, w)) (answer now) w)
  unfolding advance answer
  selected-alone (err x) w = refl
  selected-alone (ok none) w = refl
  selected-alone (ok (some e)) w = inspecting-alone e w

-- With nothing between them, the three steps of a lookup are `get`: its result, and the world it
-- leaves, whichever of its calls fail.
pub get-alone :
    (json : Json) (clock : Clock) (method url : Str) (w : World)
    → let now = now_unix clock in
      let key = cache_key method url in
      next json now key
        (next json now key (next json now key (record { world = w; place = selecting })))
      ≡ end_of json now key (get json clock method url w)
unfolding advance get
get-alone json clock method url w =
    let found = select_entry json (cache_key method url) w in
    selected-alone json (now_unix clock) (cache_key method url) found.0 found.1
