-- ===== src/Tests/StoringTests.antt =====
-- Inputs for the theorem on what src/http_proxy/mod.rs stores.
use mathlib.Core.List.{Memᴰ}
use http_cache.HttpProxy.Storing.Permits.{
  IsExclusive, Call, unlocked, after_calls, acquire, give_back, after_calls-IsExclusive,
}
use http_cache.Cache.{cache_key}
use http_cache.Prelude.Int.{pos}
use http_cache.Config.{default_caching}
use http_cache.HttpProxy.Storing.Storable.{IsStored, storing-IsStored}
use http_cache.HttpProxy.Storing.{
  Exchange, storing, store_body, pass_on, settings_of, try_acquire_cache_write,
}
use http_cache.Prelude.{
  refl, some, [], ◌∷◌, true, false, List, codes, Str, str_eq, ◌≡◌, none, is_some,
}

abbrev exchange : Exchange
exchange = record {
  method = codes "GET";
  url = codes "http://example.com/a";
  range_requested = false;
  status = 200;
  now = pos 1000;
  created_at = pos 1000;
}

abbrev stored_headers : List (Str × Str)
stored_headers = (codes "host", codes "example.com") ∷ []

-- The body goes through the tee, unless someone holds the permit of the key.
stored :
    storing default_caching [] exchange stored_headers (some 11) true (some (pos 1300))
    ≡ store_body
        (codes "GET http://example.com/a")
        stored_headers
        (pos 1300)
        (settings_of default_caching [] exchange stored_headers (some 11))
unfolding storing str_eq cache_key
stored = refl

skipped :
    storing default_caching
      (codes "GET http://example.com/a" ∷ [])
      exchange
      stored_headers
      (some 11)
      true
      (some (pos 1300))
    ≡ pass_on
unfolding storing str_eq cache_key
skipped = refl

storing-IsStored_example :
    IsStored default_caching [] exchange stored_headers
      (some 11)
      true
      (some (pos 1300))
      (storing default_caching [] exchange stored_headers (some 11) true (some (pos 1300)))
storing-IsStored_example =
    storing-IsStored default_caching [] exchange stored_headers (some 11) true (some (pos 1300))

abbrev calls : List Call
calls = acquire (codes "a") ∷ acquire (codes "a") ∷ acquire (codes "b") ∷ give_back (codes "b") ∷ []

after_calls-IsExclusive_example :
    let s = after_calls calls unlocked in
    IsExclusive s.live
    × ((key : Str) → Memᴰ key s.live → try_acquire_cache_write key s.held ≡ none)
    × ((key : Str) → ¬ Memᴰ key s.live → is_some (try_acquire_cache_write key s.held) ≡ true)
after_calls-IsExclusive_example = after_calls-IsExclusive calls
