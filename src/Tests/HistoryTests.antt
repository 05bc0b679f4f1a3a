-- ===== src/Tests/HistoryTests.antt =====
-- Inputs for the theorems on whole histories of the cache of src/cache.rs.
use http_cache.Tests.Headers.{print, read}
use http_cache.Errors.{ok}
use http_cache.Prelude.Int.{pos}
use mathlib.Core.List.{Memᴰ}
use http_cache.Cache.Interleaved.{
  selecting, ended, here, onward, own, other, deletes, advance, Course,
}
use http_cache.Cache.Interleaved.Sound.{Course-IsAnswerOf}
use http_cache.Cache.Backend.Provenance.{row_of}
use http_cache.Cache.Sqlite.Calm.{calm}
use http_cache.Cache.World.{sql, attempt, join, execute, query, exists, remove_file, World}
use http_cache.Cache.Sqlite.Lookups.{entry_of}
use http_cache.Tests.Fixtures.{full_disk, order, sort_rows}
use http_cache.Cache.Backend.{build_cache, sqlite_cache}
use http_cache.Cache.Sqlite.{
  get, store, delete, select_entry, to_row, to_entry, answer, touch, is_dangling,
}
use http_cache.Cache.{CacheEntry, cache_key, now_unix}
use http_cache.Prelude.{refl, none, some, [], ◌∷◌, List, codes, str_eq, ◌≡◌, map, arith}
use http_cache.Cache.Backend
use http_cache.Tests.Headers.{json}
use http_cache.Tests.CacheTests.{request, on, built, unlimited}
use http_cache.Cache.Backend.Histories.{step, Call, stores, fails, run}
use http_cache.Cache.Backend.Provenance.{requests, IsAnswerOf, run-IsAnswerOf}
use http_cache.Cache.Ideal
use http_cache.Cache.Ideal.{Ideal, code_answers, ideal_answers, looks_up, takes_out, writes}
use http_cache.Cache.Ideal.Refined.{answers_refine, Represents}
use http_cache.Cache.Table.{select_key, upsert, delete_key, touch_key}

-- The second store fails after its first call.
abbrev history : List Call
history =
    stores request
    ∷ fails (none ∷ some (codes "disk I/O error") ∷ [])
    ∷ stores request
    ∷ fails []
    ∷ []

abbrev answered : CacheEntry
answered = entry_of request (pos 1001)

answers :
    (Backend.get json order built
      (some 1001)
      (codes "GET")
      (codes "http://example.com/asset")
      (run json order built history (build_cache on (calm [] full_disk)).1)).0
    ≡ ok (some answered)
unfolding run step Backend.get Backend.store get store delete select_entry select_key upsert
    delete_key touch_key sql join attempt execute query exists remove_file cache_key now_unix str_eq
    to_row to_entry answer print read sort_rows build_cache
answers = refl

run-IsAnswerOf_example :
    IsAnswerOf json
      (requests history)
      (some 1001)
      (codes "GET")
      (codes "http://example.com/asset")
      answered
unfolding build_cache sql attempt
run-IsAnswerOf_example =
    run-IsAnswerOf json order on (calm [] full_disk) built history (some 1001) (codes "GET")
      (codes "http://example.com/asset") answered refl refl answers

-- A store, a lookup that finds it, a deletion, and a lookup that does not.
abbrev calls : List Ideal.Call
calls =
    Ideal.stores request
    ∷ looks_up (some 1001) (codes "GET") (codes "http://example.com/asset")
    ∷ takes_out request.key
    ∷ looks_up (some 1001) (codes "GET") (codes "http://example.com/asset")
    ∷ []

abbrev nothing_stored : Ideal
nothing_stored = record { entries = λ key. none; files = full_disk }

ideally : ideal_answers calls nothing_stored ≡ none ∷ some answered ∷ none ∷ none ∷ []
unfolding ideal_answers cache_key now_unix str_eq Ideal.ideal_call
ideally = refl

alike : Represents json (calm [] full_disk) nothing_stored
unfolding select_key
alike = ((λ key. refl), refl, refl)

answers_refine_example :
    code_answers json order (sqlite_cache unlimited) calls (calm [] full_disk)
    ≡ map ok (ideal_answers calls nothing_stored)
answers_refine_example =
    answers_refine json order unlimited refl calls (calm [] full_disk) nothing_stored
      (((print request.headers, refl), omega arith), (tt, (tt, (tt, tt)))) alike

-- The row that the lookup has read is deleted by another operation before it looks at the file.
abbrev table : World
table = calm (to_row json request ∷ []) full_disk

abbrev without_row : World
without_row = calm [] full_disk

lookup_goes_on :
    Course json
      (now_unix (some 1001))
      (cache_key (codes "GET") (codes "http://example.com/asset"))
      (request ∷ [])
      (record { world = table; place = selecting })
      (record { world = without_row; place = ended (ok (some answered)) })
unfolding advance select_entry select_key delete_key touch_key touch sql join attempt execute query
    exists is_dangling cache_key now_unix str_eq to_row to_entry print read
lookup_goes_on = onward (onward (onward (onward here own) (other (deletes request.key))) own) own

Course-IsAnswerOf_example :
    IsAnswerOf json
      (request ∷ [])
      (some 1001)
      (codes "GET")
      (codes "http://example.com/asset")
      answered
Course-IsAnswerOf_example =
    Course-IsAnswerOf json (request ∷ []) (some 1001) (codes "GET")
      (codes "http://example.com/asset") table without_row answered
      ((request, Memᴰ.head refl, request.created_at, row_of json (request ∷ []) request), tt)
      lookup_goes_on
