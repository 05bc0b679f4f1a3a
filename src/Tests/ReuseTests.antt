-- ===== src/Tests/ReuseTests.antt =====
-- Inputs for the theorem on the request that follows a stored response, from src/http_proxy/mod.rs
-- over cache_pipeline.rs and src/cache.rs back to mod.rs.
use http_cache.HttpProxy.Reuse.Teed.{IsRowOf}
use http_cache.HttpProxy.Committing.Placed.{IsSpared, renamed_in}
use http_cache.Cache.Sqlite.Lookups.{entry_of}
use http_cache.HttpProxy.Stored.Replay.{Replays}
use http_cache.HttpProxy.Upstream.{rewrite_absolute_form}
use http_cache.Headers.{strip_hop_by_hop}
use http_cache.HttpProxy.Stored.{headers_for_storage, Response}
use http_cache.HttpProxy.Expiry.{compute_expiry, parse_content_length}
use http_cache.Cache.{cache_key, now_unix}
use http_cache.Cache.World.{sql, join, attempt, query, World, Row}
use http_cache.Cache.Table.{select_key}
use http_cache.Cache.Sqlite.{select_entry, answer}
use http_cache.Prelude.Decimal.{parse_u64, to_decimal}
use http_cache.Policy.{domain_matches}
use http_cache.Prelude.Int.{pos}
use http_cache.Errors.{ok, ProxyError}
use http_cache.Cache.Backend.{sqlite_cache, is_enabled, cache_objects_dir}
use http_cache.HttpProxy.Handler.{handle_front, look_up_cache, wrap_limited_request_body}
use http_cache.Cache.Sqlite.Calm.{calm}
use http_cache.Network.{refused, connect}
use http_cache.Config.{CacheConfig, default_caching}
use http_cache.Tests.CacheTests.{one_entry}
use http_cache.Cache.Sqlite.{to_row}
use http_cache.Cache.Table.{upsert}
use http_cache.Tests.Fixtures.{order, full_disk}
use http_cache.Tests.Headers.{json, print}
use http_cache.Tests.HandlerTests.{uri_lib, policy}
use http_cache.Tests.HeaderMaps.{header_lib, without, look_up, name_of}
use http_cache.Tests.RequestsTests.{dial_good, readings, request_good}
use http_cache.HttpProxy.Forwarding.{
  from_cache, from_upstream, exchange_of, Answer, Network, Shared, handle_http, proceed, storing_of,
}
use http_cache.HttpProxy.Storing.{store_body, storing, store_response, try_acquire_cache_write}
use http_cache.HttpProxy.CacheBody.Runs.{Event, polled, takes_turn, step, steps}
use http_cache.HttpProxy.CacheBody.Served.{begins}
use http_cache.HttpProxy.CacheWrite.{accepted, awaiting, committed, Settings}
use http_cache.HttpProxy.CacheWrite.Streams.{begun}
use http_cache.HttpProxy.Reuse.{job_of}
use http_cache.HttpProxy.Reuse.Chain.{handle_http_reuses}
use http_cache.Body.{ready_frame, data_frame, ready_none}
use http_cache.Cache.Backend
use http_cache.Cache.Sqlite
use http_cache.HttpProxy.CacheBody.{
  open_temp, take_chunk, test_abort, remove_temp, finish_file, Caching, turn,
}
use http_cache.HttpProxy.Committing.{
  commit_amid, flush, rename, store_job, give_up, request_of, Job, quiet,
}
use http_cache.HttpProxy.CacheWrite.{poll_frame, drop_tee}
use http_cache.HttpProxy.CacheBody.Simulated.{observed, observed_all}
use http_cache.HttpProxy.CacheWrite.Streams.{observe}
use http_cache.Prelude.{
  inl, str_eq, strip_prefix, to_ascii_lowercase, split, trim, [], ◌∷◌, some, none, inr, refl, codes,
  true, ◌≡◌, ◌≢◌, ◌∙◌, sym, length, arith, inl, Str, List,
}

abbrev pub answer_five : Answer header_lib uri_lib
answer_five = record {
  answer_status = 200;
  answer_headers = (codes "content-length", codes "5") ∷ [];
}

abbrev pub net : Network header_lib uri_lib
net = record {
  dial = dial_good;
  handshake = λ addr. none;
  send_request = λ addr req body. inr answer_five;
}

-- The network is down when the second request comes.
abbrev pub down : Network header_lib uri_lib
down = record {
  dial = λ addr. refused (codes "unreachable");
  handshake = λ addr. none;
  send_request = λ addr req body. inl (codes "unreachable");
}

abbrev pub config : CacheConfig
config = record default_caching { enabled = true }

abbrev pub before : Shared
before = record { world = calm [] full_disk; held = []; tried = [] }

abbrev pub key : Str
key = codes "GET /a"

abbrev pub settings : Settings
settings = record {
  content_length = some 5;
  max_object_size_bytes = 1_073_741_824;
  require_content_length = true;
}

abbrev pub stored_headers : List (Str × Str)
stored_headers = (codes "content-length", codes "5") ∷ []

pub first_stored :
    (handle_http header_lib uri_lib json order
      (λ date. none)
      (sqlite_cache one_entry)
      policy
      config
      10
      readings
      net
      request_good
      before).0
    ≡ ok (from_upstream answer_five (store_body key stored_headers (pos 300) settings))
unfolding handle_http proceed handle_front domain_matches str_eq strip_prefix to_ascii_lowercase
    split trim without look_up name_of parse_u64 is_enabled Backend.get Sqlite.get select_entry
    select_key answer sql join attempt query cache_key now_unix to_decimal look_up_cache storing
    store_response storing_of compute_expiry headers_for_storage parse_content_length connect
    try_acquire_cache_write strip_hop_by_hop rewrite_absolute_form wrap_limited_request_body
first_stored = refl

abbrev pub job : Job
job =
    job_of (λ k. codes "a") one_entry.dir (codes "1") quiet quiet
      (exchange_of header_lib uri_lib readings request_good answer_five) key stored_headers
      (pos 300)

abbrev events : List (Event ProxyError)
events =
    polled accepted (ready_frame (data_frame (codes "hello")))
    ∷ takes_turn []
    ∷ takes_turn (codes "hel")
    ∷ polled accepted ready_none
    ∷ takes_turn []
    ∷ takes_turn []
    ∷ []

abbrev reached : Caching
reached =
    steps (λ e. e) json order (sqlite_cache one_entry) job settings events
      (begins (calm [] full_disk))

abbrev finished : Caching
finished = turn json order (sqlite_cache one_entry) job settings [] reached.pipeline reached.world

awaits : reached.pipeline.phase ≡ awaiting
unfolding steps step poll_frame drop_tee turn open_temp take_chunk test_abort remove_temp
awaits = refl

goes_on : reached.pipeline.phase ≢ committed
goes_on h = let e = sym awaits ∙ h in cc

commits : finished.pipeline.phase ≡ committed
unfolding steps step poll_frame drop_tee turn open_temp take_chunk test_abort remove_temp
    finish_file commit_amid flush rename store_job give_up Backend.store Sqlite.store
    Sqlite.enforce_limit
commits = refl

-- The second request, with the network down.
abbrev there : Shared
there = record before { world = calm finished.world.rows finished.world.files }

spared : IsSpared json order one_entry job reached.pipeline.written reached.pipeline.size (
    renamed_in json order one_entry job reached.pipeline.written reached.pipeline.size
      reached.world)
unfolding steps step poll_frame drop_tee turn open_temp take_chunk test_abort remove_temp flush
    rename upsert
spared = (refl, tt)

handle_http_reuses_example :
    ((row : Row) × (select_key key finished.world.rows ≡ some row)
      × IsRowOf header_lib uri_lib readings request_good answer_five
          (print stored_headers)
          (pos 300)
          row)
    × (r : Response header_lib) × (after : World) × (handle_http header_lib uri_lib json order
          (λ date. none)
          (sqlite_cache one_entry)
          policy
          config
          10
          readings
          down
          request_good
          there
        ≡ (ok (from_cache r), record there { world = after }))
    × (r.status ≡ 200)
    × Replays header_lib
        (entry_of (request_of job (length (observed_all events begun).bytes)) (now_unix none))
        (observed_all events begun).bytes
        r
unfolding observed_all observed observe now_unix to_decimal upsert steps step
handle_http_reuses_example =
    handle_http_reuses (λ e. e) header_lib uri_lib json order (λ date. none) one_entry policy config
      10 (λ k. codes "a") (codes "1") quiet quiet readings readings net down request_good before
      before answer_five key stored_headers (pos 300) settings events [] (calm [] full_disk)
      (print stored_headers) (to_decimal 5) first_stored spared goes_on commits refl (omega arith)
      refl (omega arith)
