-- ===== src/Server/Listener.antt =====
-- src/server.rs: `serve_with_state`, the loop that accepts connections, and the semaphore that bounds
-- how many are served. A connection's task holds its permit until `handle_connection` is done,
-- however that ends: also when the connection is upgraded to a CONNECT tunnel, which a task of its
-- own, without a permit, goes on with.
pub mod Bounded
use http_cache.Prelude.{Str, ℕ, ◌≡◌, ◌<◌, ◌-◌, ◌+◌}

-- Where the loop stands: at `accept`, at `acquire_owned` with a connection in hand, or stopped by an
-- error of `accept`, which `?` returns.
pub data Loop : Type 0 where
  accepting acquiring : Loop
  stopped : Str → Loop

pub record Listener : Type 0 where
  pub permits : ℕ  -- of the semaphore
  pub serving : ℕ  -- the tasks that hold one
  pub tunnels : ℕ  -- the tunnels that go on behind one
  pub loop_at : Loop

-- `Semaphore::new(max_conns)`
abbrev pub listening : ℕ → Listener
listening max_conns = record { permits = max_conns; serving = 0; tunnels = 0; loop_at = accepting }

-- A step of the loop, the end of a task, its upgrade to a tunnel, or the end of a tunnel.
pub data Step (s : Listener) : Listener → Type 0 where
  accepts : s.loop_at ≡ accepting → Step s (record s { loop_at = acquiring })
  accept_fails :
      (message : Str) → s.loop_at ≡ accepting → Step s (record s { loop_at = stopped message })
  spawns :
      s.loop_at ≡ acquiring
      → 0 < s.permits
      → Step s (record s { permits = s.permits - 1; serving = s.serving + 1; loop_at = accepting })
  ends : 0 < s.serving → Step s (record s { permits = s.permits + 1; serving = s.serving - 1 })
  upgrades :
      0 < s.serving
      → Step s
          (record s { permits = s.permits + 1; serving = s.serving - 1; tunnels = s.tunnels + 1 })
  closes : 0 < s.tunnels → Step s (record s { tunnels = s.tunnels - 1 })

pub data Reach (max_conns : ℕ) : Listener → Type 0 where
  begins : Reach max_conns (listening max_conns)
  later : {s t : Listener} → Reach max_conns s → Step s t → Reach max_conns t
