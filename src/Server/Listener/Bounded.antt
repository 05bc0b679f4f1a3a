-- ===== src/Server/Listener/Bounded.antt =====
-- How many connections `serve_with_state` of src/server.rs serves at a time.
use http_cache.Prelude.{refl, inl, inr, ℕ, ◌+◌, arith, ◌≡◌, ◌≤◌, ◌⊎◌, ◌<◌}
use native.Mathlib.Decide.{dec_lt}
use http_cache.Server.Listener.{
  Loop, accepting, acquiring, stopped, Listener, Step, accepts, accept_fails, spawns, ends,
  upgrades, closes, Reach, begins, later,
}

-- Every permit is free or held by one task.
abbrev IsBalanced : ℕ → Listener → Type 0
IsBalanced max_conns s = s.permits + s.serving ≡ max_conns

Step-IsBalanced :
    (max_conns : ℕ) {s t : Listener} → Step s t → IsBalanced max_conns s → IsBalanced max_conns t
Step-IsBalanced max_conns (accepts e) b = b
Step-IsBalanced max_conns (accept_fails m e) b = b
Step-IsBalanced max_conns (spawns e free) b = omega arith
Step-IsBalanced max_conns (ends busy) b = omega arith
Step-IsBalanced max_conns (upgrades busy) b = omega arith
Step-IsBalanced max_conns (closes open_one) b = b

Reach-IsBalanced : (max_conns : ℕ) {s : Listener} → Reach max_conns s → IsBalanced max_conns s
Reach-IsBalanced max_conns begins = omega arith
Reach-IsBalanced max_conns (later r step) =
    Step-IsBalanced max_conns step (Reach-IsBalanced max_conns r)

-- A connection in hand is served by a next step; or all permits are taken, and the end of any task
-- frees one while the connection waits.
abbrev pub GoesOn : ℕ → Listener → Type 0
GoesOn max_conns s =
    ((t : Listener) × Step s t × (t.serving ≡ s.serving + 1))
    ⊎ ((s.serving ≡ max_conns)
        × ((t : Listener) × Step s t × (t.loop_at ≡ acquiring) × (0 < t.permits)))

abbrev pub Proceeds : ℕ → Listener → Loop → Type 0
Proceeds max_conns s acquiring = (max_conns ≡ 0) ⊎ GoesOn max_conns s
Proceeds max_conns s _ = Unit

goes_on :
    (max_conns : ℕ) (s : Listener)
    → 0 < max_conns
    → IsBalanced max_conns s
    → s.loop_at ≡ acquiring
    → GoesOn max_conns s
goes_on max_conns s some_allowed b at = elim (dec_lt 0 s.permits) [
  | yes free ↦ inl (_, spawns at free, refl)
  | no none_free ↦ inr (omega arith, (_, ends (omega arith), at, omega arith))
]

proceeds :
    (max_conns : ℕ) (s : Listener) (phase : Loop)
    → IsBalanced max_conns s
    → s.loop_at ≡ phase
    → Proceeds max_conns s phase
proceeds max_conns s accepting b at = tt
proceeds max_conns s (stopped m) b at = tt
proceeds max_conns s acquiring b at = elim (dec_lt 0 max_conns) [
  | yes some_allowed ↦ inr (goes_on max_conns s some_allowed b at)
  | no none_allowed ↦ inl (omega arith)
]

-- In whatever order connections come, are upgraded to CONNECT tunnels and end, no more of them are
-- in the hands of `handle_connection` at a time than `max_connections`; a tunnel has left its hands,
-- and is not counted. If that is not zero, a connection that was accepted never waits with a permit
-- free: it can be served at once, or as many as allowed are in those hands and the end of one of them
-- frees a permit for it.
pub Reach-IsBounded :
    (max_conns : ℕ) (s : Listener)
    → Reach max_conns s
    → (s.serving ≤ max_conns) × Proceeds max_conns s s.loop_at
Reach-IsBounded max_conns s r =
    let b = Reach-IsBalanced max_conns r in (omega arith, proceeds max_conns s s.loop_at b refl)
