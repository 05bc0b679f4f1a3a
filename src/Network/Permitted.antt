-- ===== src/Network/Permitted.antt =====
-- What is claimed of every connection: the policy permits its target.
use http_cache.Policy.{PolicyEngine}
use http_cache.Prelude.{◌∷◌, List, Str, ◌≡◌, ◌⊎◌, ℕ, to_ascii_lowercase}
use http_cache.Policy.Decisions.{Permits}
use http_cache.HttpProxy.Handler.{format_addr}

-- Between two moments either no address was tried, or exactly one, of a host and a port that the
-- policy permits.
abbrev pub TriesPermitted : PolicyEngine → List Str → List Str → Type 0
TriesPermitted policy before after =
    (after ≡ before)
    ⊎ ((host : Str) × (port : ℕ) × Permits policy (to_ascii_lowercase host) port
        × (after ≡ format_addr host port ∷ before))
