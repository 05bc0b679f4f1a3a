-- ===== src/Tests/ConfigTests.antt =====
-- Inputs for the theorems on src/config.rs.
use http_cache.Errors.{ok}
use http_cache.Config.Warnings.{overlapping_ports, startup_warnings}
use http_cache.Config.Validation.{Sources, load}
use http_cache.Prelude.{refl, [], ◌∷◌, inr, codes, ◌≡◌}
use http_cache.Prelude.{trim}
use http_cache.Config.{default_config, default_policy, PolicyConfig}

abbrev sources : Sources
sources = record {
  read_to_string = λ path. inr (codes "[env]");
  from_str = λ contents. inr default_config;
}

-- The defaults pass.
defaults_pass : load sources (codes "config.toml") ≡ ok default_config
unfolding load trim
defaults_pass = refl

-- A configuration whose two lists of ports overlap.
abbrev overlap : PolicyConfig
overlap = record default_policy { allowed_ports = 80 ∷ 443 ∷ []; denied_ports = 443 ∷ [] }

warned : overlapping_ports overlap ≡ 443 ∷ []
unfolding overlapping_ports
warned = refl

quiet : startup_warnings default_config ≡ []
unfolding startup_warnings
quiet = refl
