-- ===== src/Tests/PolicyTests.antt =====
-- Inputs for the theorems on src/policy.rs.
use http_cache.Prelude.{
  ◌≡◌, refl, ◌↔◌, [], ◌∷◌, true, codes, str_eq, strip_prefix, ends_with, len, to_ascii_lowercase,
}
use http_cache.Errors.{ok, err, policy_denied}
use http_cache.Policy.{PolicyEngine, domain_matches, check}
use http_cache.Policy.Domains.{Covers, domain_matches-Covers}
use http_cache.Policy.Decisions.{Permits, Refusals, check-Permits, check-Refusals}

program : Unit {0}
unfolding domain_matches check str_eq strip_prefix ends_with len to_ascii_lowercase
program = tt

domain_matches-Covers_example :
    (domain_matches (codes "*.example.com") (codes "api.example.com") ≡ true)
    ↔ Covers (codes "*.example.com") (codes "api.example.com")
domain_matches-Covers_example =
    domain_matches-Covers (codes "*.example.com") (codes "api.example.com")

abbrev engine : PolicyEngine
engine = record {
  allowed_domains = codes "*" ∷ [];
  denied_domains = codes "blocked.example.com" ∷ [];
  allowed_ports = 80 ∷ 443 ∷ [];
  denied_ports = 443 ∷ [];
}

denied_first :
    (check engine (codes "Blocked.example.com") 80
      ≡ err (policy_denied (codes "domain denied: blocked.example.com")))
    × (check engine (codes "example.com") 80 ≡ ok tt)
unfolding program
denied_first = (refl, refl)

check-Permits_example :
    (check engine (codes "Example.com") 80 ≡ ok tt)
    ↔ Permits engine (to_ascii_lowercase (codes "Example.com")) 80
check-Permits_example = check-Permits engine (codes "Example.com") 80

check-Refusals_example :
    Refusals engine
      (to_ascii_lowercase (codes "Example.com"))
      443
      (check engine (codes "Example.com") 443)
check-Refusals_example = check-Refusals engine (codes "Example.com") 443
