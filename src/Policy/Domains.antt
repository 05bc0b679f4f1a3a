-- ===== src/Policy/Domains.antt =====
-- What a domain pattern of src/policy.rs covers.
use http_cache.Prelude.{
  ◌≡◌, refl, ◌≢◌, ◌↔◌, inl, inr, true, false, [], ◌∷◌, ◌++◌, arith, ltb, ◌<◌, lt→ltb, Bool-cases,
  Option-cases, Str, codes, str_eq, str_eq_sound, str_eq_refl, len, strip_prefix, ends_with, ◌&&◌,
}
use http_cache.Prelude.TextLaws.{
  strip_prefix_sound, strip_prefix-append, ends_with_sound, ends_with-append, len-append,
  len-cons_pos,
}
use http_cache.Policy.{domain_matches}

-- `*` covers every domain, `*.suffix` the domains with at least one character before `.suffix`,
-- and any pattern itself.
pub data Covers (pattern_text domain : Str) : Type 0 where
  everything : pattern_text ≡ codes "*" → Covers pattern_text domain
  below :
      (pre suffix : Str)
      → pre ≢ []
      → pattern_text ≡ codes "*." ++ suffix
      → domain ≡ pre ++ (codes "." ++ suffix)
      → Covers pattern_text domain
  itself : pattern_text ≡ domain → Covers pattern_text domain

longer_than_tail : (pre t : Str) → len t < len (pre ++ t) → pre ≢ []
longer_than_tail [] t h e = omega arith
longer_than_tail (c ∷ pre) t h e = cc

pre_is_longer : (pre t : Str) → pre ≢ [] → len t < len (pre ++ t)
pre_is_longer [] t h = absurd (h refl)
pre_is_longer (c ∷ pre) t h = omega (arith, len-append (c ∷ pre) t, len-cons_pos c pre)

-- the branch of `*.suffix`
suffix_sound :
    (d t : Str)
    → (ends_with d t && ltb (len t) (len d)) ≡ true
    → (pre : Str) × (pre ≢ []) × (d ≡ pre ++ t)
suffix_sound d t h =
    let ends : ends_with d t ≡ true = ground arith in
    let (pre, e) = ends_with_sound d t ends in
    let longer : len t < len d = ground arith in (pre, longer_than_tail pre t (rw e at longer), e)

suffix_complete :
    (pre t : Str) → pre ≢ [] → (ends_with (pre ++ t) t && ltb (len t) (len (pre ++ t))) ≡ true
suffix_complete pre t h = rw (ends_with-append pre t, lt→ltb _ _ (pre_is_longer pre t h)) refl

matches_sound : (p d : Str) → domain_matches p d ≡ true → Covers p d
unfolding domain_matches
matches_sound p d h = elim (Bool-cases (str_eq p (codes "*"))) [
  | inl star ↦ Covers.everything (str_eq_sound _ _ star)
  | inr other ↦ elim (Option-cases (strip_prefix (codes "*.") p)) [
    | inl plain ↦ Covers.itself (str_eq_sound p d (rw (other, plain) at h))
    | inr (suffix, wild) ↦
        let (pre, nonempty, e) = suffix_sound d (codes "." ++ suffix) (rw (other, wild) at h) in
        Covers.below pre suffix nonempty (strip_prefix_sound (codes "*.") p suffix wild) e
  ]
]

wild_not_star : (suffix : Str) → str_eq (codes "*." ++ suffix) (codes "*") ≡ false
unfolding str_eq
wild_not_star suffix = refl

wild_matches :
    (pre suffix : Str)
    → pre ≢ []
    → domain_matches (codes "*." ++ suffix) (pre ++ (codes "." ++ suffix)) ≡ true
unfolding domain_matches
wild_matches pre suffix h =
    rw (wild_not_star suffix, strip_prefix-append (codes "*.") suffix)
      (suffix_complete pre (codes "." ++ suffix) h)

matches_star : (d : Str) → domain_matches (codes "*") d ≡ true
unfolding domain_matches
matches_star d = rw (str_eq_refl (codes "*"))

wild_self : (p suffix : Str) → p ≡ codes "*." ++ suffix → domain_matches p p ≡ true
wild_self p suffix e = rw e (wild_matches (codes "*") suffix (λ f. cc))

matches_self : (p : Str) → domain_matches p p ≡ true
unfolding domain_matches
matches_self p = elim (Bool-cases (str_eq p (codes "*"))) [
  | inl star ↦ rw star
  | inr other ↦ elim (Option-cases (strip_prefix (codes "*.") p)) [
    | inl plain ↦ rw (other, plain) (str_eq_refl p)
    | inr (suffix, wild) ↦ wild_self p suffix (strip_prefix_sound (codes "*.") p suffix wild)
  ]
]

matches_complete : (p d : Str) → Covers p d → domain_matches p d ≡ true
matches_complete p d (Covers.everything e) = rw e (matches_star d)
matches_complete p d (Covers.below pre suffix nonempty e f) =
    rw (e, f) (wild_matches pre suffix nonempty)
matches_complete p d (Covers.itself e) = rw e (matches_self d)

-- `domain_matches` holds of exactly the domains that the pattern covers: `*` of all, `*.suffix` of
-- those with something in front of `.suffix`, and every pattern of itself.
pub domain_matches-Covers : (p d : Str) → (domain_matches p d ≡ true) ↔ Covers p d
domain_matches-Covers p d = (matches_sound p d, matches_complete p d)
