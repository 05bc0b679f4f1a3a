-- ===== src/HttpProxy/Expiry/Bounds.antt =====
-- What `compute_expiry` of src/http_proxy/headers.rs answers, stated by the three bounds.
use http_cache.HttpProxy.Expiry.Least.{
  limited, Given, IsLeast, limited-IsLeast, IsLeast-iff, IsLeast-own,
}
use http_cache.Cache.{Clock, now_unix}
use http_cache.Headers.{HeaderLib}
use http_cache.Cache.Control.{parse_cache_control}
use http_cache.Prelude.Words.{saturating_add_i64, as_i64}
use http_cache.HttpProxy.Expiry.{
  DateReader, since_epoch, heed_expires, limit_age, limit_date, heed_control, compute_expiry,
  text_of,
}
use mathlib.Core.Option
use http_cache.Prelude.{
  Str, ℕ, ◌≡◌, Option, some, arith, ◌⊎◌, true, inl, subst, inr, sym, refl, none, false, ◌||◌, Bool,
  ◌∙◌, ap,
}
use http_cache.Prelude.Int.{ℤ, pos, negsuc}

-- The two headers, read as text, and the numbers that bound the expiry.
pub record Terms : Type 0 where
  pub now : ℤ
  pub ttl_seconds : ℕ
  pub control : Option Str
  pub expires : Option Str

-- The response asks not to be kept.
abbrev pub IsBarred : Terms → Type 0
IsBarred terms =
    (text : Str) × (terms.control ≡ some text)
    × (((parse_cache_control text).no_store ≡ true) ⊎ ((parse_cache_control text).no_cache ≡ true))

-- The bounds on the expiry.
pub data Bound (parse_http_date : DateReader) (terms : Terms) : ℤ → Type 0 where
  of_ttl : Bound parse_http_date terms (saturating_add_i64 terms.now (as_i64 terms.ttl_seconds))
  of_age :
      (text : Str) (max_age : ℕ)
      → terms.control ≡ some text
      → (parse_cache_control text).max_age ≡ some max_age
      → Bound parse_http_date terms (saturating_add_i64 terms.now (as_i64 max_age))
  of_date :
      (text : Str) (n : ℕ)
      → terms.expires ≡ some text
      → parse_http_date text ≡ some (pos n)
      → Bound parse_http_date terms (as_i64 n)
  of_old_date :
      (text : Str) (n : ℕ)
      → terms.expires ≡ some text
      → parse_http_date text ≡ some (negsuc n)
      → Bound parse_http_date terms (pos 0)

age_in : Option Str → Option ℕ
age_in none = none
age_in (some text) = (parse_cache_control text).max_age

date_in : DateReader → Option Str → Option ℤ
date_in parse_http_date none = none
date_in parse_http_date (some text) = parse_http_date text

control_age : ℤ → ℕ → ℤ
control_age now max_age = saturating_add_i64 now (as_i64 max_age)

limit_age_lem : (now t : ℤ) (age : Option ℕ) → limit_age now t age ≡ limited (control_age now) t age
unfolding limit_age control_age
limit_age_lem now t none = refl
limit_age_lem now t (some max_age) = refl

limit_date_lem : (t : ℤ) (date : Option ℤ) → limit_date t date ≡ limited since_epoch t date
unfolding limit_date
limit_date_lem t none = refl
limit_date_lem t (some datetime) = refl

heed_expires_lem :
    (parse_http_date : DateReader) (t : ℤ) (expires : Option Str)
    → heed_expires parse_http_date t expires ≡ limit_date t (date_in parse_http_date expires)
unfolding heed_expires date_in
heed_expires_lem parse_http_date t none = limit_date_lem t none
heed_expires_lem parse_http_date t (some text) = refl

heed_control_lem :
    (now t : ℤ) (control : Option Str)
    → ((text : Str)
        → control ≡ some text
        → ((parse_cache_control text).no_store || (parse_cache_control text).no_cache) ≡ false)
    → heed_control now t control ≡ some (limit_age now t (age_in control))
unfolding heed_control age_in limit_age
heed_control_lem now t none h = refl
heed_control_lem now t (some text) h = rw (h text refl)

-- The expiry from the two texts, as `compute_expiry` puts it together.
expiry : DateReader → Terms → Option ℤ
expiry parse_http_date terms =
    Option.map (λ t. heed_expires parse_http_date t terms.expires)
      (heed_control terms.now (saturating_add_i64 terms.now (as_i64 terms.ttl_seconds))
        terms.control)

neither : (a b : Bool) → ¬ ((a ≡ true) ⊎ (b ≡ true)) → (a || b) ≡ false
neither true b h = absurd (h (inl refl))
neither false true h = absurd (h (inr refl))
neither false false h = refl

allowed :
    (terms : Terms)
    → ¬ IsBarred terms
    → (text : Str) → terms.control ≡ some text
    → ((parse_cache_control text).no_store || (parse_cache_control text).no_cache) ≡ false
allowed terms h text e = neither _ _ (λ b. h (text, e, b))

either : (a b : Bool) → (a ≡ true) ⊎ (b ≡ true) → (a || b) ≡ true
either a b h = ground arith

barred :
    (parse_http_date : DateReader) (terms : Terms)
    → IsBarred terms
    → expiry parse_http_date terms ≡ none
unfolding heed_control expiry
barred parse_http_date terms (text, e, b) = rw (e, either _ _ b)

age_source :
    (control : Option Str) (age : ℕ)
    → age_in control ≡ some age
    → (text : Str) × (control ≡ some text) × ((parse_cache_control text).max_age ≡ some age)
unfolding age_in
age_source none age e = cc
age_source (some text) age e = (text, refl, e)

date_source :
    (parse_http_date : DateReader) (expires : Option Str) (datetime : ℤ)
    → date_in parse_http_date expires ≡ some datetime
    → (text : Str) × (expires ≡ some text) × (parse_http_date text ≡ some datetime)
unfolding date_in
date_source parse_http_date none datetime e = cc
date_source parse_http_date (some text) datetime e = (text, refl, e)

module _ (parse_http_date : DateReader) (terms : Terms) where
  -- A date is a bound, as the epoch if it is before that.
  date_bound :
      (text : Str) (datetime : ℤ)
      → terms.expires ≡ some text
      → parse_http_date text ≡ some datetime
      → Bound parse_http_date terms (since_epoch datetime)
  unfolding as_i64
  date_bound text (pos n) e f = of_date text n e f
  date_bound text (negsuc n) e f = of_old_date text n e f

  abbrev Collected : ℤ → Type 0
  Collected t =
      ((t ≡ saturating_add_i64 terms.now (as_i64 terms.ttl_seconds))
        ⊎ Given (control_age terms.now) (age_in terms.control) t)
      ⊎ Given since_epoch (date_in parse_http_date terms.expires) t

  bound_of : (t : ℤ) → Collected t → Bound parse_http_date terms t
  unfolding control_age
  bound_of t (inl (inl e)) = subst (Bound parse_http_date terms) (sym e) of_ttl
  bound_of t (inl (inr (max_age, given, e))) =
      let (text, control, parsed) = age_source terms.control max_age given in
      subst (Bound parse_http_date terms) (sym e) (of_age text max_age control parsed)
  bound_of t (inr (datetime, given, e)) =
      let (text, expires, parsed) = date_source parse_http_date terms.expires datetime given in
      subst (Bound parse_http_date terms) (sym e) (date_bound text datetime expires parsed)

  of_bound : (t : ℤ) → Bound parse_http_date terms t → Collected t
  unfolding age_in date_in control_age as_i64
  of_bound t of_ttl = inl (inl refl)
  of_bound t (of_age text max_age control parsed) = inl (inr (max_age, rw control parsed, refl))
  of_bound t (of_date text n expires parsed) = inr (pos n, rw expires parsed, refl)
  of_bound t (of_old_date text n expires parsed) = inr (negsuc n, rw expires parsed, refl)

  abbrev base : ℤ
  base = saturating_add_i64 terms.now (as_i64 terms.ttl_seconds)

  abbrev least_bound : ℤ
  least_bound =
      heed_expires parse_http_date (limit_age terms.now base (age_in terms.control)) terms.expires

  least_bound_lem :
      least_bound
      ≡ limited since_epoch
          (limited (control_age terms.now) base (age_in terms.control))
          (date_in parse_http_date terms.expires)
  least_bound_lem =
      heed_expires_lem parse_http_date (limit_age terms.now base (age_in terms.control))
        terms.expires
      ∙ (limit_date_lem _ (date_in parse_http_date terms.expires)
          ∙ ap (λ t. limited since_epoch t (date_in parse_http_date terms.expires))
              (limit_age_lem terms.now base (age_in terms.control)))

  collected : IsLeast Collected least_bound
  collected = subst (IsLeast Collected) (sym least_bound_lem) (
      limited-IsLeast _ since_epoch (date_in parse_http_date terms.expires) _
        (limited-IsLeast _ (control_age terms.now) (age_in terms.control) base (IsLeast-own base)))

  kept :
      ¬ IsBarred terms
      → (t : ℤ) × (expiry parse_http_date terms ≡ some t) × IsLeast (Bound parse_http_date terms) t
  unfolding expiry
  kept h = (
    least_bound,
    rw (heed_control_lem terms.now base terms.control (allowed terms h)),
    IsLeast-iff Collected _ least_bound (λ t. (bound_of t, of_bound t)) collected,
  )

-- The text of a header, if there is one and it is text.
abbrev pub terms_of : (lib : HeaderLib) → Clock → lib.HeaderMap → ℕ → Terms
terms_of lib clock headers ttl_seconds = record {
  now = now_unix clock;
  ttl_seconds = ttl_seconds;
  control = text_of lib.to_str (lib.get headers lib.cache_control);
  expires = text_of lib.to_str (lib.get headers lib.expires);
}

-- A response whose first Cache-Control value says no-store or no-cache has no expiry. Every other
-- one has one, the least of its bounds: now and the configured lifetime; now and the max-age of that
-- value, if there is one; the date of the first Expires value, if that can be read, and the epoch if
-- that date is before it.
pub compute_expiry-IsLeast :
    (lib : HeaderLib) (parse_http_date : DateReader) (clock : Clock) (headers : lib.HeaderMap)
    (ttl_seconds : ℕ)
    → (IsBarred (terms_of lib clock headers ttl_seconds)
        → compute_expiry lib parse_http_date clock headers ttl_seconds ≡ none)
      × (¬ IsBarred (terms_of lib clock headers ttl_seconds)
          → (t : ℤ) × (compute_expiry lib parse_http_date clock headers ttl_seconds ≡ some t)
            × IsLeast (Bound parse_http_date (terms_of lib clock headers ttl_seconds)) t)
unfolding compute_expiry expiry
compute_expiry-IsLeast lib parse_http_date clock headers ttl_seconds =
    let terms = terms_of lib clock headers ttl_seconds in
    (barred parse_http_date terms, kept parse_http_date terms)
