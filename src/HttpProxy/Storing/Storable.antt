-- ===== src/HttpProxy/Storing/Storable.antt =====
-- When `handle_http` of src/http_proxy/mod.rs stores a response, and what.
use http_cache.Cache.{cache_key, CacheStoreRequest}
use mathlib.Core.List.{Memᴰ}
use http_cache.Prelude.Int.{ℤ, ◌<ℤ◌, leb_ℤ}
use http_cache.Config.{CacheConfig}
use http_cache.HttpProxy.Storing.{
  pass_on, store_until, Storing, Exchange, try_acquire_cache_write, too_large, store_response,
  store_head, head_request, store_body, storing, is_success,
}
use http_cache.Prelude.{
  if◌then◌else◌, ◌==◌, ◌||◌, refl, none, some, true, false, Bool, List, ◌≡◌, Str, Option, ℕ, ◌⊎◌,
  ◌≤◌, is_some, ◌&&◌, ◌<◌, codes, not, ◌≢◌, any_of_Memᴰ, arith, str_eq, str_eq_refl, str_eq_sound,
  inl, inr, str_eq_iff,
}

split_on :
    (P : Storing → Type 0) (b : Bool) (x y : Storing)
    → (b ≡ true → P x)
    → (b ≡ false → P y)
    → P (if b then x else y)
split_on P true x y f g = f refl
split_on P false x y f g = g refl

module _ (config : CacheConfig) (held : List Str) (exchange : Exchange)
    (stored_headers : List (Str × Str)) (content_length : Option ℕ) where
  -- What every stored response meets: there is a cache, no range was asked for, the status is a
  -- success and not 206, and the response expires later than now.
  abbrev pub Storable : Bool → Option ℤ → ℤ → Type 0
  Storable enabled expiry t =
      (enabled ≡ true)
      × (exchange.range_requested ≡ false)
      × (200 ≤ exchange.status)
      × (exchange.status < 300)
      × (exchange.status ≢ 206)
      × (expiry ≡ some t)
      × (exchange.now <ℤ t)

  abbrev pub Within : Option ℕ → Type 0
  Within none = config.cache_require_content_length ≡ false
  Within (some n) =
      (config.cache_max_object_size_bytes ≡ 0) ⊎ (n ≤ config.cache_max_object_size_bytes)

  -- The entry of the response, without a body, that expires at `t`.
  pub record IsHeadEntry (t : ℤ) (entry : CacheStoreRequest) : Type 0 where
    pub its_key : entry.key ≡ cache_key exchange.method exchange.url
    pub its_method : entry.method ≡ exchange.method
    pub its_url : entry.url ≡ exchange.url
    pub its_status : entry.status ≡ exchange.status
    pub its_headers : entry.headers ≡ stored_headers
    pub no_path : entry.body_path ≡ none
    pub no_size : entry.body_size ≡ 0
    pub its_creation : entry.created_at ≡ exchange.created_at
    pub its_expiry : entry.expires_at ≡ t

  head_request-IsHeadEntry :
      (t : ℤ) → IsHeadEntry t (head_request config held exchange stored_headers content_length t)
  head_request-IsHeadEntry t = record {
    its_key = refl;
    its_method = refl;
    its_url = refl;
    its_status = refl;
    its_headers = refl;
    no_path = refl;
    no_size = refl;
    its_creation = refl;
    its_expiry = refl;
  }

  abbrev pub IsStored : Bool → Option ℤ → Storing → Type 0
  IsStored enabled expiry pass_on = Unit
  IsStored enabled expiry (store_head entry) =
      (t : ℤ) × Storable enabled expiry t × (exchange.method ≡ codes "HEAD") × IsHeadEntry t entry
  IsStored enabled expiry (store_body key headers t settings) =
      Storable enabled expiry t
      × (exchange.method ≡ codes "GET")
      × (key ≡ cache_key exchange.method exchange.url)
      × (headers ≡ stored_headers)
      × ((settings.content_length ≡ content_length)
          × (settings.max_object_size_bytes ≡ config.cache_max_object_size_bytes)
          × (settings.require_content_length ≡ config.cache_require_content_length))
      × Within content_length
      × (0 < config.cache_channel_capacity_chunks)
      × ¬ Memᴰ key held

  not_held : (key : Str) → is_some (try_acquire_cache_write key held) ≡ true → ¬ Memᴰ key held
  unfolding try_acquire_cache_write
  not_held key free i =
      let e = any_of_Memᴰ (λ k. str_eq k key) held key i (str_eq_refl key) in ground arith

  within :
      (length : Option ℕ)
      → too_large length config.cache_max_object_size_bytes ≡ false
      → (config.cache_require_content_length && not (is_some length)) ≡ false
      → Within length
  within none e f = ground arith
  within (some n) e f = ground arith

  get_of :
      (exchange.method ≡ codes "GET") ⊎ (exchange.method ≡ codes "HEAD")
      → str_eq exchange.method (codes "HEAD") ≡ false
      → exchange.method ≡ codes "GET"
  get_of (inl e) f = e
  get_of (inr e) f =
      let g : str_eq exchange.method (codes "HEAD") ≡ true = (str_eq_iff exchange.method _).1 e in
      cc

  method_of :
      (str_eq exchange.method (codes "GET") || str_eq exchange.method (codes "HEAD")) ≡ true
      → (exchange.method ≡ codes "GET") ⊎ (exchange.method ≡ codes "HEAD")
  method_of e = ground (
    arith,
    str_eq_sound exchange.method (codes "GET"),
    str_eq_sound exchange.method (codes "HEAD"),
  )

  module _ (enabled : Bool) (expiry : Option ℤ) (t : ℤ) where
    response-IsStored :
        Storable enabled expiry t
        → (exchange.method ≡ codes "GET") ⊎ (exchange.method ≡ codes "HEAD")
        → IsStored enabled expiry
            (store_response config held exchange stored_headers content_length t)
    unfolding store_response
    response-IsStored s method =
        let P = IsStored enabled expiry in
        split_on P (str_eq exchange.method (codes "HEAD")) _ _
          (λ head.
            (t, s, str_eq_sound exchange.method (codes "HEAD") head, head_request-IsHeadEntry t))
          (λ e.
            split_on P (too_large content_length config.cache_max_object_size_bytes) _ _ (λ a. tt)
              (λ small.
                split_on P (config.cache_require_content_length && not (is_some content_length)) _ _
                  (λ a. tt)
                  (λ known.
                    split_on P (config.cache_channel_capacity_chunks == 0) _ _ (λ a. tt)
                      (λ room.
                        split_on P
                          (is_some
                            (try_acquire_cache_write (cache_key exchange.method exchange.url) held))
                          _ _
                          (λ free. (
                            s,
                            get_of method e,
                            refl,
                            refl,
                            (refl, refl, refl),
                            within content_length small known,
                            ground arith,
                            not_held _ free,
                          ))
                          (λ a. tt)))))

  until-IsStored :
      (enabled : Bool) (expiry : Option ℤ)
      → enabled ≡ true
      → exchange.range_requested ≡ false
      → (exchange.status == 206) ≡ false
      → (exchange.method ≡ codes "GET") ⊎ (exchange.method ≡ codes "HEAD")
      → IsStored enabled expiry
          (store_until config held exchange stored_headers content_length expiry)
  until-IsStored enabled none on whole other method = tt
  until-IsStored enabled (some t) on whole other method =
      split_on (IsStored enabled (some t))
        (not (leb_ℤ t exchange.now) && is_success exchange.status) _ _
        (λ ok. response-IsStored enabled (some t) t (ground arith) method) (λ a. tt)

  -- What is stored of a response. Nothing, or: there is a cache, no range was asked for, the status
  -- is a success and not 206, and the response has an expiry, later than now; and either the method
  -- is HEAD and the entry has the request's key, method and URL, the response's status, stored
  -- headers and time, that expiry, no body path and the size 0; or it is GET, the tee and its writer
  -- get the request's key, the stored headers, the expiry and the settings, the announced
  -- length is within the limit on objects, and is there if it is required, the channel has room for
  -- a chunk, and nobody holds the permit of the key.
  pub storing-IsStored :
      (enabled : Bool) (expiry : Option ℤ)
      → IsStored enabled expiry
          (storing config held exchange stored_headers content_length enabled expiry)
  unfolding storing
  storing-IsStored enabled expiry =
      let P = IsStored enabled expiry in
      split_on P
        (enabled && (str_eq exchange.method (codes "GET") || str_eq exchange.method (codes "HEAD")))
        _ _
        (λ on.
          split_on P exchange.range_requested _ _ (λ a. tt)
            (λ whole.
              split_on P (exchange.status == 206) _ _ (λ a. tt)
                (λ other.
                  until-IsStored enabled expiry (ground arith) whole other
                    (method_of (ground arith)))))
        (λ a. tt)
