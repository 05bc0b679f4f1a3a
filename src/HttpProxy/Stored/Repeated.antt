-- ===== src/HttpProxy/Stored/Repeated.antt =====
-- Which of the stored headers that spell one name a hit of src/http_proxy/cache_pipeline.rs answers.
use http_cache.Errors.{Result, ok, err}
use http_cache.Body.{Bytes}
use http_cache.Cache.{CacheEntry}
use http_cache.Headers.Hops.{IsHop, strip_hop_by_hop-Without}
use http_cache.HttpProxy.Stored.{
  insert_pairs, insert_some, cached_response, replayed_headers, status_of, Response, with_body,
  with_length,
}
use http_cache.Headers.{HeaderLib}
use http_cache.Prelude.{
  refl, none, some, [], ◌∷◌, inl, inr, List, Option, Str, ◌≢◌, ◌≡◌, All, ap, ◌∙◌, ◌++◌, sym, ◌⊎◌,
  Bool-cases, ℕ, str_eq, codes,
}

module _ (lib : HeaderLib) where
  open lib use {
    HeaderName, HeaderValue, HeaderMap, from_bytes, as_str, from_str, to_str, content_length, empty,
    iter, get, insert,
  }

  -- A text that spells another name.
  abbrev pub Others : HeaderName → List (Str × Str) → Type 0
  Others name pairs = All (λ pair. from_bytes pair.0 ≢ some name) pairs

  insert_some_other :
      (name : HeaderName) (o : Option HeaderName) (v : Option HeaderValue) (m : HeaderMap)
      → o ≢ some name
      → get (insert_some lib o v m) name ≡ get m name
  insert_some_other name none v m differs = refl
  insert_some_other name (some n) none m differs = refl
  insert_some_other name (some n) (some v) m differs =
      lib.get-insert_other m n name v (λ e. differs (ap some (sym e)))

  insert_pairs-Others :
      (name : HeaderName) (pairs : List (Str × Str)) (m : HeaderMap)
      → Others name pairs
      → get (insert_pairs lib pairs m) name ≡ get m name
  unfolding insert_pairs
  insert_pairs-Others name [] m others = refl
  insert_pairs-Others name ((n, v) ∷ pairs) m (other, others) =
      insert_pairs-Others name pairs _ others
      ∙ insert_some_other name (from_bytes n) (from_str v) m other

  -- Of the pairs that spell one name the loop keeps the last, if its value is accepted.
  insert_pairs_last :
      (before after : List (Str × Str)) (n v : Str) (name : HeaderName) (value : HeaderValue)
      (m : HeaderMap)
      → from_bytes n ≡ some name
      → from_str v ≡ some value
      → Others name after
      → get (insert_pairs lib (before ++ ((n, v) ∷ after)) m) name ≡ some value
  unfolding insert_pairs
  insert_pairs_last [] after n v name value m e f others =
      insert_pairs-Others name after _ others ∙ rw (e, f) (lib.get-insert_same m name value)
  insert_pairs_last ((n', v') ∷ before) after n v name value m e f others =
      insert_pairs_last before after n v name value _ e f others

  -- The headers of a hit, for a name that it does not set itself.
  with_body-headers :
      (status : ℕ) (headers : HeaderMap) (body : Result Bytes) (r : Response lib)
      → with_body lib status headers body ≡ ok r
      → r.headers ≡ headers
  with_body-headers status headers (ok bytes) r h = ap headers_of (sym h)
    where
      headers_of : Result (Response lib) → HeaderMap
      headers_of (ok q) = q.headers
      headers_of (err e) = headers
  with_body-headers status headers (err e) r h = cc

  with_length-get :
      (open_file : Str → Str ⊎ Bytes) (entry : CacheEntry) (headers : HeaderMap)
      (length : Option HeaderValue) (r : Response lib) (name : HeaderName)
      → name ≢ content_length
      → with_length lib open_file entry headers length ≡ ok r
      → get r.headers name ≡ get headers name
  with_length-get open_file entry headers none r name other h = cc
  with_length-get open_file entry headers (some value) r name other h =
      ap (λ m. get m name) (with_body-headers _ (insert content_length value headers) _ r h)
      ∙ lib.get-insert_other headers content_length name value other

  cached_response-get :
      (open_file : Str → Str ⊎ Bytes) (method : Str) (entry : CacheEntry) (r : Response lib)
      (name : HeaderName)
      → name ≢ content_length
      → cached_response lib open_file method entry ≡ ok r
      → get r.headers name ≡ get (replayed_headers lib entry) name
  unfolding cached_response
  cached_response-get open_file method entry r name other h =
      elim (Bool-cases (str_eq method (codes "HEAD"))) [
        | inl head ↦
            let e : with_body lib (status_of lib entry.status) (replayed_headers lib entry) (ok [])
                ≡ ok r =
              rw head at h in
            ap (λ m. get m name) (with_body-headers _ _ (ok []) r e)
        | inr body ↦ with_length-get open_file entry _ _ r name other (rw body at h)
      ]

  -- Of the stored pairs that spell one name a hit answers the last, if its value is accepted as a
  -- header value, and if the name is neither Content-Length, which the hit sets itself, nor one
  -- that is taken out as hop-by-hop.
  pub cached_response_last :
      (open_file : Str → Str ⊎ Bytes) (method : Str) (entry : CacheEntry) (r : Response lib)
      (before after : List (Str × Str)) (n v : Str) (name : HeaderName) (value : HeaderValue)
      → cached_response lib open_file method entry ≡ ok r
      → entry.headers ≡ before ++ ((n, v) ∷ after)
      → from_bytes n ≡ some name
      → from_str v ≡ some value
      → Others name after
      → name ≢ content_length
      → ¬ IsHop lib (insert_pairs lib entry.headers empty) name
      → get r.headers name ≡ some value
  unfolding replayed_headers
  cached_response_last open_file method entry r before after n v name value h pairs spelled accepted
        others other no_hop =
      cached_response-get open_file method entry r name other h
      ∙ (strip_hop_by_hop-Without lib (insert_pairs lib entry.headers empty)).kept name no_hop
      ∙ ap (λ p. get (insert_pairs lib p empty) name) pairs
      ∙ insert_pairs_last before after n v name value empty spelled accepted others
