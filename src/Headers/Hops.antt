-- ===== src/Headers/Hops.antt =====
-- What `strip_hop_by_hop` of src/headers.rs removes and what it keeps.
use http_cache.Prelude.{
  refl, ◌∷◌, List, ◌↔◌, ◌≡◌, Str, some, ◌⊎◌, none, Option-cases, inl, inr, ◌∙◌, Option, ap, codes,
  [], subst, sym,
}
use http_cache.Headers.{
  HeaderLib, hop_by_hop, remove_each, strip_hop_by_hop, connection_names, remove_some,
}
use mathlib.Core.List.{Memᴰ}

neither : {A : Type 0} {B : Type 0} → ¬ A → ¬ B → ¬ (A ⊎ B)
neither f g (inl a) = f a
neither f g (inr b) = g b

hop_of : {A : Type 0} {B : Type 0} {C : Type 0} → (A ⊎ B) ⊎ C → B ⊎ A ⊎ C
hop_of (inl (inl a)) = inr (inl a)
hop_of (inl (inr b)) = inl b
hop_of (inr c) = inr (inr c)

of_hop : {A : Type 0} {B : Type 0} {C : Type 0} → B ⊎ A ⊎ C → (A ⊎ B) ⊎ C
of_hop (inr (inl a)) = inl (inl a)
of_hop (inl b) = inl (inr b)
of_hop (inr (inr c)) = inr c

module _ (lib : HeaderLib) where
  open lib use {
    HeaderName, HeaderValue, HeaderMap, from_bytes, connection, proxy_authorization, get, remove,
    iter,
  }

  -- A name that some text of the list spells.
  abbrev pub Spelled : List Str → HeaderName → Type 0
  Spelled names name = (s : Str) × Memᴰ s names × (from_bytes s ≡ some name)

  -- The names that belong to this hop: the fixed ones, those of the first `Connection` value, and
  -- the proxy's credentials.
  abbrev pub IsHop : HeaderMap → HeaderName → Type 0
  IsHop m name =
      Spelled hop_by_hop name ⊎ Spelled (connection_names lib m) name ⊎ (name ≡ proxy_authorization)

  -- Two maps where the second has lost the names of `P` and nothing else.
  pub record Without (P : HeaderName → Type 0) (m after : HeaderMap) : Type 0 where
    pub entries :
        (entry : HeaderName × HeaderValue)
        → Memᴰ entry (iter after) ↔ (Memᴰ entry (iter m) × ¬ P entry.0)
    pub kept : (name : HeaderName) → ¬ P name → get after name ≡ get m name
    pub gone : (name : HeaderName) → P name → get after name ≡ none

  no_entry :
      (m : HeaderMap) (name : HeaderName)
      → ((value : HeaderValue) → ¬ Memᴰ (name, value) (iter m))
      → get m name ≡ none
  no_entry m name h = elim (Option-cases (get m name)) [
    | inl e ↦ e
    | inr (value, e) ↦ absurd (h value (lib.get_some m name value e))
  ]

  gone_of_entries :
      (P : HeaderName → Type 0) (m after : HeaderMap)
      → ((entry : HeaderName × HeaderValue)
          → Memᴰ entry (iter after)
          → Memᴰ entry (iter m) × ¬ P entry.0)
      → (name : HeaderName) → P name
      → get after name ≡ none
  gone_of_entries P m after h name p = no_entry after name (λ value i. (h (name, value) i).1 p)

  remove-Without : (m : HeaderMap) (name : HeaderName) → Without (λ n. n ≡ name) m (remove name m)
  remove-Without m name = record {
    entries = lib.iter-remove m name;
    kept = λ n differs. lib.get-remove_other m name n differs;
    gone = gone_of_entries (λ n. n ≡ name) m _ (λ entry. (lib.iter-remove m name entry).0);
  }

  Without-iff :
      (P Q : HeaderName → Type 0) (m after : HeaderMap)
      → ((name : HeaderName) → P name ↔ Q name)
      → Without P m after
      → Without Q m after
  Without-iff P Q m after same w = record {
    entries = λ entry. (
      λ i. let (j, out) = (w.entries entry).0 i in (j, λ q. out ((same entry.0).1 q)),
      λ (j, out). (w.entries entry).1 (j, λ p. out ((same entry.0).0 p)),
    );
    kept = λ name out. w.kept name (λ p. out ((same name).0 p));
    gone = λ name q. w.gone name ((same name).1 q);
  }

  -- One loss after another.
  then_entries :
      (P Q : HeaderName → Type 0) (a b c : HeaderMap)
      → Without P a b
      → Without Q b c
      → (entry : HeaderName × HeaderValue)
      → Memᴰ entry (iter c) ↔ (Memᴰ entry (iter a) × ¬ (P entry.0 ⊎ Q entry.0))
  then_entries P Q a b c v w entry = (
    λ i.
        let (j, not_q) = (w.entries entry).0 i in
        let (k, not_p) = (v.entries entry).0 j in (k, neither not_p not_q),
    λ (k, out). (w.entries entry).1 ((v.entries entry).1 (k, λ p. out (inl p)), λ q. out (inr q)),
  )

  Without-trans :
      (P Q : HeaderName → Type 0) (a b c : HeaderMap)
      → Without P a b
      → Without Q b c
      → Without (λ name. P name ⊎ Q name) a c
  Without-trans P Q a b c v w = record {
    entries = then_entries P Q a b c v w;
    kept = λ name out. w.kept name (λ q. out (inr q)) ∙ v.kept name (λ p. out (inl p));
    gone = gone_of_entries (λ n. P n ⊎ Q n) a c (λ e. (then_entries P Q a b c v w e).0);
  }

  remove_some-Without :
      (o : Option HeaderName) (m : HeaderMap)
      → Without (λ name. o ≡ some name) m (remove_some lib o m)
  remove_some-Without none m = record {
    entries = λ entry. (λ i. (i, λ e. cc), λ (i, out). i);
    kept = λ name out. refl;
    gone = λ name e. cc;
  }
  remove_some-Without (some removed) m =
      Without-iff _ _ m _ (λ name. (λ e. cc, λ e. cc)) (remove-Without m removed)

  Spelled-here :
      (s : Str) (names : List Str) (name : HeaderName)
      → (from_bytes s ≡ some name) ⊎ Spelled names name
      → Spelled (s ∷ names) name
  Spelled-here s names name (inl e) = (s, Memᴰ.head refl, e)
  Spelled-here s names name (inr (t, i, e)) = (t, Memᴰ.tail i, e)

  Spelled-cases :
      (s : Str) (names : List Str) (name : HeaderName)
      → Spelled (s ∷ names) name
      → (from_bytes s ≡ some name) ⊎ Spelled names name
  Spelled-cases s names name (t, Memᴰ.head here, e) = inl (ap from_bytes (sym here) ∙ e)
  Spelled-cases s names name (t, Memᴰ.tail i, e) = inr (t, i, e)

  remove_each-Without :
      (names : List Str) (m : HeaderMap) → Without (Spelled names) m (remove_each lib names m)
  unfolding remove_each
  remove_each-Without [] m = record {
    entries = λ entry. (λ i. (i, λ (s, j, e). elim j [ ]), λ (i, out). i);
    kept = λ name out. refl;
    gone = λ name (s, j, e). elim j [ ];
  }
  remove_each-Without (s ∷ names) m =
      Without-iff _ (Spelled (s ∷ names)) m _
        (λ name. (Spelled-here s names name, Spelled-cases s names name))
        (Without-trans _ _ m _ _ (remove_some-Without (from_bytes s) m)
          (remove_each-Without names (remove_some lib (from_bytes s) m)))

  -- `strip_hop_by_hop` takes out every value of the names in `HOP_BY_HOP`, of the names that the
  -- first `Connection` value lists and of `Proxy-Authorization`, and keeps every value of every
  -- other name.
  pub strip_hop_by_hop-Without : (m : HeaderMap) → Without (IsHop m) m (strip_hop_by_hop lib m)
  unfolding strip_hop_by_hop
  strip_hop_by_hop-Without m =
      let listed = remove_each-Without (connection_names lib m) m in
      let fixed = remove_each-Without hop_by_hop (remove_each lib (connection_names lib m) m) in
      Without-iff _ (IsHop m) m _ (λ name. (hop_of, of_hop))
        (Without-trans _ _ m _ _ (Without-trans _ _ m _ _ listed fixed)
          (remove-Without _ proxy_authorization))

  no_connection : (m : HeaderMap) → get (strip_hop_by_hop lib m) connection ≡ none
  no_connection m =
      (strip_hop_by_hop-Without m).gone connection
        (inl (codes "connection", Memᴰ.head refl, lib.from_bytes-connection))

  no_names : (m : HeaderMap) → get m connection ≡ none → connection_names lib m ≡ []
  no_names m e = rw e

  -- What is left after one call belongs to no hop, for the second call either.
  second-IsHop :
      (m : HeaderMap) (name : HeaderName) → IsHop (strip_hop_by_hop lib m) name → IsHop m name
  second-IsHop m name (inl fixed) = inl fixed
  second-IsHop m name (inr (inl (s, i, e))) =
      elim (subst (Memᴰ s) (no_names (strip_hop_by_hop lib m) (no_connection m)) i) [ ]
  second-IsHop m name (inr (inr e)) = inr (inr e)

  -- A second call of `strip_hop_by_hop` changes nothing that can be looked up.
  pub strip_hop_by_hop_idem :
      (m : HeaderMap) (name : HeaderName)
      → get (strip_hop_by_hop lib (strip_hop_by_hop lib m)) name ≡ get (strip_hop_by_hop lib m) name
  strip_hop_by_hop_idem m name =
      let once = strip_hop_by_hop-Without m in
      let twice = strip_hop_by_hop-Without (strip_hop_by_hop lib m) in
      elim (Option-cases (get (strip_hop_by_hop lib m) name)) [
        | inl e ↦
            no_entry _ name
              (λ value i. lib.get_none _ name value e ((twice.entries (name, value)).0 i).0)
            ∙ sym e
        | inr (value, e) ↦ twice.kept name (λ hop.
            ((once.entries (name, value)).0 (lib.get_some _ name value e)).1
              (second-IsHop m name hop))
      ]
