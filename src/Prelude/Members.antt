-- ===== src/Prelude/Members.antt =====
-- Which elements `keep` leaves in a list.
use mathlib.Core.List.{Memᴰ, List, [], ◌∷◌}
use mathlib.Core.Path.{◌≡◌, sym, ap, subst, ◌∙◌}
use mathlib.Core.Logic.{inl, inr}
use mathlib.Core.Bool.{Bool, true, false}
use http_cache.Prelude.Lists.{keep}
use http_cache.Prelude.Tests.{Bool-cases}

module _ {A : Type 0} (p : A → Bool) where
  keep-true : (x : A) (xs : List A) → p x ≡ true → keep p (x ∷ xs) ≡ x ∷ keep p xs
  keep-true x xs e = rw e

  keep-false : (x : A) (xs : List A) → p x ≡ false → keep p (x ∷ xs) ≡ keep p xs
  keep-false x xs e = rw e

  kept_head :
      (a x : A) (xs rest : List A)
      → p x ≡ true
      → (Memᴰ a rest → Memᴰ a xs × (p a ≡ true))
      → Memᴰ a (x ∷ rest)
      → Memᴰ a (x ∷ xs) × (p a ≡ true)
  kept_head a x xs rest e f (Memᴰ.head here) = (Memᴰ.head here, cc)
  kept_head a x xs rest e f (Memᴰ.tail i) = let (j, holds) = f i in (Memᴰ.tail j, holds)

  pub keep_sound : (xs : List A) (a : A) → Memᴰ a (keep p xs) → Memᴰ a xs × (p a ≡ true)
  keep_sound [] a i = elim i [ ]
  keep_sound (x ∷ xs) a i = elim (Bool-cases (p x)) [
    | inl e ↦ kept_head a x xs _ e (keep_sound xs a) (subst (Memᴰ a) (keep-true x xs e) i)
    | inr e ↦
        let (j, holds) = keep_sound xs a (subst (Memᴰ a) (keep-false x xs e) i) in
        (Memᴰ.tail j, holds)
  ]

  keep_tail : (x : A) (xs : List A) (a : A) → Memᴰ a (keep p xs) → Memᴰ a (keep p (x ∷ xs))
  keep_tail x xs a i = elim (Bool-cases (p x)) [
    | inl e ↦ subst (Memᴰ a) (sym (keep-true x xs e)) (Memᴰ.tail i)
    | inr e ↦ subst (Memᴰ a) (sym (keep-false x xs e)) i
  ]

  pub keep_complete : (xs : List A) (a : A) → Memᴰ a xs → p a ≡ true → Memᴰ a (keep p xs)
  keep_complete [] a i e = elim i [ ]
  keep_complete (x ∷ xs) a (Memᴰ.head here) e =
      subst (Memᴰ a) (sym (keep-true x xs (ap p (sym here) ∙ e))) (Memᴰ.head here)
  keep_complete (x ∷ xs) a (Memᴰ.tail i) e = keep_tail x xs a (keep_complete xs a i e)
