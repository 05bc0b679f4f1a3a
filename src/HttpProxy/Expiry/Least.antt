-- ===== src/HttpProxy/Expiry/Least.antt =====
-- The least of several bounds, one after another.
use http_cache.Prelude.{◌≡◌, Option, some, arith, ◌⊎◌, ◌↔◌, inl, subst, inr, sym, refl, none}
use http_cache.Prelude.Int.{ℤ, ◌≤ℤ◌, min_ℤ}

pub record IsLeast (P : ℤ → Type 0) (t : ℤ) : Type 0 where
  pub reached : P t
  pub least : (b : ℤ) → P b → t ≤ℤ b

le_refl : (a : ℤ) → a ≤ℤ a
le_refl a = omega arith

pub IsLeast-own : (a : ℤ) → IsLeast (λ t. t ≡ a) a
IsLeast-own a = record { reached = refl; least = λ b e. rw e (le_refl a) }

min_below :
    (a b c : ℤ) → (a ≤ℤ c → min_ℤ a b ≤ℤ c) × (min_ℤ a b ≤ℤ b) × ((min_ℤ a b ≡ a) ⊎ (min_ℤ a b ≡ b))
min_below a b c = ground arith

module _ (P : ℤ → Type 0) where
  pub IsLeast-iff : (Q : ℤ → Type 0) (t : ℤ) → ((b : ℤ) → P b ↔ Q b) → IsLeast P t → IsLeast Q t
  IsLeast-iff Q t same l = record {
    reached = (same t).0 l.reached;
    least = λ b q. l.least b ((same b).1 q);
  }

  min_reached : (a b t : ℤ) → P a → (t ≡ a) ⊎ (t ≡ b) → P t ⊎ (t ≡ b)
  min_reached a b t p (inl e) = inl (subst P (sym e) p)
  min_reached a b t p (inr e) = inr e

  min_least : (a b c : ℤ) → IsLeast P a → P c ⊎ (c ≡ b) → min_ℤ a b ≤ℤ c
  min_least a b c l (inl p) = (min_below a b c).0 (l.least c p)
  min_least a b c l (inr e) = rw e ((min_below a b b).1)

  min-IsLeast : (a b : ℤ) → IsLeast P a → IsLeast (λ t. P t ⊎ (t ≡ b)) (min_ℤ a b)
  min-IsLeast a b l = record {
    reached = min_reached a b _ l.reached (min_below a b b).2;
    least = λ c. min_least a b c l;
  }

-- A bound that may be missing.
abbrev pub limited : {B : Type 0} → (B → ℤ) → ℤ → Option B → ℤ
limited f t none = t
limited f t (some b) = min_ℤ t (f b)

abbrev pub Given : {B : Type 0} → (B → ℤ) → Option B → ℤ → Type 0
Given {B} f o c = (b : B) × (o ≡ some b) × (c ≡ f b)

module _ {B : Type 0} (P : ℤ → Type 0) (f : B → ℤ) where
  only_left : (c : ℤ) → P c ⊎ Given f none c → P c
  only_left c (inl p) = p
  only_left c (inr (b, e, h)) = cc

  Given-one : (b : B) (c : ℤ) → P c ⊎ (c ≡ f b) → P c ⊎ Given f (some b) c
  Given-one b c (inl p) = inl p
  Given-one b c (inr e) = inr (b, refl, e)

  one-Given : (b : B) (c : ℤ) → P c ⊎ Given f (some b) c → P c ⊎ (c ≡ f b)
  one-Given b c (inl p) = inl p
  one-Given b c (inr (b', e, h)) = inr cc

  pub limited-IsLeast :
      (o : Option B) (t : ℤ) → IsLeast P t → IsLeast (λ c. P c ⊎ Given f o c) (limited f t o)
  limited-IsLeast none t l = IsLeast-iff P _ t (λ c. (λ p. inl p, only_left c)) l
  limited-IsLeast (some b) t l =
      IsLeast-iff _ _ _ (λ c. (Given-one b c, one-Given b c)) (min-IsLeast P t (f b) l)
