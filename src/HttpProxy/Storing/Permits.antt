-- ===== src/HttpProxy/Storing/Permits.antt =====
-- The write permits of src/http_proxy/cache_pipeline.rs exclude one another.
use http_cache.HttpProxy.Storing.{try_acquire_cache_write, drop_permit}
use http_cache.Prelude.{
  if◌then◌else◌, refl, none, some, [], ◌∷◌, true, false, Str, List, Option, any, ◌≡◌, str_eq, keep,
  not, any_of_Memᴰ, str_eq_refl, str_eq_sound, Bool-cases, inl, inr, sym, subst, ap, is_some,
}
use mathlib.Core.List.{Memᴰ}

-- A permit asked for, or one that lives given back, by its key.
pub data Call : Type 0 where
  acquire : Str → Call
  give_back : Str → Call

-- The set of keys behind the mutex, and the keys of the permits that were granted and not yet given
-- back, a key as often as there are permits for it.
pub record Locks : Type 0 where
  pub held : List Str
  pub live : List Str

abbrev pub unlocked : Locks
unlocked = record { held = []; live = [] }

-- One permit less for the key, if there is one.
abbrev pub less_one : Str → List Str → List Str
less_one key [] = []
less_one key (k ∷ live) = if str_eq k key then live else k ∷ less_one key live

abbrev pub granted : Str → Locks → Option (List Str) → Locks
granted key s none = s
granted key s (some taken) = record { held = taken; live = key ∷ s.live }

abbrev pub after_call : Call → Locks → Locks
after_call (acquire key) s = granted key s (try_acquire_cache_write key s.held)
after_call (give_back key) s = record { held = drop_permit key s.held; live = less_one key s.live }

unfoldable pub after_calls : List Call → Locks → Locks
unfolding try_acquire_cache_write drop_permit
after_calls [] s = s
after_calls (call ∷ calls) s = after_calls calls (after_call call s)

-- No key is in the list twice.
abbrev pub IsExclusive : List Str → Type 0
IsExclusive [] = Unit
IsExclusive (key ∷ held) = (¬ Memᴰ key held) × IsExclusive held

free : (key : Str) (held : List Str) → any (λ k. str_eq k key) held ≡ false → ¬ Memᴰ key held
free key held e i = let f = any_of_Memᴰ (λ k. str_eq k key) held key i (str_eq_refl key) in cc

taken : (key : Str) (held : List Str) → Memᴰ key held → any (λ k. str_eq k key) held ≡ true
taken key held i = any_of_Memᴰ (λ k. str_eq k key) held key i (str_eq_refl key)

untaken : (key : Str) (held : List Str) → ¬ Memᴰ key held → any (λ k. str_eq k key) held ≡ false
untaken key [] out = refl
untaken key (k ∷ held) out = elim (Bool-cases (str_eq k key)) [
  | inl same ↦ absurd (out (Memᴰ.head (sym (str_eq_sound k key same))))
  | inr other ↦ rw other (untaken key held (λ i. out (Memᴰ.tail i)))
]

-- The set holds exactly the keys of the live permits, of which no two are for one key.
record IsAgreed (s : Locks) : Type 0 where
  same : s.held ≡ s.live
  exclusive : IsExclusive s.live

-- Without a permit for the key nothing is dropped.
drop_none :
    (key : Str) (live : List Str) → ¬ Memᴰ key live → keep (λ k. not (str_eq k key)) live ≡ live
drop_none key [] out = refl
drop_none key (k ∷ live) out = elim (Bool-cases (str_eq k key)) [
  | inl same ↦ absurd (out (Memᴰ.head (sym (str_eq_sound k key same))))
  | inr other ↦ rw (other, drop_none key live (λ i. out (Memᴰ.tail i)))
]

drop_one :
    (key : Str) (live : List Str)
    → IsExclusive live
    → keep (λ k. not (str_eq k key)) live ≡ less_one key live
drop_one key [] x = refl
drop_one key (k ∷ live) (alone, x) = elim (Bool-cases (str_eq k key)) [
  | inl same ↦
      let e : k ≡ key = str_eq_sound k key same in
      rw same (drop_none key live (subst (λ q. ¬ Memᴰ q live) e alone))
  | inr other ↦ rw (other, drop_one key live x)
]

behind_head :
    (q k : Str) (live fewer : List Str)
    → (Memᴰ k fewer → Memᴰ k live)
    → Memᴰ k (q ∷ fewer)
    → Memᴰ k (q ∷ live)
behind_head q k live fewer f (Memᴰ.head here) = Memᴰ.head here
behind_head q k live fewer f (Memᴰ.tail i) = Memᴰ.tail (f i)

less_one-Memᴰ : (key k : Str) (live : List Str) → Memᴰ k (less_one key live) → Memᴰ k live
less_one-Memᴰ key k [] i = i
less_one-Memᴰ key k (q ∷ live) i = elim (Bool-cases (str_eq q key)) [
  | inl same ↦ Memᴰ.tail (rw same at i)
  | inr other ↦ behind_head q k live (less_one key live) (less_one-Memᴰ key k live) (rw other at i)
]

less_one-IsExclusive :
    (key : Str) (live : List Str) → IsExclusive live → IsExclusive (less_one key live)
less_one-IsExclusive key [] x = tt
less_one-IsExclusive key (k ∷ live) (alone, x) = elim (Bool-cases (str_eq k key)) [
  | inl same ↦ rw same x
  | inr other ↦
      rw other ((λ i. alone (less_one-Memᴰ key k live i)), less_one-IsExclusive key live x)
]

acquire-IsAgreed : (key : Str) (s : Locks) → IsAgreed s → IsAgreed (after_call (acquire key) s)
unfolding try_acquire_cache_write
acquire-IsAgreed key s a = elim (Bool-cases (any (λ k. str_eq k key) s.held)) [
  | inl busy ↦ rw busy a
  | inr idle ↦ rw idle (record {
    same = ap (◌∷◌ key) a.same;
    exclusive = (free key s.live (rw⁻¹ a.same idle), a.exclusive);
  })
]

call-IsAgreed : (call : Call) (s : Locks) → IsAgreed s → IsAgreed (after_call call s)
unfolding drop_permit
call-IsAgreed (acquire key) s a = acquire-IsAgreed key s a
call-IsAgreed (give_back key) s a = record {
  same = rw a.same (drop_one key s.live a.exclusive);
  exclusive = less_one-IsExclusive key s.live a.exclusive;
}

calls-IsAgreed : (calls : List Call) (s : Locks) → IsAgreed s → IsAgreed (after_calls calls s)
unfolding after_calls
calls-IsAgreed [] s a = a
calls-IsAgreed (call ∷ calls) s a =
    calls-IsAgreed calls (after_call call s) (call-IsAgreed call s a)

-- In whatever order permits are asked for and given back, no two live permits are for one key: as
-- long as a permit for a key lives, another is refused, and it is granted when none does.
pub after_calls-IsExclusive :
    (calls : List Call)
    → let s = after_calls calls unlocked in
      IsExclusive s.live
      × ((key : Str) → Memᴰ key s.live → try_acquire_cache_write key s.held ≡ none)
      × ((key : Str) → ¬ Memᴰ key s.live → is_some (try_acquire_cache_write key s.held) ≡ true)
unfolding try_acquire_cache_write
after_calls-IsExclusive calls =
    let s = after_calls calls unlocked in
    let a = calls-IsAgreed calls unlocked (record { same = refl; exclusive = tt }) in
    (
      a.exclusive,
      λ key i. rw (a.same, taken key s.live i),
      λ key out. rw (a.same, untaken key s.live out) refl,
    )
