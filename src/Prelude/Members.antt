-- ===== src/Prelude/Members.antt =====
-- Membership in lists that a Boolean test or an image picks, with the library's `Mem`.
use mathlib.Core.List.{
  Mem, Mem-prop, mem-cons, mem-cons_self, mem-cons_of_mem, not-mem-nil, List, [], ◌∷◌,
}
use mathlib.Core.Logic.Or
use mathlib.Core.Logic.{◌↔◌, inl, inr}
use mathlib.Core.Path.{◌≡◌}
use mathlib.Core.Bool.{Bool, true}
use tidyboard.Prelude.Tests.{Bool-cases}
use tidyboard.Prelude.Lists.{keep}

module _ {ℓ} {A : Type ℓ} where
  mem-keep-cons :
      (p : A → Bool) (x y : A) (ys : List A) → Mem x (keep p ys) → Mem x (keep p (y ∷ ys))
  mem-keep-cons p x y ys m = elim (Bool-cases (p y)) [
    | inl e ↦ rw e (mem-cons_of_mem y m)
    | inr e ↦ rw e m
  ]

  pub mem-keep_of_mem :
      (p : A → Bool) (x : A) (xs : List A) → Mem x xs → p x ≡ true → Mem x (keep p xs)
  mem-keep_of_mem p x [] m e = absurd (not-mem-nil m)
  mem-keep_of_mem p x (y ∷ ys) m e =
      Or.elim squash₁ (mem-cons.0 m) (λ same. rw (← same, e) mem-cons_self)
        (λ n. mem-keep-cons p x y ys (mem-keep_of_mem p x ys n e))

  Kept-prop : (p : A → Bool) (x : A) (xs : List A) → IsProp (Mem x xs × (p x ≡ true))
  Kept-prop p x xs = hlevel Mem-prop

  pub mem_of_mem-keep :
      (p : A → Bool) (x : A) (xs : List A) → Mem x (keep p xs) → Mem x xs × (p x ≡ true)
  mem_of_mem-keep p x [] m = absurd (not-mem-nil m)
  mem_of_mem-keep p x (y ∷ ys) m = elim (Bool-cases (p y)) [
    | inl e ↦
        Or.elim (Kept-prop p x (y ∷ ys)) (mem-cons.0 (rw e at m))
          (λ same. (rw same mem-cons_self, rw same e))
          (λ n. let (k, q) = mem_of_mem-keep p x ys n in (mem-cons_of_mem y k, q))
    | inr e ↦ let (k, q) = mem_of_mem-keep p x ys (rw e at m) in (mem-cons_of_mem y k, q)
  ]

  -- Membership in a filtered list.
  pub mem-keep_iff :
      (p : A → Bool) (x : A) (xs : List A) → Mem x (keep p xs) ↔ (Mem x xs × (p x ≡ true))
  mem-keep_iff p x xs = (mem_of_mem-keep p x xs, λ h. mem-keep_of_mem p x xs h.0 h.1)
