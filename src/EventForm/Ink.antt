-- ===== src/EventForm/Ink.antt =====
-- Texts that are not blank, and what `trim` leaves of them.
use Prim.Native.Char.{Char}
use Prim.Native.String.{[] as nil, ◌∷◌ as chars}
use mathlib.Core.Bool.{false≢true}
use tidyboard.Prelude.{
  ◌≡◌, refl, ◌⊎◌, Bool, true, false, not, ◌||◌, String, truthy, Bool-cases, inl, inr, arith,
}
use tidyboard.Prelude.Words.{is_space, end_onto, trim_start, trim_end, trim}

-- Some character of the text is no white space.
abbrev pub has_ink : String → Bool
has_ink nil = false
has_ink (chars c s) = not (is_space c) || has_ink s

end_onto-ink : (c : Char) (s : String) → has_ink s ≡ true → has_ink (end_onto c s) ≡ true
end_onto-ink c nil h = absurd (false≢true h)
end_onto-ink c (chars d s) h = ground arith

trim_end-ink : (s : String) → (has_ink (trim_end s) ≡ true) ⊎ (trim_end s ≡ "")
trim_end-ink nil = inr refl
trim_end-ink (chars c s) = elim (trim_end-ink s) [
  | inl h ↦ inl (end_onto-ink c (trim_end s) h)
  | inr e ↦ elim (Bool-cases (is_space c)) [
    | inl b ↦ inr (rw (e, b) refl)
    | inr b ↦ inl (rw (e, b, b) refl)
  ]
]

pub trim-ink : (s : String) → truthy (trim s) ≡ true → has_ink (trim s) ≡ true
trim-ink s h = elim (trim_end-ink (trim_start s)) [
  | inl e ↦ e
  | inr e ↦ absurd (false≢true (rw e at h))
]
