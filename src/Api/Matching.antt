-- ===== src/Api/Matching.antt =====
-- Which cached keys the filters that a piece of the client invalidates match.
use tidyboard.Prelude.{
  ◌≡◌, refl, sym, Bool, true, false, ◌&&◌, not, List, [], ◌∷◌, String, any, Bool-cases, inl, inr,
  arith, str_eq, eq_iff, ◌∙◌,
}
use tidyboard.Api.Keys.{Key, text, Filter, Begins, QueryClient}

-- Some filter of the list matches the key.
abbrev pub refreshes : QueryClient → List Filter → Key → Bool
refreshes client filters key = any (λ f. client.matches f key) filters

-- The first text of a filter, if it has one, is another.
abbrev pub avoids : String → Filter → Bool
avoids s [] = false
avoids s (t ∷ _) = not (str_eq t s)

abbrev pub all_avoid : String → List Filter → Bool
all_avoid s [] = true
all_avoid s (f ∷ fs) = avoids s f && all_avoid s fs

-- A key begins with one text at most.
Begins-same :
    (s t : String) (f : Filter) (k : Key) → Begins (s ∷ []) k → Begins (t ∷ f) k → str_eq t s ≡ true
Begins-same s t f [] b c = absurd b
Begins-same s t f (x ∷ k) (b, _) (c, _) = (eq_iff t s).1 (text_inj (sym c ∙ b))
  where
    text_inj : {a b : String} → text a ≡ text b → a ≡ b
    text_inj e = ground arith

pub and-right : (a b : Bool) → (a && b) ≡ true → b ≡ true
and-right a b h = ground arith

pub unmatched :
    (client : QueryClient) (s : String) (k : Key) (fs : List Filter)
    → all_avoid s fs ≡ true
    → Begins (s ∷ []) k
    → refreshes client fs k ≡ false
unmatched client s k [] h b = refl
unmatched client s k ([] ∷ fs) h b = ground arith
unmatched client s k ((t ∷ f) ∷ fs) h b = elim (Bool-cases (client.matches (t ∷ f) k)) [
  | inl e ↦ let same = Begins-same s t f k b ((client.matches_iff (t ∷ f) k).0 e) in ground arith
  | inr e ↦
      ground (arith, unmatched client s k fs (and-right (not (str_eq t s)) (all_avoid s fs) h) b)
]
