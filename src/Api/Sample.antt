-- ===== src/Api/Sample.antt =====
-- A query library and a platform that can be run: what stands for code outside the repository in the
-- tests.
use tidyboard.Prelude.{
  ◌≡◌, refl, ◌↔◌, Bool, true, false, ◌&&◌, List, [], ◌∷◌, String, ◌+++◌, str_eq, eq_iff, arith, ap,
}
use tidyboard.Api.Request.{Platform}
use tidyboard.Api.Keys.{Key, Filter, Part, text, number, flag, absent, options, Begins, QueryClient}

abbrev pub same_part : Part → String → Bool
same_part (text t) s = str_eq t s
same_part (number _) s = false
same_part (flag _) s = false
same_part absent s = false
same_part (options _) s = false

abbrev pub begins : Filter → Key → Bool
begins [] k = true
begins (s ∷ f) [] = false
begins (s ∷ f) (x ∷ k) = same_part x s && begins f k

pub same_part_iff : (x : Part) (s : String) → (same_part x s ≡ true) ↔ (x ≡ text s)
same_part_iff (text t) s = (λ h. ap text ((eq_iff t s).0 h), λ e. (eq_iff t s).1 (text_inj e))
  where
    text_inj : {a b : String} → text a ≡ text b → a ≡ b
    text_inj e = ground arith
same_part_iff (number _) s = (λ h. ground arith, λ e. ground arith)
same_part_iff (flag _) s = (λ h. ground arith, λ e. ground arith)
same_part_iff absent s = (λ h. ground arith, λ e. ground arith)
same_part_iff (options _) s = (λ h. ground arith, λ e. ground arith)

and-both : (a b : Bool) → (a && b) ≡ true → (a ≡ true) × (b ≡ true)
and-both true b h = (refl, h)
and-both false b h = ground arith

pub begins_iff : (f : Filter) (k : Key) → (begins f k ≡ true) ↔ Begins f k
begins_iff [] k = (λ _. tt, λ _. refl)
begins_iff (s ∷ f) [] = (λ h. ground arith, λ b. absurd b)
begins_iff (s ∷ f) (x ∷ k) = (
  λ h.
      let (a, b) = and-both (same_part x s) (begins f k) h in
      ((same_part_iff x s).0 a, (begins_iff f k).0 b),
  λ h. rw ((same_part_iff x s).1 h.0, (begins_iff f k).1 h.1) refl,
)

abbrev pub client : QueryClient
client = record { matches = begins; matches_iff = begins_iff }

abbrev pub pairs : List (String × String) → String
pairs [] = ""
pairs ((k, v) ∷ rest) = k +++ "=" +++ v +++ "&" +++ pairs rest

abbrev pub platform : Platform
platform = record { encode_uri_component = λ s. s; search_params = pairs; number_text = λ n. "50" }
