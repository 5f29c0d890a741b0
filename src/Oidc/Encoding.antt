-- ===== src/Oidc/Encoding.antt =====
-- web/src/lib/auth/oidc.ts, `base64UrlEncode`: the texts it gives, for a `btoa` that gives base64.
use Prim.Native.Char.{Char, code}
use Prim.Native.String.{[] as nil, ◌∷◌ as chars}
use tidyboard.Prelude.{
  ℕ, Bool, true, false, ◌&&◌, ◌||◌, List, String, leb, ◌==◌, ◌≡◌, ◌⊎◌, inl, inr, arith, Bool-cases,
  refl,
}
use tidyboard.Oidc.{url_char, url_chars, strip_onto, strip_padding, base64_url_encode}

abbrev alphanumeric : ℕ → Bool
alphanumeric n = leb 48 n && leb n 57 || (leb 65 n && leb n 90 || leb 97 n && leb n 122)

-- The characters that base64 uses, without the padding.
abbrev base64_char : ℕ → Bool
base64_char n = alphanumeric n || (n == 43 || n == 47)

-- The characters of a URL's unreserved set that base64url uses.
abbrev pub safe_char : ℕ → Bool
safe_char n = alphanumeric n || (n == 45 || n == 95)

abbrev Padding : String → Type 0
Padding nil = Unit
Padding (chars c s) = (code c ≡ 61) × Padding s

-- A base64 text: characters of the alphabet, then padding.
abbrev pub Base64 : String → Type 0
Base64 nil = Unit
Base64 (chars c s) = ((base64_char (code c) ≡ true) × Base64 s) ⊎ ((code c ≡ 61) × Padding s)

abbrev pub UrlSafe : String → Type 0
UrlSafe nil = Unit
UrlSafe (chars c s) = (safe_char (code c) ≡ true) × UrlSafe s

safe_elsewhere :
    (n : ℕ) → base64_char n ≡ true → (n == 43) ≡ false → (n == 47) ≡ false → safe_char n ≡ true
safe_elsewhere n h p q = ground arith

url_char-safe : (c : Char) → base64_char (code c) ≡ true → safe_char (code (url_char c)) ≡ true
url_char-safe c h = elim (Bool-cases (code c == 43)) [
  | inl e ↦ rw e refl
  | inr e ↦ elim (Bool-cases (code c == 47)) [
    | inl d ↦ rw (e, d) refl
    | inr d ↦ rw (e, d) (safe_elsewhere (code c) h e d)
  ]
]

url_char-padding : (c : Char) → code c ≡ 61 → code (url_char c) ≡ 61
url_char-padding c h = rw (e, d) h
  where
    e : (code c == 43) ≡ false
    e = rw h refl

    d : (code c == 47) ≡ false
    d = rw h refl

strip_onto-safe :
    (c : Char) (s : String) → safe_char (code c) ≡ true → UrlSafe s → UrlSafe (strip_onto c s)
strip_onto-safe c nil h k = elim (Bool-cases (code c == 61)) [
  | inl e ↦ rw e tt
  | inr e ↦ rw e (h, k)
]
strip_onto-safe c (chars d s) h k = (h, k)

strip_onto-padding : (c : Char) → code c ≡ 61 → strip_onto c nil ≡ nil
strip_onto-padding c h = rw e refl
  where
    e : (code c == 61) ≡ true
    e = rw h refl

strip-Padding : (s : String) → Padding s → strip_padding (url_chars s) ≡ nil
strip-Padding nil h = refl
strip-Padding (chars c s) (h, k) =
    rw (strip-Padding s k) (strip_onto-padding (url_char c) (url_char-padding c h))

strip-Base64 : (s : String) → Base64 s → UrlSafe (strip_padding (url_chars s))
strip-Base64 nil h = tt
strip-Base64 (chars c s) (inl (h, k)) =
    strip_onto-safe (url_char c) (strip_padding (url_chars s)) (url_char-safe c h)
      (strip-Base64 s k)
strip-Base64 (chars c s) (inr h) = rw (strip-Padding (chars c s) h) tt

-- Where `btoa` gives base64 (characters of its alphabet, then padding), every character of
-- `base64UrlEncode` is a letter, a digit, "-" or "_", which a URL carries as it stands.
pub base64_url_encode-UrlSafe :
    (btoa : List ℕ → String) (bytes : List ℕ)
    → Base64 (btoa bytes)
    → UrlSafe (base64_url_encode btoa bytes)
base64_url_encode-UrlSafe btoa bytes h = strip-Base64 (btoa bytes) h
