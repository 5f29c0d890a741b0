-- ===== src/Prelude/Words.antt =====
-- The methods of a JavaScript text that the screens' helpers call. The Unicode tables of upper and lower
-- case are a parameter; a character above U+FFFF, which `charAt` cuts in two, is kept whole here.
use Prim.Native.Char.{Char, code}
use Prim.Native.String.{String, [] as nil, ◌∷◌ as chars}
use mathlib.Core.Bool.{Bool, ◌&&◌, ◌||◌}
use mathlib.Core.List.{List, [], ◌∷◌}
use text.Mathlib.Text.{starts_with}
use tidyboard.Prelude.Tests.{leb, ◌==◌, if◌then◌else◌}
use tidyboard.Prelude.Text.{◌+++◌, truthy}

-- `toUpperCase` and `toLowerCase`.
pub record Casing : Type 0 where
  pub upper : String → String
  pub lower : String → String

-- The white space and line ends that `\s` and `trim` know.
abbrev pub is_space : Char → Bool
is_space c =
    let n = code c in
    leb 9 n && leb n 13
    || (n == 32
        || (n == 160
            || (n == 5760
                || (leb 8192 n && leb n 8202
                    || (n == 8232
                        || (n == 8233
                            || (n == 8239 || (n == 8287 || (n == 12288 || n == 65279)))))))))

abbrev pub trim_start : String → String
trim_start nil = nil
trim_start (chars c s) = if is_space c then trim_start s else chars c s

abbrev pub end_onto : Char → String → String
end_onto c nil = if is_space c then nil else chars c nil
end_onto c (chars d s) = chars c (chars d s)

abbrev pub trim_end : String → String
trim_end nil = nil
trim_end (chars c s) = end_onto c (trim_end s)

abbrev pub trim : String → String
trim s = trim_end (trim_start s)

-- `split(/\s+/).filter(Boolean)`; the word under way comes first.
abbrev word_onto : Char → List String → List String
word_onto c [] = chars c nil ∷ []
word_onto c (w ∷ ws) = chars c w ∷ ws

abbrev pieces : String → List String
pieces nil = "" ∷ []
pieces (chars c s) = if is_space c then "" ∷ pieces s else word_onto c (pieces s)

abbrev nonempty : List String → List String
nonempty [] = []
nonempty (w ∷ ws) = if truthy w then w ∷ nonempty ws else nonempty ws

abbrev pub words : String → List String
words s = nonempty (pieces s)

-- `charAt(0)` and `slice(1)`.
abbrev pub char_at_0 : String → String
char_at_0 nil = ""
char_at_0 (chars c s) = chars c nil

abbrev pub slice_1 : String → String
slice_1 nil = ""
slice_1 (chars c s) = s

-- `join(" ")`
abbrev pub joined : List String → String
joined [] = ""
joined (w ∷ []) = w
joined (w ∷ v ∷ ws) = w +++ " " +++ joined (v ∷ ws)

-- `s.includes(part)`
abbrev pub includes : String → String → Bool
includes part nil = starts_with nil part
includes part (chars c s) = starts_with (chars c s) part || includes part s
