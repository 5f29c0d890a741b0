-- ===== src/Prelude/Text.antt =====
-- Texts: JavaScript's falsy empty string, and template strings.
use Prim.Native.String
use Prim.Native.String.{String}
use mathlib.Core.Bool.{Bool, not}
use text.Mathlib.Text.{◌==◌ as str_eq_op}

abbrev pub str_eq : String → String → Bool
str_eq s t = str_eq_op s t

-- `Boolean(s)`: a text is falsy when it is empty.
abbrev pub truthy : String → Bool
truthy s = not (str_eq s "")

-- The pieces of a template string, put together.
infixr 65 ◌+++◌
abbrev pub ◌+++◌ : String → String → String
s +++ t = String.◌++◌ s t
