-- ===== src/Audit/Export.antt =====
-- web/src/app/admin/audit/page.tsx: the export, with a reader of CSV.
use Prim.Native.String.{[] as nil, ◌∷◌ as chars}
use Prim.Native.String.append
use Prim.Native.Char.{Char, code}
use text.Mathlib.TextLemmas.{append-nil, append_assoc}
use tidyboard.Prelude.{
  ◌≡◌, refl, sym, ap, ◌∙◌, Bool, true, false, not, ◌&&◌, ◌||◌, List, [], ◌∷◌, Option, String, ◌+++◌,
  if◌then◌else◌, map, ◌==◌, Bool-cases, inl, inr, arith, All,
}
use tidyboard.Prelude.Words.{Casing}
use tidyboard.Audit.{
  AuditEntry, displayed_entries, doubled, escape, join, headers, fields, row, export_csv,
  handle_export_csv,
}

-- Where a reader of CSV is: in a field without quotes, between quotes, or behind a quote that ends the
-- field, if it is not doubled.
pub data Place : Type 0 where
  bare quoted after : Place

abbrev pub onto : Char → List (List String) → List (List String)
onto c [] = (chars c nil ∷ []) ∷ []
onto c ([] ∷ rows) = (chars c nil ∷ []) ∷ rows
onto c ((f ∷ fs) ∷ rows) = (chars c f ∷ fs) ∷ rows

abbrev pub new_field : List (List String) → List (List String)
new_field [] = ("" ∷ []) ∷ []
new_field (fs ∷ rows) = ("" ∷ fs) ∷ rows

abbrev pub new_row : List (List String) → List (List String)
new_row rows = ("" ∷ []) ∷ rows

abbrev pub unquoted : Char → List (List String) → List (List String)
unquoted c rows =
    if code c == 44 then new_field rows else if code c == 10 then new_row rows else onto c rows

-- The rows of a CSV text, each with its fields (RFC 4180).
unfoldable pub read : Place → String → List (List String)
read p nil = ("" ∷ []) ∷ []
read bare (chars c s) =
    let inner = read quoted s in
    let outer = read bare s in if code c == 34 then inner else unquoted c outer
read quoted (chars c s) =
    let inner = read quoted s in
    let next = read after s in if code c == 34 then next else onto c inner
read after (chars c s) =
    let inner = read quoted s in
    let outer = read bare s in if code c == 34 then onto c inner else unquoted c outer

-- A text in front of the first field.
abbrev prefix : String → List (List String) → List (List String)
prefix nil rows = rows
prefix (chars c s) rows = onto c (prefix s rows)

prefix-new :
    (s : String) (fs : List String) (rows : List (List String))
    → prefix s (("" ∷ fs) ∷ rows) ≡ (s ∷ fs) ∷ rows
prefix-new nil fs rows = refl
prefix-new (chars c s) fs rows = ap (onto c) (prefix-new s fs rows)

doubled-quote :
    (c : Char) (s : String)
    → (code c == 34) ≡ true
    → doubled (chars c s) ≡ chars c (chars c (doubled s))
doubled-quote c s e = rw e refl

doubled-other :
    (c : Char) (s : String) → (code c == 34) ≡ false → doubled (chars c s) ≡ chars c (doubled s)
doubled-other c s e = rw e refl

read-twice :
    (c : Char) (s : String)
    → (code c == 34) ≡ true
    → read quoted (chars c (chars c s)) ≡ onto c (read quoted s)
unfolding read
read-twice c s e = rw e refl

read-other :
    (c : Char) (s : String)
    → (code c == 34) ≡ false
    → read quoted (chars c s) ≡ onto c (read quoted s)
unfolding read
read-other c s e = rw e refl

cons_on : (c : Char) (s t : String) → ((chars c s +++ "\"") +++ t) ≡ chars c ((s +++ "\"") +++ t)
cons_on c s t = ap (λ x. x +++ t) (append.cons c s "\"") ∙ append.cons c (s +++ "\"") t

-- A field in quotes, up to what follows its last quote.
quoted_part : (s t : String) → read quoted ((doubled s +++ "\"") +++ t) ≡ prefix s (read after t)
unfolding read
quoted_part nil t =
    ap (λ x. read quoted (x +++ t)) (append.nil "\"")
    ∙ ap (read quoted) (append.cons "\"" nil t ∙ ap (chars "\"") (append.nil t))
quoted_part (chars c s) t = elim (Bool-cases (code c == 34)) [
  | inl e ↦
      ap (λ d. read quoted ((d +++ "\"") +++ t)) (doubled-quote c s e)
      ∙ ap (read quoted)
          (cons_on c (chars c (doubled s)) t ∙ ap (chars c) (cons_on c (doubled s) t))
      ∙ read-twice c ((doubled s +++ "\"") +++ t) e
      ∙ ap (onto c) (quoted_part s t)
  | inr e ↦
      ap (λ d. read quoted ((d +++ "\"") +++ t)) (doubled-other c s e)
      ∙ ap (read quoted) (cons_on c (doubled s) t)
      ∙ read-other c ((doubled s +++ "\"") +++ t) e
      ∙ ap (onto c) (quoted_part s t)
]

-- Any character that is no quote, comma or line end.
abbrev is_plain : Char → Bool
is_plain c = not (code c == 34 || (code c == 44 || code c == 10))

abbrev plain : String → Bool
plain nil = true
plain (chars c s) = is_plain c && plain s

read-plain :
    (c : Char) (s : String) → is_plain c ≡ true → read bare (chars c s) ≡ onto c (read bare s)
unfolding read
read-plain c s h = ground arith

and_parts : (a b : Bool) → (a && b) ≡ true → (a ≡ true) × (b ≡ true)
and_parts a b h = (ground arith, ground arith)

plain_part : (s t : String) → plain s ≡ true → read bare (s +++ t) ≡ prefix s (read bare t)
plain_part nil t h = ap (read bare) (append.nil t)
plain_part (chars c s) t h =
    let (a, b) = and_parts (is_plain c) (plain s) h in
    ap (read bare) (append.cons c s t) ∙ read-plain c (s +++ t) a ∙ ap (onto c) (plain_part s t b)

escape_part : (s t : String) → read bare (escape s +++ t) ≡ prefix s (read after t)
unfolding read
escape_part s t =
    ap (λ x. read bare (x +++ t))
      (append.cons "\"" nil (doubled s +++ "\"") ∙ ap (chars "\"") (append.nil _))
    ∙ ap (read bare) (append.cons "\"" (doubled s +++ "\"") t)
    ∙ quoted_part s t

-- Where the reader is behind a field that is not between quotes any more.
abbrev Behind : Place → Type 0
Behind m =
    ((t : String) → read m ("," +++ t) ≡ new_field (read bare t))
    × ((t : String) → read m ("\n" +++ t) ≡ new_row (read bare t))
    × (read m nil ≡ ("" ∷ []) ∷ [])

Behind-bare : Behind bare
unfolding read
Behind-bare = (
  λ t. ap (read bare) (append.cons "," nil t ∙ ap (chars ",") (append.nil t)),
  λ t. ap (read bare) (append.cons "\n" nil t ∙ ap (chars "\n") (append.nil t)),
  refl,
)

Behind-after : Behind after
unfolding read
Behind-after = (
  λ t. ap (read after) (append.cons "," nil t ∙ ap (chars ",") (append.nil t)),
  λ t. ap (read after) (append.cons "\n" nil t ∙ ap (chars "\n") (append.nil t)),
  refl,
)

-- The fields of a row in front of what a reader makes of the rest.
abbrev put_row : String → List String → List (List String) → List (List String)
put_row f [] rows = prefix f rows
put_row f (g ∷ fs) rows = prefix f (new_field (put_row g fs rows))

put_row-new :
    (f : String) (fs : List String) (rows : List (List String))
    → put_row f fs (("" ∷ []) ∷ rows) ≡ (f ∷ fs) ∷ rows
put_row-new f [] rows = prefix-new f [] rows
put_row-new f (g ∷ fs) rows =
    ap (λ x. prefix f (new_field x)) (put_row-new g fs rows) ∙ prefix-new f (g ∷ fs) rows

three : (a b c t : String) → ((a +++ b +++ c) +++ t) ≡ a +++ (b +++ (c +++ t))
three a b c t = append_assoc a (b +++ c) t ∙ ap (λ x. a +++ x) (append_assoc b c t)

module _ (p : String → String) (Fits : String → Type 0) (m : Place) (behind : Behind m)
    (part : (s t : String) → Fits s → read bare (p s +++ t) ≡ prefix s (read m t)) where
  joined_part :
      (f : String) (fs : List String) (t : String)
      → All Fits (f ∷ fs)
      → read bare (join "," (map p (f ∷ fs)) +++ t) ≡ put_row f fs (read m t)
  joined_part f [] t (h, _) = part f t h
  joined_part f (g ∷ fs) t (h, k) =
      let rest = join "," (map p (g ∷ fs)) in
      ap (read bare) (three (p f) "," rest t)
      ∙ part f ("," +++ (rest +++ t)) h
      ∙ ap (prefix f) (behind.0 (rest +++ t) ∙ ap new_field (joined_part g fs t k))

  -- A row, and the rows after it.
  last_row :
      (f : String) (fs : List String)
      → All Fits (f ∷ fs)
      → read bare (join "," (map p (f ∷ fs))) ≡ (f ∷ fs) ∷ []
  last_row f fs h =
      ap (read bare) (sym (append-nil (join "," (map p (f ∷ fs)))))
      ∙ joined_part f fs nil h
      ∙ ap (put_row f fs) behind.2
      ∙ put_row-new f fs []

  first_row :
      (f : String) (fs : List String) (t : String)
      → All Fits (f ∷ fs)
      → read bare (join "," (map p (f ∷ fs)) +++ "\n" +++ t) ≡ (f ∷ fs) ∷ read bare t
  first_row f fs t h =
      joined_part f fs ("\n" +++ t) h
      ∙ ap (put_row f fs) (behind.1 t)
      ∙ put_row-new f fs (read bare t)

abbrev Any : String → Type 0
Any s = Unit

All-Any : (fs : List String) → All Any fs
All-Any [] = tt
All-Any (f ∷ fs) = (tt, All-Any fs)

-- The fields behind the id.
abbrev others : AuditEntry → List String
others e = of (fields e)
  where
    of : List String → List String
    of [] = []
    of (f ∷ fs) = fs

rows_read :
    (e : AuditEntry) (es : List AuditEntry)
    → read bare (join "\n" (row e ∷ map row es)) ≡ fields e ∷ map fields es
rows_read e [] =
    last_row escape Any after Behind-after (λ s t _. escape_part s t) e.id (others e)
      (All-Any (fields e))
rows_read e (e2 ∷ es) =
    first_row escape Any after Behind-after (λ s t _. escape_part s t) e.id (others e)
      (join "\n" (row e2 ∷ map row es)) (All-Any (fields e))
    ∙ ap (λ rows. fields e ∷ rows) (rows_read e2 es)

abbrev IsPlain : String → Type 0
IsPlain s = plain s ≡ true

-- A reader of CSV finds in the exported file the line of the headers and behind it one row for each entry
-- that the search shows, in their order, each with the ten fields of its entry as they stand, whatever
-- quotes, commas and line ends they have.
pub export-read :
    (c : Casing) (search : String) (entries : Option (List AuditEntry))
    → read bare (handle_export_csv c search entries)
      ≡ headers ∷ map fields (displayed_entries c search entries)
export-read c search entries = of (displayed_entries c search entries)
  where
    all_plain : All IsPlain headers
    all_plain = (refl, (refl, (refl, (refl, (refl, (refl, (refl, (refl, (refl, (refl, tt))))))))))

    of : (es : List AuditEntry) → read bare (export_csv es) ≡ headers ∷ map fields es
    of [] = last_row (λ s. s) IsPlain bare Behind-bare (λ s t h. plain_part s t h) "id" _ all_plain
    of (e ∷ es) =
        first_row (λ s. s) IsPlain bare Behind-bare (λ s t h. plain_part s t h) "id" _
          (join "\n" (row e ∷ map row es)) all_plain
        ∙ ap (λ rows. headers ∷ rows) (rows_read e es)
