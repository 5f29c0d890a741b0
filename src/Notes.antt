-- ===== src/Notes.antt =====
-- web/src/lib/notes/use-notes.ts: the board of family notes and the browser's storage under its key. The
-- two JSON functions are a parameter; the id and the time of a new note are inputs.
mod Mirror
mod Tests
use tidyboard.Prelude.{
  ℕ, ◌≡◌, Bool, true, false, not, List, [], ◌∷◌, Option, none, some, String, truthy, if◌then◌else◌,
  or_else, str_eq, keep, take, map,
}
use tidyboard.Api.Request.{
  Json, Items, Fields, null, bool, number, text, array, object, nil, cons, end, field, obj,
}

pub record Note : Type 0 where
  pub id : String
  pub body : String
  pub author_id : String
  pub color : String
  pub pinned_at : String

-- The JSON texts, with `JSON.stringify` and `JSON.parse` (none where it throws): no text that the one
-- writes is empty, and the other reads it back.
pub record JsonCodec : Type 1 where
  pub Text : Type 0
  pub is_empty : Text → Bool
  pub stringify : Json → Text
  pub parse : Text → Option Json
  pub parse-stringify : (j : Json) → parse (stringify j) ≡ some j
  pub stringify-nonempty : (j : Json) → is_empty (stringify j) ≡ false

abbrev pub get_field : String → Fields → Option Json
get_field k end = none
get_field k (field j v rest) = if str_eq j k then some v else get_field k rest

-- `typeof n.key === "string"`
abbrev pub text_of : Option Json → Option String
text_of none = none
text_of (some null) = none
text_of (some (bool _)) = none
text_of (some (number _)) = none
text_of (some (text s)) = some s
text_of (some (array _)) = none
text_of (some (object _)) = none

infixl 40 ◌>>=◌
abbrev ◌>>=◌ : Option String → (String → Option Note) → Option Note
none >>= f = none
some s >>= f = f s

-- The test of `readNotes` on an entry, with the note that the entry is.
abbrev pub note_of_fields : Fields → Option Note
note_of_fields fs = do
  id ← text_of (get_field "id" fs)
  body ← text_of (get_field "body" fs)
  author_id ← text_of (get_field "author_id" fs)
  color ← text_of (get_field "color" fs)
  pinned_at ← text_of (get_field "pinned_at" fs)
  some
      (record { id = id; body = body; author_id = author_id; color = color; pinned_at = pinned_at })

-- `n && typeof n.id === "string" && ...`
abbrev pub note_of : Json → Option Note
note_of null = none
note_of (bool _) = none
note_of (number _) = none
note_of (text _) = none
note_of (array _) = none
note_of (object fs) = note_of_fields fs

abbrev keep_some : Option Note → List Note → List Note
keep_some none ns = ns
keep_some (some n) ns = n ∷ ns

abbrev pub notes_in : Items → List Note
notes_in nil = []
notes_in (cons j rest) = keep_some (note_of j) (notes_in rest)

-- `JSON.parse` that throws, and a value that is no array, give no notes.
abbrev pub notes_of : Option Json → List Note
notes_of none = []
notes_of (some null) = []
notes_of (some (bool _)) = []
notes_of (some (number _)) = []
notes_of (some (text _)) = []
notes_of (some (array items)) = notes_in items
notes_of (some (object _)) = []

abbrev pub read_notes : (codec : JsonCodec) → Option codec.Text → List Note
read_notes codec none = []
read_notes codec (some raw) = if codec.is_empty raw then [] else notes_of (codec.parse raw)

abbrev pub note_json : Note → Json
note_json n = obj (
    ("id", text n.id)
    ∷ ("body", text n.body)
    ∷ ("author_id", text n.author_id)
    ∷ ("color", text n.color)
    ∷ ("pinned_at", text n.pinned_at)
    ∷ [])

abbrev pub notes_json : List Note → Items
notes_json [] = nil
notes_json (n ∷ ns) = cons (note_json n) (notes_json ns)

abbrev pub write_notes : (codec : JsonCodec) → List Note → codec.Text
write_notes codec ns = codec.stringify (array (notes_json ns))

-- `MAX_NOTES`
abbrev pub max_notes : ℕ
max_notes = 50

-- `Partial<Pick<Note, "body" | "color">>`
pub record Patch : Type 0 where
  pub body : Option String
  pub color : Option String

abbrev pub patched : Patch → Note → Note
patched p n = record {
  id = n.id;
  body = or_else p.body n.body;
  author_id = n.author_id;
  color = or_else p.color n.color;
  pinned_at = n.pinned_at;
}

pub data Change : Type 0 where
  add_note : Note → Change
  remove_note : String → Change
  update_note : String → Patch → Change

abbrev pub next : Change → List Note → List Note
next (add_note n) prev = take max_notes (n ∷ prev)
next (remove_note id) prev = keep (λ n. not (str_eq n.id id)) prev
next (update_note id p) prev = map (λ n. if str_eq n.id id then patched p n else n) prev

module _ (codec : JsonCodec) where
  -- The hook's state and the entry of the storage.
  pub record Board : Type 0 where
    pub notes : List Note
    pub stored : Option codec.Text

  abbrev pub mounted : Option codec.Text → Board
  mounted stored = record { notes = read_notes codec stored; stored = stored }

  abbrev pub change : Board → Change → Board
  change b c =
      let ns = next c b.notes in record { notes = ns; stored = some (write_notes codec ns) }

  abbrev pub changes : Board → List Change → Board
  changes b [] = b
  changes b (c ∷ cs) = changes (change b c) cs
