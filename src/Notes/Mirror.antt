-- ===== src/Notes/Mirror.antt =====
-- web/src/lib/notes/use-notes.ts: what is stored is what is shown, and how long the board grows.
use tidyboard.Prelude.{
  ◌≡◌, refl, ap, ◌≤◌, max, List, [], ◌∷◌, Option, some, length, length-take, length-keep,
  length-map, not, str_eq, if◌then◌else◌, arith,
}
use tidyboard.Notes.{
  Note, JsonCodec, note_of, notes_in, note_json, notes_json, read_notes, write_notes, patched,
  Change, add_note, remove_note, update_note, next, Board, mounted, change, changes,
}

note_of-note_json : (n : Note) → note_of (note_json n) ≡ some n
note_of-note_json n = refl

notes_in-notes_json : (ns : List Note) → notes_in (notes_json ns) ≡ ns
notes_in-notes_json [] = refl
notes_in-notes_json (n ∷ ns) = ap (λ ms. n ∷ ms) (notes_in-notes_json ns)

-- What `writeNotes` stores, `readNotes` reads back, for every list of notes.
pub read_notes-write_notes :
    (codec : JsonCodec) (ns : List Note) → read_notes codec (some (write_notes codec ns)) ≡ ns
read_notes-write_notes codec ns =
    rw (codec.stringify-nonempty _, codec.parse-stringify _) (notes_in-notes_json ns)

change-mirrors :
    (codec : JsonCodec) (b : Board codec) (cs : List Change)
    → read_notes codec b.stored ≡ b.notes
    → read_notes codec (changes codec b cs).stored ≡ (changes codec b cs).notes
change-mirrors codec b [] h = h
change-mirrors codec b (c ∷ cs) h =
    change-mirrors codec (change codec b c) cs (read_notes-write_notes codec (next c b.notes))

length-next : (c : Change) (ns : List Note) → length (next c ns) ≤ max 50 (length ns)
length-next (add_note n) ns = omega (arith, length-take 50 (n ∷ ns))
length-next (remove_note id) ns = omega (arith, length-keep (λ n. not (str_eq n.id id)) ns)
length-next (update_note id p) ns =
    omega (arith, length-map (λ n. if str_eq n.id id then patched p n else n) ns)

length-changes :
    (codec : JsonCodec) (b : Board codec) (cs : List Change)
    → length (changes codec b cs).notes ≤ max 50 (length b.notes)
length-changes codec b [] = omega arith
length-changes codec b (c ∷ cs) =
    omega (arith, length-changes codec (change codec b c) cs, length-next c b.notes)

-- From whatever the storage held when the board was opened, after any sequence of additions, removals
-- and updates, opening the board again gives the notes shown now; and they are no more than 50, or than
-- the board held at first when that was more.
pub changes-mirror :
    (codec : JsonCodec) (stored : Option codec.Text) (cs : List Change)
    → (let b = changes codec (mounted codec stored) cs in
        ((mounted codec b.stored).notes ≡ b.notes)
        × (length b.notes ≤ max 50 (length (mounted codec stored).notes)))
changes-mirror codec stored cs = (
  change-mirrors codec (mounted codec stored) cs refl,
  length-changes codec (mounted codec stored) cs,
)
