-- ===== src/Notes/Tests.antt =====
-- A board through additions, an update and a removal. The codec of the tests keeps a JSON value as its
-- own text.
use tidyboard.Prelude.{
  ◌≡◌, refl, ◌≤◌, max, List, [], ◌∷◌, Option, none, some, String, false, length, map,
}
use tidyboard.Api.Request.{Json, text, array, null, nil, cons}
use tidyboard.Notes.{
  Note, JsonCodec, Change, add_note, remove_note, update_note, mounted, changes, read_notes,
  note_json,
}
use tidyboard.Notes.Mirror.{changes-mirror}

abbrev values : JsonCodec
values = record {
  Text = Json;
  is_empty = λ j. false;
  stringify = λ j. j;
  parse = λ j. some j;
  parse-stringify = λ j. refl;
  stringify-nonempty = λ j. refl;
}

abbrev note : String → Note
note id = record { id = id; body = "b"; author_id = "m1"; color = "#fff"; pinned_at = "2026-01-05" }

abbrev edits : List Change
edits =
    add_note (note "n1")
    ∷ add_note (note "n2")
    ∷ add_note (note "n3")
    ∷ update_note "n2" (record { body = some "new"; color = none })
    ∷ remove_note "n3"
    ∷ []

abbrev kept : Option Json
kept = some (array (cons (note_json (note "n0")) (cons null (cons (text "x") nil))))

notes_tests :
    (map (λ n. n.id) (read_notes values kept) ≡ "n0" ∷ [])
    × (map (λ n. n.body) (changes values (mounted values kept) edits).notes
        ≡ "new" ∷ "b" ∷ "b" ∷ [])
    × (read_notes values (some null) ≡ [])
notes_tests = (refl, refl, refl)

changes-mirror_example :
    let b = changes values (mounted values kept) edits in
    ((mounted values b.stored).notes ≡ b.notes)
    × (length b.notes ≤ max 50 (length (mounted values kept).notes))
changes-mirror_example = changes-mirror values kept edits
