-- ===== src/Audit/Tests.antt =====
-- Two entries, one with a quote, a comma and a line end in its texts.
use tidyboard.Prelude.{◌≡◌, refl, List, [], ◌∷◌, none, some, String, map}
use tidyboard.Prelude.Words.{Casing}
use tidyboard.Audit.{AuditEntry, displayed_entries, escape, headers, fields, handle_export_csv}
use tidyboard.Audit.Export.{read, bare, export-read}

abbrev casing : Casing
casing = record { upper = λ t. t; lower = λ t. t }

abbrev entry : String → String → AuditEntry
entry id agent = record {
  id = id;
  account_id = "a";
  household_id = none;
  action = "list.create";
  target_type = "list";
  target_id = "t";
  ip_address = some "10.0.0.1";
  user_agent = some agent;
  created_at = "2026-01-05";
  diff = "{\"name\":\"x, y\"}";
}

abbrev entries : List AuditEntry
entries = entry "1" "a \"b\", c" ∷ entry "2" "two\nlines" ∷ []

audit_tests :
    (escape "a \"b\"" ≡ "\"a \"\"b\"\"\"")
    × ((map (λ e. e.id) (displayed_entries casing "10.0" (some entries)) ≡ "1" ∷ "2" ∷ [])
        × ((displayed_entries casing "delete" (some entries) ≡ [])
            × (read bare (handle_export_csv casing " " (some entries))
                ≡ headers ∷ map fields entries)))
unfolding read
audit_tests = (refl, (refl, (refl, refl)))

export-read_example :
    read bare (handle_export_csv casing "list" (some entries))
    ≡ headers ∷ map fields (displayed_entries casing "list" (some entries))
export-read_example = export-read casing "list" (some entries)
