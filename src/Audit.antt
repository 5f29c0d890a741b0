-- ===== src/Audit.antt =====
-- web/src/app/admin/audit/page.tsx: the log of changes that an admin pages through, searches and exports as
-- CSV. `JSON.stringify` of a change is a text here; the table of capitals is a parameter.
mod Export
mod Tests
use Prim.Native.String.{[] as nil, ◌∷◌ as chars}
use Prim.Native.Char.{Char, code}
use tidyboard.Prelude.{
  ℕ, ◌+◌, ◌-◌, Bool, true, false, not, ◌&&◌, ◌||◌, List, [], ◌∷◌, Option, none, some, String,
  truthy, ◌+++◌, if◌then◌else◌, or_else, keep, map, length, min, ltb, ◌==◌,
}
use tidyboard.Prelude.Words.{Casing, trim, includes}

pub record AuditEntry : Type 0 where
  pub id : String
  pub account_id : String
  pub household_id : Option String
  pub action : String
  pub target_type : String
  pub target_id : String
  pub ip_address : Option String
  pub user_agent : Option String
  pub created_at : String
  -- `JSON.stringify(e.diff)`
  pub diff : String

-- The test of the search filter, with the text in small letters.
abbrev pub matches : Casing → String → AuditEntry → Bool
matches c q e =
    includes q (c.lower e.action)
    || (includes q (c.lower e.target_id)
        || (includes q (c.lower e.target_type) || includes q (c.lower (or_else e.ip_address ""))))

-- `displayedEntries`
abbrev pub displayed_entries : Casing → String → Option (List AuditEntry) → List AuditEntry
displayed_entries c search none = []
displayed_entries c search (some entries) =
    if truthy (trim search) then keep (matches c (c.lower search)) entries else entries

-- `s.replace(/"/g, '""')`
abbrev pub doubled : String → String
doubled nil = nil
doubled (chars c s) = if code c == 34 then chars c (chars c (doubled s)) else chars c (doubled s)

-- `escape`
abbrev pub escape : String → String
escape s = "\"" +++ doubled s +++ "\""

-- `join(sep)`
abbrev pub join : String → List String → String
join sep [] = ""
join sep (w ∷ []) = w
join sep (w ∷ v ∷ ws) = w +++ sep +++ join sep (v ∷ ws)

abbrev pub headers : List String
headers =
    "id" ∷ "account_id" ∷ "household_id" ∷ "action" ∷ "target_type" ∷ "target_id" ∷ "ip_address"
    ∷ "user_agent" ∷ "created_at" ∷ "diff" ∷ []

abbrev pub fields : AuditEntry → List String
fields e =
    e.id
    ∷ e.account_id
    ∷ or_else e.household_id ""
    ∷ e.action
    ∷ e.target_type
    ∷ e.target_id
    ∷ or_else e.ip_address ""
    ∷ or_else e.user_agent ""
    ∷ e.created_at
    ∷ e.diff
    ∷ []

abbrev pub row : AuditEntry → String
row e = join "," (map escape (fields e))

-- The text of the file that `exportCsv` saves.
abbrev pub export_csv : List AuditEntry → String
export_csv entries = join "\n" (join "," headers ∷ map row entries)

-- `handleExportCsv`
abbrev pub handle_export_csv : Casing → String → Option (List AuditEntry) → String
handle_export_csv c search entries = export_csv (displayed_entries c search entries)
