-- ===== src/Selection/Tests.antt =====
-- A selection of one of two events.
use nasa_earth_observation_e.Prelude.{true, List, [], ◌∷◌, ok, ◌≡◌, refl}
use nasa_earth_observation_e.Prelude.Assoc.{lookup}
use nasa_earth_observation_e.Text.{Text, codes, text_eq}
use nasa_earth_observation_e.Replay.Value.{text, get}
use nasa_earth_observation_e.Replay.Generator.{Line, object, text_lt}
use nasa_earth_observation_e.Selection.{
  CanonicalManifest, Keyed, key_line, key_lines, insert_keyed, sort_keyed, select_scale_gate_events,
  IsSelection, select-IsSelection,
}

abbrev manifest : CanonicalManifest
manifest = record {
  status = codes "SUCCEEDED";
  is_reconciled = true;
  events_sha256 = codes "0f";
  accepted_count = 3;
}

abbrev line : Text → Text × Line
line id = (id, object (("event_id", text id) ∷ []))

abbrev lines : List (Text × Line)
lines = line (codes "c") ∷ line (codes "a") ∷ line (codes "b") ∷ []

abbrev selected : List Keyed
selected = (codes "a", codes "a") ∷ (codes "b", codes "b") ∷ []

selected_lem : select_scale_gate_events manifest (codes "0f") lines 2 ≡ ok selected
unfolding lookup text_eq get text_lt key_line key_lines insert_keyed sort_keyed
    select_scale_gate_events
selected_lem = refl

select-IsSelection_example : IsSelection lines 2 selected
select-IsSelection_example = select-IsSelection manifest (codes "0f") lines 2 selected selected_lem
