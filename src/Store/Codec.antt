-- ===== src/Store/Codec.antt =====
-- internal/flows/impl_loop/store/state.go: the journal records as bytes, with the JSON encoder and
-- decoder as a parameter.
use stepan.Base.{ℕ, ◌≡◌, false, Option, none, some, List, [], ◌∷◌, ◌++◌, contains, is_empty, nat_eq}
use stepan.Status.{EventKind}
use stepan.Run.{Run}
use stepan.Run.Validate.{JsonCopy, Event, event_valid}
use stepan.Store.Answer.{StoreError, Answer, value, error, of_run, ◌>>◌}

abbrev pub Bytes : Type 0
Bytes = List ℕ

abbrev pub newline : ℕ
newline = 10

-- `json.Marshal` and `json.Unmarshal` on events and on runs.
pub record Codec : Type 0 where
  pub encode : Event → Bytes
  pub decode : Bytes → Option Event
  pub encode_run : Run → Bytes
  pub decode_run : Bytes → Option Run

-- The copy of a run by its encoding.
abbrev pub json_copy : Codec → JsonCopy
json_copy c r = c.decode_run (c.encode_run r)

-- The record of a run state.
abbrev pub event_of : ℕ → Run → Event
event_of n r = record { sequence = n; kind = EventKind.run_state_recorded; state = some r }

-- The record with its newline.
abbrev pub line : Codec → Event → Bytes
line c e = c.encode e ++ newline ∷ []

-- What JSON promises for one run: a compact encoding, which is never empty and escapes newlines, and
-- which decodes to what was encoded, with or without white space behind it.
pub record Faithful (c : Codec) (r : Run) : Type 0 where
  pub plain : (n : ℕ) → contains (c.encode (event_of n r)) newline ≡ false
  pub not_empty : (n : ℕ) → is_empty (c.encode (event_of n r)) ≡ false
  pub decodes : (n : ℕ) → c.decode (c.encode (event_of n r)) ≡ some (event_of n r)
  pub decodes_line : (n : ℕ) → c.decode (line c (event_of n r)) ≡ some (event_of n r)
  pub decodes_run : json_copy c r ≡ some r

unfoldable pub marshal_event : Codec → Event → Answer Bytes
marshal_event c e = of_run (event_valid e) >> value (line c e)

unfoldable pub event_from_data : Codec → Bytes → Answer Event
event_from_data c d = elim (c.decode d) [
  | none ↦ error StoreError.malformed
  | some e ↦ of_run (event_valid e) >> value e
]
