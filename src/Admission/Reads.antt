-- ===== src/Admission/Reads.antt =====
-- src/hovorunv2/infrastructure/runtime/admission.py: the reads of the store that write nothing.
use hovorun_v.Prelude.{
  Bool, not, Option, none, some, List, ◌∷◌, String, lookup, str_eq, if◌then◌else◌, Result, ok,
  ◌>>=◌, ◌>>◌, raise_if, value_error, unavailable,
}
use hovorun_v.Usage.Budgets.{is_technical_id}
use hovorun_v.Feature.Commands.{resolve_emergency_key}
use hovorun_v.Admission.Record.{AdmissionTicket, Stored, read_record, record_keys, ticket_of}
use hovorun_v.Admission.Space.{Space}

-- What `get` makes of what stands under the key of a ticket, with `_require_ticket_identity`.
unfoldable pub read_stored : Stored → String → Result AdmissionTicket
unfolding read_record record_keys ticket_of
read_stored raw id = do
  r ← read_record raw
  keys ← record_keys r
  raise_if (not (str_eq keys.ticket id)) unavailable
  ok (ticket_of r)

-- `get`, with `_id`
unfoldable pub get_ticket : Space → String → Result (Option AdmissionTicket)
unfolding is_technical_id read_stored
get_ticket sp id = raise_if (not (is_technical_id id)) value_error >> elim (lookup id sp.tickets) [
  | none ↦ ok none
  | some raw ↦ (read_stored raw id >>= λ t. ok (some t))
]

-- `resolve_emergency_key(ticket.envelope.feature) == key`
abbrev pub is_of_family : String → AdmissionTicket → Bool
is_of_family key t = str_eq (resolve_emergency_key t.envelope.feature) key

abbrev pub keep_family :
    String → Option AdmissionTicket → List AdmissionTicket → List AdmissionTicket
keep_family key none rest = rest
keep_family key (some t) rest = if is_of_family key t then t ∷ rest else rest
