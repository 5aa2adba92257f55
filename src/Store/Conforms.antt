-- ===== src/Store/Conforms.antt =====
-- The records that plugin/src/store.ts writes and RtcCallRecordSchema of plugin/src/types.ts.
use openclaw_rtc_plugin.Common.{
  ℕ, ◌≡◌, refl, String, str_eq, Bool, true, false, ◌&&◌, Option, none, some, List, [], ◌∷◌,
  if◌then◌else◌,
}
use openclaw_rtc_plugin.Json.{Value, Fields, get, optional}
use openclaw_rtc_plugin.Call.{
  Role, user, assistant, RtcCallState, initiating, connecting, active, hangup_user, hangup_node,
  timeout, error, TranscriptEntry, RtcCallRecord, state_text,
}
use openclaw_rtc_plugin.Call.Schema.{
  text_or_absent, number_or_absent, is_state, is_role, all_entries, fields_conform, conforms,
}
use openclaw_rtc_plugin.Store.{entries, number?, text?, role_text, record_fields, snapshot}

abbrev first : Option Value → Option Value → Option Value
first none o = o
first (some v) o = some v

either_way : (b : Bool) (o : Option Value) → o ≡ (if b then o else o)
either_way true o = refl
either_way false o = refl

get-optional :
    (k j : String) (o : Option Value) (fs : Fields)
    → get k (optional j o fs) ≡ (if str_eq j k then first o (get k fs) else get k fs)
unfolding get
get-optional k j none fs = either_way (str_eq j k) (get k fs)
get-optional k j (some v) fs = refl

first-none : (o : Option Value) → first o none ≡ o
first-none none = refl
first-none (some v) = refl

and_true : (b : Bool) → (b && true) ≡ b
and_true true = refl
and_true false = refl

state_known : (s : RtcCallState) → is_state (some (Value.str (state_text s))) ≡ true
state_known initiating = refl
state_known connecting = refl
state_known active = refl
state_known hangup_user = refl
state_known hangup_node = refl
state_known timeout = refl
state_known error = refl

role_known : (r : Role) → is_role (some (Value.str (role_text r))) ≡ true
role_known user = refl
role_known assistant = refl

number_known : (o : Option ℕ) → number_or_absent (number? o) ≡ true
number_known none = refl
number_known (some n) = refl

text_known : (o : Option String) → text_or_absent (text? o) ≡ true
text_known none = refl
text_known (some s) = refl

entries_known : (es : List TranscriptEntry) → all_entries (entries es) ≡ true
unfolding all_entries get
entries_known [] = refl
entries_known (e ∷ es) = simp (role_known e.role, entries_known es)

-- What `append` writes for a call is what the schema of a call record accepts, exactly when the answer
-- of the node, whose type nothing has checked, is absent or a text.
pub conforms-snapshot :
    (r : RtcCallRecord) (now : ℕ) → conforms (snapshot r now) ≡ text_or_absent r.answer_sdp
unfolding conforms fields_conform snapshot record_fields get
conforms-snapshot r now = simp (
  get-optional,
  first-none,
  and_true,
  state_known r.state,
  number_known r.connected_at,
  number_known r.ended_at,
  text_known r.end_reason,
  entries_known r.transcript,
)
