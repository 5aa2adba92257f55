-- ===== src/Store.antt =====
-- plugin/src/store.ts, the call records in a file of JSON lines. The file is a text, or absent; JSON
-- is a parameter. `Date.now()` is an argument.
pub mod Shape
pub mod Roundtrip
pub mod Recent
pub mod Conforms
use Prim.Native.String.{◌++◌}
use openclaw_rtc_plugin.Common.{
  ℕ, ◌==◌, ◌&&◌, String, str_eq, Bool, true, false, Option, none, some, List, [], ◌∷◌, map,
  if◌then◌else◌, Result, ok, err, ◌++◌ as append,
}
use openclaw_rtc_plugin.Common.Texts.{is_empty, trim}
use openclaw_rtc_plugin.Common.Lines.{split_lines}
use openclaw_rtc_plugin.Common.Int.{ℤ, pos, negsuc}
use openclaw_rtc_plugin.Json.{
  Value, null, bool, num, str, arr, obj, Items, nil, cons, Fields, end, field, optional, property,
}
use openclaw_rtc_plugin.Call.{Role, user, assistant, TranscriptEntry, RtcCallRecord, state_text}

pub record JsonText : Type 0 where
  pub parse : String → Result String Value
  pub stringify : Value → String

abbrev number : ℕ → Value
number n = num (pos n) 0

abbrev values : List Value → Items
values [] = nil
values (v ∷ vs) = cons v (values vs)

abbrev role_text : Role → String
role_text user = "user"
role_text assistant = "assistant"

abbrev entry_value : TranscriptEntry → Value
entry_value e = obj (
    field "role" (str (role_text e.role))
      (field "text" (str e.text) (field "timestamp" (number e.timestamp) end)))

abbrev entries : List TranscriptEntry → Items
entries [] = nil
entries (e ∷ es) = cons (entry_value e) (entries es)

abbrev number? : Option ℕ → Option Value
number? none = none
number? (some n) = some (number n)

abbrev text? : Option String → Option Value
text? none = none
text? (some s) = some (str s)

-- The properties of a record, in the order of its schema, with `rest` behind them.
unfoldable pub record_fields : RtcCallRecord → Fields → Fields
record_fields r rest = field "callId" (str r.call_id) (
    field "sessionKey" (str r.session_key) (
      field "state" (str (state_text r.state)) (
        field "offerSdp" (str r.offer_sdp) (
          optional "answerSdp" r.answer_sdp (
            field "startedAt" (number r.started_at) (
              optional "connectedAt" (number? r.connected_at) (
                optional "endedAt" (number? r.ended_at) (
                  optional "endReason" (text? r.end_reason) (
                    field "localCandidates" (arr (values r.local_candidates)) (
                      field "remoteCandidates" (arr (values r.remote_candidates))
                        (field "transcript" (arr (entries r.transcript)) rest)))))))))))

-- `{ ...record, _ts: Date.now() }`
unfoldable pub snapshot : RtcCallRecord → ℕ → Value
unfolding record_fields
snapshot r now = obj (record_fields r (field "_ts" (number now) end))

abbrev content_of : Option String → String
content_of none = ""
content_of (some s) = s

-- `append`: the file after it
unfoldable pub append_record : JsonText → RtcCallRecord → ℕ → Option String → Option String
unfolding snapshot
append_record json r now file = some (content_of file ++ json.stringify (snapshot r now) ++ "\n")

unfoldable pub remove_field : String → Fields → Fields
remove_field k end = end
remove_field k (field j v fs) =
    let rest = remove_field k fs in if str_eq j k then rest else field j v rest

-- `delete record._ts`, which throws for `null`
abbrev pub without_ts : Value → Option Value
without_ts null = none
without_ts (obj fs) = some (obj (remove_field "_ts" fs))
without_ts v = some v

abbrev ℤ_eq : ℤ → ℤ → Bool
ℤ_eq (pos a) (pos b) = a == b
ℤ_eq (negsuc a) (negsuc b) = a == b
ℤ_eq _ _ = false

abbrev bool_eq : Bool → Bool → Bool
bool_eq true true = true
bool_eq false false = true
bool_eq _ _ = false

-- Whether two keys of a `Map` are the same. An object is the same as itself only, and each line
-- makes new ones.
abbrev pub same_key : Option Value → Option Value → Bool
same_key none none = true
same_key (some null) (some null) = true
same_key (some (bool a)) (some (bool b)) = bool_eq a b
same_key (some (num a e)) (some (num b f)) = ℤ_eq a b && (e == f)
same_key (some (str a)) (some (str b)) = str_eq a b
same_key _ _ = false

-- `latest.set(record.callId, record)`
unfoldable pub set_latest : Value → List Value → List Value
set_latest v [] = v ∷ []
set_latest v (w ∷ ws) =
    if same_key (property "callId" w) (property "callId" v) then v ∷ ws else w ∷ set_latest v ws

abbrev pub set_parsed : Option Value → List Value → List Value
set_parsed none latest = latest
set_parsed (some v) latest = set_latest v latest

-- The body of the loop: a line that does not parse is skipped.
abbrev pub read_line : Result String Value → List Value → List Value
read_line (err e) latest = latest
read_line (ok v) latest = set_parsed (without_ts v) latest

unfoldable pub read_lines : JsonText → List String → List Value → List Value
unfolding set_latest remove_field
read_lines json [] latest = latest
read_lines json (l ∷ ls) latest = read_lines json ls (read_line (json.parse l) latest)

unfoldable pub read_all : JsonText → Option String → List Value
unfolding read_lines
read_all json none = []
read_all json (some file) =
    let content = trim file in
    if is_empty content then [] else read_lines json (split_lines content) []
