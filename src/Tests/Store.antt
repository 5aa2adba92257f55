-- ===== src/Tests/Store.antt =====
-- A run of plugin/src/store.ts: two calls are appended, the first one again when it has ended.
use openclaw_rtc_plugin.Common.{
  ℕ, ◌++◌, length, min, ◌≡◌, refl, String, str_eq, true, Option, none, some, [], ◌∷◌, Result, ok,
  if◌then◌else◌,
}
use openclaw_rtc_plugin.Json.{Value, str, property, get}
use openclaw_rtc_plugin.Call.Schema.{conforms}
use openclaw_rtc_plugin.Store.Conforms.{conforms-snapshot}
use openclaw_rtc_plugin.Store.Recent.{
  read_recent, rest_of, IsRecentFirst, from_time, read_recent_latest,
}
use openclaw_rtc_plugin.Call.{RtcCallRecord, hangup_user}
use openclaw_rtc_plugin.Store.{JsonText, snapshot, read_all}
use openclaw_rtc_plugin.Store.Roundtrip.{
  IsText, Log, append_all, latest_of, put, plain, read_all-append_all,
}

abbrev call : String → String → RtcCallRecord
call id key = record {
  call_id = id;
  session_key = key;
  state = hangup_user;
  offer_sdp = "v=0";
  answer_sdp = none;
  started_at = 10;
  connected_at = none;
  ended_at = some 20;
  end_reason = some "user";
  local_candidates = [];
  remote_candidates = [];
  transcript = [];
}

abbrev earlier : RtcCallRecord
earlier = record (call "c1" "ann") { offer_sdp = "v=1" }

abbrev log : Log
log = (earlier, 1) ∷ (call "c2" "bob", 2) ∷ (call "c1" "ann", 3) ∷ []

-- The text of a snapshot, by its offer and its call.
abbrev text_of : Option Value → Option Value → String
text_of (some (str offer)) (some (str id)) =
    if str_eq offer "v=1" then "{1}" else if str_eq id "c2" then "{2}" else "{3}"
text_of _ _ = "{}"

abbrev value_of : String → Result String Value
value_of s =
    if str_eq s "{1}"
    then ok (snapshot earlier 1)
    else if str_eq s "{2}"
    then ok (snapshot (call "c2" "bob") 2)
    else ok (snapshot (call "c1" "ann") 3)

abbrev json : JsonText
json = record {
  parse = value_of;
  stringify = λ v. text_of (property "offerSdp" v) (property "callId" v);
}

first-IsText : IsText json (snapshot earlier 1)
unfolding snapshot get
first-IsText = record { read_back = refl; inner = "1"; in_braces = refl; in_line = refl }

second-IsText : IsText json (snapshot (call "c2" "bob") 2)
unfolding snapshot get
second-IsText = record { read_back = refl; inner = "2"; in_braces = refl; in_line = refl }

third-IsText : IsText json (snapshot (call "c1" "ann") 3)
unfolding snapshot get
third-IsText = record { read_back = refl; inner = "3"; in_braces = refl; in_line = refl }

read_all-append_all_example :
    read_all json (append_all json log none)
    ≡ plain (call "c1" "ann") ∷ plain (call "c2" "bob") ∷ []
unfolding latest_of put
read_all-append_all_example =
    read_all-append_all json log (first-IsText, (second-IsText, (third-IsText, tt)))

read_recent_latest_example :
    (let recent = read_recent json 1 (append_all json log none) in
      let rest = rest_of json 1 (append_all json log none) in
      (length recent ≡ min 1 (length (recent ++ rest)))
      × IsRecentFirst (recent ++ rest)
      × ((t : ℕ)
          → from_time t (recent ++ rest) ≡ from_time t (read_all json (append_all json log none))))
read_recent_latest_example = read_recent_latest json 1 (append_all json log none)

conforms-snapshot_example : conforms (snapshot (call "c1" "ann") 3) ≡ true
conforms-snapshot_example = conforms-snapshot (call "c1" "ann") 3
