-- ===== src/Call/Schema.antt =====
-- RtcCallRecordSchema of plugin/src/types.ts: which values `safeParse` accepts. Properties that the
-- schema does not name are let through.
use openclaw_rtc_plugin.Common.{str_eq, Bool, true, false, ◌&&◌, ◌||◌, Option, none, some}
use openclaw_rtc_plugin.Json.{Value, num, str, obj, arr, Items, nil, cons, Fields, get}

-- z.string()
abbrev pub is_text : Option Value → Bool
is_text (some (str s)) = true
is_text _ = false

-- z.string().optional()
abbrev pub text_or_absent : Option Value → Bool
text_or_absent none = true
text_or_absent (some (str s)) = true
text_or_absent _ = false

-- z.number()
abbrev pub is_number : Option Value → Bool
is_number (some (num m e)) = true
is_number _ = false

-- z.number().optional()
abbrev pub number_or_absent : Option Value → Bool
number_or_absent none = true
number_or_absent (some (num m e)) = true
number_or_absent _ = false

-- z.array(z.unknown()).default([])
abbrev pub list_or_absent : Option Value → Bool
list_or_absent none = true
list_or_absent (some (arr xs)) = true
list_or_absent _ = false

-- RtcCallStateSchema
abbrev pub is_state : Option Value → Bool
is_state (some (str s)) =
    str_eq s "initiating"
    || (str_eq s "connecting"
        || (str_eq s "active"
            || (str_eq s "hangup-user"
                || (str_eq s "hangup-node" || (str_eq s "timeout" || str_eq s "error")))))
is_state _ = false

-- z.enum(["user", "assistant"])
abbrev pub is_role : Option Value → Bool
is_role (some (str s)) = str_eq s "user" || str_eq s "assistant"
is_role _ = false

abbrev pub is_entry : Value → Bool
is_entry (obj fs) =
    is_role (get "role" fs) && (is_text (get "text" fs) && is_number (get "timestamp" fs))
is_entry _ = false

unfoldable pub all_entries : Items → Bool
unfolding get
all_entries nil = true
all_entries (cons v vs) = is_entry v && all_entries vs

abbrev pub transcript_or_absent : Option Value → Bool
unfolding all_entries
transcript_or_absent none = true
transcript_or_absent (some (arr xs)) = all_entries xs
transcript_or_absent _ = false

-- Whether the properties of an object are as the schema says.
unfoldable pub fields_conform : Fields → Bool
unfolding get all_entries
fields_conform fs =
    is_text (get "callId" fs)
    && (is_text (get "sessionKey" fs)
        && (is_state (get "state" fs)
            && (is_text (get "offerSdp" fs)
                && (text_or_absent (get "answerSdp" fs)
                    && (is_number (get "startedAt" fs)
                        && (number_or_absent (get "connectedAt" fs)
                            && (number_or_absent (get "endedAt" fs)
                                && (text_or_absent (get "endReason" fs)
                                    && (list_or_absent (get "localCandidates" fs)
                                        && (list_or_absent (get "remoteCandidates" fs)
                                            && transcript_or_absent (get "transcript" fs)))))))))))

unfoldable pub conforms : Value → Bool
unfolding fields_conform
conforms (obj fs) = fields_conform fs
conforms _ = false
