-- ===== src/Page/Show.antt =====
-- What plugin/ui/app.ts writes into its elements: messages, the answer of the assistant as it
-- streams in, the transcript, and the two status lines.
use Prim.Native.String.{◌++◌}
use openclaw_rtc_plugin.Common.{
  ℕ, zero, suc, ◌+◌, String, str_eq, Bool, true, false, Option, none, some, List, [], ◌∷◌,
  ◌++◌ as append, length, if◌then◌else◌,
}
use openclaw_rtc_plugin.Page.{Role, user, assistant, Message, Status, Shown}

abbrev pub message : Role → String → Message
message role text = record { role = role; text = text }

unfoldable pub append_message : Role → String → Shown → Shown
append_message role text s = record s { messages = append s.messages (message role text ∷ []) }

-- `element.textContent = text` for the message at a place
unfoldable pub set_text : ℕ → String → List Message → List Message
set_text i text [] = []
set_text zero text (m ∷ ms) = (record m { text = text }) ∷ ms
set_text (suc i) text (m ∷ ms) = m ∷ set_text i text ms

abbrev pub open_answer : Option ℕ → Shown → Shown
open_answer (some i) s = s
open_answer none s = record s {
  messages = append s.messages (message assistant "" ∷ []);
  current_assistant_message = some (length s.messages);
  assistant_buffer = "";
}

abbrev pub show_answer : Option ℕ → String → List Message → List Message
show_answer none text ms = ms
show_answer (some i) text ms = set_text i text ms

abbrev pub extend_answer : String → Shown → Shown
extend_answer text s = record s {
  assistant_buffer = s.assistant_buffer ++ text;
  messages = show_answer s.current_assistant_message (s.assistant_buffer ++ text) s.messages;
}

unfoldable pub append_assistant_delta : String → Shown → Shown
append_assistant_delta text s = extend_answer text (open_answer s.current_assistant_message s)

unfoldable pub finalize_assistant_message : Shown → Shown
finalize_assistant_message s = record s { current_assistant_message = none; assistant_buffer = "" }

unfoldable pub show_transcript : String → Bool → Shown → Shown
unfolding append_message
show_transcript text is_interim s =
    let s' = record s { transcript_hidden = false; transcript = text } in
    if is_interim then s' else record (append_message user text s') { transcript_hidden = true }

unfoldable pub set_status : Status → Shown → Shown
set_status status s = record s { status = status }

-- With a timer that hides the line three seconds after the text "Call ended".
unfoldable pub set_call_status : String → Shown → Shown
set_call_status text s = record s {
  call_status_hidden = false;
  call_status = text;
  hide_timers = if str_eq text "Call ended" then s.hide_timers + 1 else s.hide_timers;
}

abbrev pub hide_due : ℕ → Shown → Shown
hide_due zero s = s
hide_due (suc n) s = record s { call_status_hidden = true; hide_timers = n }

-- A timer that was set there.
unfoldable pub hide_call_status : Shown → Shown
hide_call_status s = hide_due s.hide_timers s
