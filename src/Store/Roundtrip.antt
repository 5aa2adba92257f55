-- ===== src/Store/Roundtrip.antt =====
-- Reading back what plugin/src/store.ts has appended.
use Prim.Native.String.{◌++◌}
use text.Mathlib.TextLemmas.{nil-append, append_assoc}
use openclaw_rtc_plugin.Common.{
  ℕ, String, str_eq, true, false, ◌≡◌, refl, ap, ◌∙◌, sym, inl, inr, Option, none, some, List, [],
  ◌∷◌, map, All, ◌++◌ as append, append_assoc as assoc, append-nil, ok, if◌then◌else◌, Bool-cases,
}
use openclaw_rtc_plugin.Common.Texts.{is_empty}
use openclaw_rtc_plugin.Common.Lines.{newline, one_line, split_lines}
use openclaw_rtc_plugin.Store.Shape.{
  braced, separated, split-separated, separated-snoc, IsBraced, separated-IsBraced, trim-IsBraced,
  not_empty,
}
use openclaw_rtc_plugin.Json.{Value, obj, Fields, end, field, get, optional}
use openclaw_rtc_plugin.Call.{RtcCallRecord}
use openclaw_rtc_plugin.Store.{
  JsonText, record_fields, snapshot, append_record, remove_field, set_latest, read_line, read_lines,
  read_all,
}

-- What `JSON.stringify` and `JSON.parse` promise of an object: its text is one line in braces, and is
-- read back.
pub record IsText (json : JsonText) (v : Value) : Type 0 where
  pub read_back : json.parse (json.stringify v) ≡ ok v
  pub inner : String
  pub in_braces : json.stringify v ≡ braced inner
  pub in_line : one_line (json.stringify v) ≡ true

-- Records with the times at which they are appended.
abbrev pub Log : Type 0
Log = List (RtcCallRecord × ℕ)

unfoldable pub append_all : JsonText → Log → Option String → Option String
append_all json [] file = file
append_all json (a ∷ log) file = append_all json log (append_record json a.0 a.1 file)

-- The latest record of each call, at the place of its first one.
unfoldable pub put : RtcCallRecord → List RtcCallRecord → List RtcCallRecord
put r [] = r ∷ []
put r (w ∷ ws) = if str_eq w.call_id r.call_id then r ∷ ws else w ∷ put r ws

unfoldable pub latest_of : Log → List RtcCallRecord → List RtcCallRecord
latest_of [] acc = acc
latest_of (a ∷ log) acc = latest_of log (put a.0 acc)

abbrev pub plain : RtcCallRecord → Value
plain r = obj (record_fields r end)

-- `fs` without `_ts` is `gs`.
record Drops (fs gs : Fields) : Type 0 where
  dropped : remove_field "_ts" fs ≡ gs

drop_field :
    (k : String) (v : Value) {fs gs : Fields}
    → str_eq k "_ts" ≡ false
    → Drops fs gs
    → Drops (field k v fs) (field k v gs)
unfolding remove_field
drop_field k v other d = record { dropped = rw (other, d.dropped) refl }

drop_optional :
    (k : String) (v : Option Value) {fs gs : Fields}
    → str_eq k "_ts" ≡ false
    → Drops fs gs
    → Drops (optional k v fs) (optional k v gs)
drop_optional k none other d = d
drop_optional k (some v) other d = drop_field k v other d

drop_ts : (v : Value) → Drops (field "_ts" v end) end
unfolding remove_field
drop_ts v = record { dropped = refl }

record_fields-Drops :
    (r : RtcCallRecord) (v : Value)
    → Drops (record_fields r (field "_ts" v end)) (record_fields r end)
unfolding record_fields
record_fields-Drops r v = drop_field "callId" _ refl (
    drop_field "sessionKey" _ refl (
      drop_field "state" _ refl (
        drop_field "offerSdp" _ refl (
          drop_optional "answerSdp" r.answer_sdp refl (
            drop_field "startedAt" _ refl (
              drop_optional "connectedAt" _ refl (
                drop_optional "endedAt" _ refl (
                  drop_optional "endReason" _ refl (
                    drop_field "localCandidates" _ refl (
                      drop_field "remoteCandidates" _ refl
                        (drop_field "transcript" _ refl (drop_ts v))))))))))))

set_latest-put :
    (r : RtcCallRecord) (acc : List RtcCallRecord)
    → set_latest (plain r) (map plain acc) ≡ map plain (put r acc)
unfolding set_latest put record_fields get
set_latest-put r [] = refl
set_latest-put r (w ∷ ws) = elim (Bool-cases (str_eq w.call_id r.call_id)) [
  | inl same ↦ rw same refl
  | inr other ↦ rw other (ap (λ xs. plain w ∷ xs) (set_latest-put r ws))
]

-- The text of each appended record.
abbrev texts : JsonText → Log → List String
texts json log = map (λ a. json.stringify (snapshot a.0 a.1)) log

abbrev pub AllText : JsonText → Log → Type 0
AllText json log = All (λ a. IsText json (snapshot a.0 a.1)) log

read_line-snapshot :
    (json : JsonText) (r : RtcCallRecord) (now : ℕ) (acc : List RtcCallRecord)
    → IsText json (snapshot r now)
    → read_line (json.parse (json.stringify (snapshot r now))) (map plain acc)
      ≡ map plain (put r acc)
unfolding snapshot
read_line-snapshot json r now acc h =
    ap (λ x. read_line x (map plain acc)) h.read_back
    ∙ ap (λ fs. set_latest (obj fs) (map plain acc)) (record_fields-Drops r _).dropped
    ∙ set_latest-put r acc

read_lines-texts :
    (json : JsonText) (log : Log) (acc : List RtcCallRecord)
    → AllText json log
    → read_lines json (texts json log) (map plain acc) ≡ map plain (latest_of log acc)
unfolding read_lines latest_of
read_lines-texts json [] acc h = refl
read_lines-texts json (a ∷ log) acc h =
    ap (read_lines json (texts json log)) (read_line-snapshot json a.0 a.1 acc h.0)
    ∙ read_lines-texts json log (put a.0 acc) h.1

texts-IsBraced : (json : JsonText) (log : Log) → AllText json log → All IsBraced (texts json log)
texts-IsBraced json [] h = tt
texts-IsBraced json (a ∷ log) h = ((h.0.inner, h.0.in_braces), texts-IsBraced json log h.1)

texts_lines :
    (json : JsonText) (log : Log) → AllText json log → All (λ m. one_line m ≡ true) (texts json log)
texts_lines json [] h = tt
texts_lines json (a ∷ log) h = (h.0.in_line, texts_lines json log h.1)

-- The file after some appends to a file that ends in a newline.
append_all-texts :
    (json : JsonText) (log : Log) (l : String) (ms : List String)
    → append_all json log (some (separated l ms ++ newline))
      ≡ some (separated l (append ms (texts json log)) ++ newline)
unfolding append_all append_record
append_all-texts json [] l ms = ap (λ xs. some (separated l xs ++ newline)) (sym (append-nil ms))
append_all-texts json (a ∷ log) l ms =
    let m = json.stringify (snapshot a.0 a.1) in
    ap (λ t. append_all json log (some t))
      (sym (append_assoc (separated l ms ++ newline) m newline)
        ∙ ap (λ t. t ++ newline)
            (append_assoc (separated l ms) newline m ∙ sym (separated-snoc l m ms)))
    ∙ append_all-texts json log l (append ms (m ∷ []))
    ∙ ap (λ xs. some (separated l xs ++ newline)) (assoc ms (m ∷ []) (texts json log))

read_all-lines :
    (json : JsonText) (l : String) (ms : List String)
    → IsBraced (separated l ms)
    → read_all json (some (separated l ms ++ newline))
      ≡ read_lines json (split_lines (separated l ms)) []
unfolding read_all
read_all-lines json l ms b =
    ap (λ t. if is_empty t then [] else read_lines json (split_lines t) [])
      (trim-IsBraced (separated l ms) b)
    ∙ ap (λ c. if c then [] else read_lines json (split_lines (separated l ms)) [])
        (not_empty (separated l ms) b)

-- If JSON reads back each snapshot that it writes, on one line in braces, what was appended to a
-- store with no file is read back: the latest record of each call, without the time stamps, in the
-- order in which the calls were first appended.
pub read_all-append_all :
    (json : JsonText) (log : Log)
    → AllText json log
    → read_all json (append_all json log none) ≡ map plain (latest_of log [])
unfolding read_all append_all append_record latest_of
read_all-append_all json [] h = refl
read_all-append_all json (a ∷ log) h =
    let l = json.stringify (snapshot a.0 a.1) in
    let ms = texts json log in
    let b = separated-IsBraced l ms (h.0.inner, h.0.in_braces) (texts-IsBraced json log h.1) in
    ap (λ t. read_all json (append_all json log (some t))) (nil-append (l ++ newline))
    ∙ ap (read_all json) (append_all-texts json log l [])
    ∙ read_all-lines json l ms b
    ∙ ap (λ ls. read_lines json ls []) (split-separated l ms h.0.in_line (texts_lines json log h.1))
    ∙ read_lines-texts json (a ∷ log) [] h
