-- ===== src/Orchestrator/Slots.antt =====
-- The concurrency limit and the session index of plugin/src/orchestrator.ts: who holds a slot, when
-- one is free, and which call a session has.
use openclaw_rtc_plugin.Common.{
  ℕ, ◌+◌, ◌<◌, String, str_eq, Bool, true, false, ◌≡◌, refl, ap, ◌≢◌, ◌↔◌, inl, inr, Option, none,
  some, ok, arith, eq_iff, Option-cases, List, if◌then◌else◌,
}
use openclaw_rtc_plugin.Common.Maps.{lookup, lookup-insert, count-insert}
use openclaw_rtc_plugin.Call.{
  RtcCallState, hangup_user, hangup_node, error, timeout, is_terminal, IceServer, RtcCallRecord,
  is_live,
}
use openclaw_rtc_plugin.Orchestrator.{
  CallOrchestrator, StartCallParams, new, active_calls, blocking_call, admit, start_call, write,
  require_call, ended, hangup, set_error, set_timeout, get_call_by_session,
}
use openclaw_rtc_plugin.Orchestrator.Run.{hangs_up, fails, times_out, step, Reach, more}
use openclaw_rtc_plugin.Orchestrator.Valid.{IsValid, Reach-IsValid, other_session}

-- No live call has this session key.
abbrev pub IsFree : CallOrchestrator → String → Type 0
IsFree o key =
    (k : String) (c : RtcCallRecord)
    → lookup k o.calls ≡ some c
    → is_live c ≡ true
    → c.session_key ≢ key

blocking_call-IsFree :
    (o : CallOrchestrator) (key : String) → IsValid o → IsFree o key → blocking_call o key ≡ none
unfolding blocking_call
blocking_call-IsFree o key v free = elim (Option-cases (lookup key o.session_call_map)) [
  | inl missing ↦ ground arith
  | inr (k, at) ↦ let (c, here_k, same) = v.linked key k at in ground (arith, free k c here_k)
]

start_call_ok :
    (o : CallOrchestrator) (p : StartCallParams) (id : String) (now : ℕ) {o' : CallOrchestrator}
    → start_call o p id now ≡ ok o'
    → (active_calls o < o.options.max_concurrent_calls) × (blocking_call o p.session_key ≡ none)
unfolding start_call
start_call_ok o p id now h = ground arith

-- In every state that the methods reach, `startCall` admits the call exactly when a slot is free
-- and no live call has the session.
pub start_call_iff :
    (most : Option ℕ) (servers : Option (List IceServer)) (o : CallOrchestrator)
    → Reach (new most servers) o
    → (p : StartCallParams) (id : String) (now : ℕ)
    → (start_call o p id now ≡ ok (admit o p id now))
      ↔ ((active_calls o < o.options.max_concurrent_calls) × IsFree o p.session_key)
unfolding start_call
start_call_iff most servers o r p id now =
    let v = Reach-IsValid most servers o r in
    (
      λ h.
          let (room, clear) = start_call_ok o p id now h in
          (room, other_session o p.session_key clear v),
      λ (room, free). ground (arith, blocking_call-IsFree o p.session_key v free),
    )

active_calls-end :
    (o : CallOrchestrator) (k reason : String) (now : ℕ) (t : RtcCallState) (c : RtcCallRecord)
    → lookup k o.calls ≡ some c
    → is_live c ≡ true
    → is_terminal t ≡ true
    → active_calls (write o k (ended t reason now c)) + 1 ≡ active_calls o
unfolding active_calls write
active_calls-end o k reason now t c at live over =
    ground (arith, count-insert is_live k (ended t reason now c) o.calls)

-- Each way to end a live call, hangup, error and timeout, gives back exactly one slot.
end_frees_slot :
    (o : CallOrchestrator) (k reason : String) (now : ℕ) (c : RtcCallRecord)
    → lookup k o.calls ≡ some c
    → is_live c ≡ true
    → (active_calls (step o (hangs_up k reason now)) + 1 ≡ active_calls o)
      × (active_calls (step o (fails k reason now)) + 1 ≡ active_calls o)
      × (active_calls (step o (times_out k reason now)) + 1 ≡ active_calls o)
unfolding step hangup set_error set_timeout require_call
end_frees_slot o k reason now c at live = ground (
  arith,
  active_calls-end o k reason now hangup_user c at live refl,
  active_calls-end o k reason now hangup_node c at live refl,
  active_calls-end o k reason now error c at live refl,
  active_calls-end o k reason now timeout c at live refl,
)

-- In every state that the methods reach, the session index gives the session's live call.
get_call_by_session-live :
    (most : Option ℕ) (servers : Option (List IceServer)) (o : CallOrchestrator)
    → Reach (new most servers) o
    → (k : String) (c : RtcCallRecord) → lookup k o.calls ≡ some c
    → is_live c ≡ true
    → get_call_by_session o c.session_key ≡ some c
unfolding get_call_by_session
get_call_by_session-live most servers o r k c at live =
    let v = Reach-IsValid most servers o r in ground (arith, v.indexed k c at live, v.named k c at)

hangup-write :
    (o : CallOrchestrator) (k reason : String) (now : ℕ) (c : RtcCallRecord)
    → lookup k o.calls ≡ some c
    → is_live c ≡ true
    → step o (hangs_up k reason now)
      ≡ write o k (ended (if str_eq reason "user" then hangup_user else hangup_node) reason now c)
unfolding step hangup require_call
hangup-write o k reason now c at live = ground arith

end-IsFree :
    (o : CallOrchestrator) (k reason : String) (now : ℕ) (t : RtcCallState) (c : RtcCallRecord)
    → IsValid o
    → lookup k o.calls ≡ some c
    → is_live c ≡ true
    → is_terminal t ≡ true
    → IsFree (write o k (ended t reason now c)) c.session_key
unfolding write
end-IsFree o k reason now t c v at live over j d at_j live_d same = ground (
  arith,
  lookup-insert k j (ended t reason now c) o.calls,
  eq_iff k j,
  v.indexed k c at live,
  v.indexed j d,
)

hangup_state : (b : Bool) → is_terminal (if b then hangup_user else hangup_node) ≡ true
hangup_state true = refl
hangup_state false = refl

-- In every state that the methods reach, a session whose live call is hung up can start a new one,
-- even if every slot was taken.
restart_after_hangup :
    (most : Option ℕ) (servers : Option (List IceServer)) (o : CallOrchestrator)
    → Reach (new most servers) o
    → (k reason : String) (now : ℕ) (c : RtcCallRecord) → lookup k o.calls ≡ some c
    → is_live c ≡ true
    → (sdp id : String) (later : ℕ)
    → let o' = step o (hangs_up k reason now) in
      let p : StartCallParams = record { sdp = sdp; session_key = c.session_key } in
      start_call o' p id later ≡ ok (admit o' p id later)
unfolding write
restart_after_hangup most servers o r k reason now c at live sdp id later =
    let v = Reach-IsValid most servers o r in
    let slots = (end_frees_slot o k reason now c at live).0 in
    let moved = hangup-write o k reason now c at live in
    (start_call_iff most servers _ (more r (hangs_up k reason now) tt) _ id later).1 (
      omega (
        arith,
        slots,
        v.within,
        ap (λ (x : CallOrchestrator). x.options.max_concurrent_calls) moved,
      ),
      rw moved (end-IsFree o k reason now _ c v at live (hangup_state (str_eq reason "user"))),
    )
