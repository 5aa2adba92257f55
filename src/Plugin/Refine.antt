-- ===== src/Plugin/Refine.antt =====
-- The handlers of plugin/index.ts change the orchestrator by its own methods only.
use openclaw_rtc_plugin.Common.{
  ℕ, String, false, ◌≡◌, refl, subst, inl, inr, Option, none, some, List, [], ◌∷◌, Result, ok, err,
  arith, Bool-cases, Option-cases, Result-cases, not, ◌||◌, get_elem?,
}
use openclaw_rtc_plugin.Common.Texts.{is_empty}
use openclaw_rtc_plugin.Common.Maps.{lookup, keys}
use openclaw_rtc_plugin.Json.{property, Value, Fields, truthy, truthy?, param, text_or}
use openclaw_rtc_plugin.Call.{is_terminal}
use openclaw_rtc_plugin.Orchestrator.{CallOrchestrator, CallError, local, remote}
use openclaw_rtc_plugin.Orchestrator.Run.{
  Operation, starts, answers, trickles, activates, hangs_up, fails, times_out, transcribes, apply,
  after, step, IsFresh, Reach,
}
use openclaw_rtc_plugin.Plugin.{NodeSession, NodeCommand, Response, Settled, Settings, Registry}
use openclaw_rtc_plugin.Plugin.Node.{or_null}
use openclaw_rtc_plugin.Plugin.Handlers.{
  Begun, answered, waits, Waiting, accepting, relaying, offer_after, finish, relay_after,
  start_checked, start_begin, start_end, error_detail, ice_begin, hangup_begin,
}
use openclaw_rtc_plugin.Plugin.Service.{stop_record, stop_one, stop_each, stop}
use openclaw_rtc_plugin.Plugin.Server.{
  Server, Suspended, Event, start_requested, ice_requested, hangup_requested, status_requested,
  settled, stopped, outcome, launched, resume, resumed, after_stop, serve, IsFreshEvent, Served,
  opened, next,
}

-- The methods that the plugin calls: not `setActive`, `setTimeout`, `addTranscript`, and
-- `handleIceCandidate` for remote candidates only.
abbrev pub IsPluginOp : Operation → Type 0
IsPluginOp (activates _ _) = ⊥
IsPluginOp (times_out _ _ _) = ⊥
IsPluginOp (transcribes _ _ _ _) = ⊥
IsPluginOp (trickles _ _ local) = ⊥
IsPluginOp _ = Unit

pub data PluginRun (o : CallOrchestrator) : CallOrchestrator → Type 0 where
  here : PluginRun o o
  more :
      {o' : CallOrchestrator}
      → PluginRun o o'
      → (op : Operation) → IsPluginOp op
      → IsFresh o' op
      → PluginRun o (step o' op)

PluginRun-trans :
    {o o' o'' : CallOrchestrator} → PluginRun o o' → PluginRun o' o'' → PluginRun o o''
PluginRun-trans r here = r
PluginRun-trans r (more s op allowed fresh) = more (PluginRun-trans r s) op allowed fresh

one :
    (o : CallOrchestrator) (op : Operation) → IsPluginOp op → IsFresh o op → PluginRun o (step o op)
one o op allowed fresh = more here op allowed fresh

pub PluginRun-Reach : {o o' : CallOrchestrator} → PluginRun o o' → Reach o o'
PluginRun-Reach here = Reach.here
PluginRun-Reach (more r op allowed fresh) = Reach.more (PluginRun-Reach r) op fresh

module _ (o : CallOrchestrator) where
  offer-PluginRun :
      (nodes : List NodeSession) (sdp id : String) (r : Result CallError CallOrchestrator)
      → PluginRun o (after o r)
      → PluginRun o (offer_after nodes sdp id o r).0
  offer-PluginRun nodes sdp id (ok o') h = h
  offer-PluginRun nodes sdp id (err e) h = h

  finish-PluginRun :
      (r : Result CallError CallOrchestrator) (response : Response)
      → PluginRun o (after o r)
      → PluginRun o (finish o r response).0
  finish-PluginRun (ok o') response h = h
  finish-PluginRun (err e) response h = h

  relay-PluginRun :
      (r : Result CallError CallOrchestrator) (registry : Registry) (command : NodeCommand)
      → PluginRun o (after o r)
      → PluginRun o (relay_after o r registry command).0
  relay-PluginRun (ok o') registry command h = h
  relay-PluginRun (err e) registry command h = h

  -- The first parts of the handlers.
  start_checked-PluginRun :
      (nodes : List NodeSession) (sdp key id : String) (now : ℕ)
      → (lookup id o.calls ≡ none) × (is_empty id ≡ false)
      → PluginRun o (start_checked nodes sdp key id now o).0
  unfolding start_checked step
  start_checked-PluginRun nodes sdp key id now fresh =
      let op = starts (record { sdp = sdp; session_key = key }) id now in
      elim (Bool-cases (is_empty sdp || is_empty key)) [
        | inl bad ↦ rw bad here
        | inr good ↦ rw good (offer-PluginRun nodes sdp id (apply o op) (one o op tt fresh))
      ]

  start_begin-PluginRun :
      (s : Settings) (registry : Registry) (params : Option Fields) (id : String) (now : ℕ)
      → (lookup id o.calls ≡ none) × (is_empty id ≡ false)
      → PluginRun o (start_begin s registry params id now o).0
  unfolding start_begin
  start_begin-PluginRun s none params id now fresh = here
  start_begin-PluginRun s (some nodes) params id now fresh =
      elim (Bool-cases (not s.config.enabled)) [
        | inl off ↦ rw off here
        | inr on ↦ elim (Bool-cases (not s.validation.valid)) [
          | inl bad ↦ rw (on, bad) here
          | inr good ↦ rw (on, good) (start_checked-PluginRun nodes _ _ id now fresh)
        ]
      ]

  ice_begin-PluginRun :
      (registry : Registry) (params : Option Fields) → PluginRun o (ice_begin registry params o).0
  unfolding ice_begin step
  ice_begin-PluginRun registry params =
      let id = text_or "" (param params "callId") in
      let candidate = param params "candidate" in
      let op = trickles id (or_null candidate) remote in
      elim (Bool-cases (is_empty id || not (truthy? candidate))) [
        | inl bad ↦ rw bad here
        | inr good ↦ rw good (relay-PluginRun (apply o op) registry _ (one o op tt tt))
      ]

  hangup_begin-PluginRun :
      (registry : Registry) (params : Option Fields) (now : ℕ)
      → PluginRun o (hangup_begin registry params now o).0
  unfolding hangup_begin step
  hangup_begin-PluginRun registry params now =
      let id = text_or "" (param params "callId") in
      let op = hangs_up id (text_or "user" (param params "reason")) now in
      elim (Bool-cases (is_empty id)) [
        | inl bad ↦ rw bad here
        | inr good ↦ rw good (relay-PluginRun (apply o op) registry _ (one o op tt tt))
      ]

  -- The parts after the `await`.
  start_end-PluginRun :
      (id : String) (v : Result String Value) (now : ℕ) → PluginRun o (start_end id v now o).0
  unfolding start_end step
  start_end-PluginRun id (err e) now = here
  start_end-PluginRun id (ok v) now =
      let yes_op = answers id (property "answerSdp" v) in
      let no_op = fails id (error_detail v) now in
      elim (Bool-cases (truthy v)) [
        | inl good ↦ rw good (finish-PluginRun (apply o yes_op) _ (one o yes_op tt tt))
        | inr bad ↦ rw bad (finish-PluginRun (apply o no_op) _ (one o no_op tt tt))
      ]

  resume-PluginRun :
      (w : Waiting) (v : Result String Value) (now : ℕ) → PluginRun o (resume w v now o).0
  unfolding resume
  resume-PluginRun (accepting id) v now = start_end-PluginRun id v now
  resume-PluginRun relaying v now = here

stop_one-PluginRun :
    (now : ℕ) (o : CallOrchestrator) (k : String) → PluginRun o (after o (stop_one now o k))
unfolding stop_one step
stop_one-PluginRun now o k = elim (Option-cases (lookup k o.calls)) [
  | inl missing ↦ rw missing here
  | inr (call, found) ↦ elim (Bool-cases (is_terminal call.state)) [
    | inl over ↦ rw (found, stop_record, over) here
    | inr live ↦
        rw (found, stop_record, live) (one o (hangs_up call.call_id "gateway-shutdown" now) tt tt)
  ]
]

pub stop_each-PluginRun :
    (now : ℕ) (ks : List String) (o o' : CallOrchestrator)
    → stop_each now ks o ≡ ok o'
    → PluginRun o o'
unfolding stop_each
stop_each-PluginRun now [] o o' h = subst (PluginRun o) (ground arith) here
stop_each-PluginRun now (k ∷ ks) o o' h = elim (Result-cases (stop_one now o k)) [
  | inl (e, threw) ↦ absurd (ground arith)
  | inr (p, went) ↦
      PluginRun-trans (rw went at (stop_one-PluginRun now o k))
        (stop_each-PluginRun now ks p o' (ground arith))
]

after_stop-PluginRun :
    (s : Server) (r : Result CallError CallOrchestrator)
    → ((o : CallOrchestrator) → r ≡ ok o → PluginRun s.orchestrator o)
    → PluginRun s.orchestrator (after_stop s r).0.orchestrator
after_stop-PluginRun s (ok o) k = k o refl
after_stop-PluginRun s (err e) k = here

launched-PluginRun :
    (s : Server) (b : CallOrchestrator × Begun)
    → PluginRun s.orchestrator b.0
    → PluginRun s.orchestrator (launched s b).0.orchestrator
launched-PluginRun s (o, answered response) h = h
launched-PluginRun s (o, waits w sent) h = h

module _ (parse : String → Option Value) (settings : Settings) where
  resumed-PluginRun :
      (s : Server) (i : ℕ) (r : Settled) (now : ℕ) (w : Option Suspended)
      → PluginRun s.orchestrator (resumed parse s i r now w).0.orchestrator
  resumed-PluginRun s i r now none = here
  resumed-PluginRun s i r now (some w) =
      resume-PluginRun s.orchestrator w.waiting (outcome parse w.sent r) now

  pub serve-PluginRun :
      (s : Server) (e : Event)
      → IsFreshEvent s e
      → PluginRun s.orchestrator (serve parse settings s e).0.orchestrator
  unfolding serve stop
  serve-PluginRun s (start_requested registry params id now) fresh =
      launched-PluginRun s _
        (start_begin-PluginRun s.orchestrator settings registry params id now fresh)
  serve-PluginRun s (ice_requested registry params) fresh =
      launched-PluginRun s _ (ice_begin-PluginRun s.orchestrator registry params)
  serve-PluginRun s (hangup_requested registry params now) fresh =
      launched-PluginRun s _ (hangup_begin-PluginRun s.orchestrator registry params now)
  serve-PluginRun s (status_requested params) fresh = here
  serve-PluginRun s (settled i r now) fresh = resumed-PluginRun s i r now (get_elem? s.suspended i)
  serve-PluginRun s (stopped now) fresh =
      after_stop-PluginRun s _ (stop_each-PluginRun now (keys s.orchestrator.calls) s.orchestrator)

  -- Whatever the order of requests, replies and shutdowns, with a new id for each start request, the
  -- orchestrator is one that its own methods lead to, and only those that the plugin calls.
  pub Served-PluginRun :
      (o : CallOrchestrator) (s : Server) → Served parse settings o s → PluginRun o s.orchestrator
  Served-PluginRun o _ opened = here
  Served-PluginRun o _ (next {s} before e fresh) =
      PluginRun-trans (Served-PluginRun o s before) (serve-PluginRun s e fresh)
