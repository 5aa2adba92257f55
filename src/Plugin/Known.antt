-- ===== src/Plugin/Known.antt =====
-- Every start handler of plugin/index.ts that waits for a node waits for a call that exists.
use openclaw_rtc_plugin.Common.{
  remove_at, ℕ, zero, suc, String, ◌≡◌, subst, inl, inr, Option, none, some, List, [], ◌∷◌, ◌++◌,
  Result, ok, err, arith, Bool-cases, get_elem?, All, eq_refl, not, ◌||◌, leb, Option-cases,
}
use openclaw_rtc_plugin.Common.Texts.{is_empty}
use openclaw_rtc_plugin.Common.Maps.{lookup, lookup-insert}
use openclaw_rtc_plugin.Json.{Value, Fields, truthy?, param, text_or}
use openclaw_rtc_plugin.Call.{RtcCallRecord}
use openclaw_rtc_plugin.Orchestrator.{
  CallOrchestrator, CallError, admit, new_record, start_call, StartCallParams, blocking_call,
  active_calls,
}
use openclaw_rtc_plugin.Orchestrator.Run.{Reach}
use openclaw_rtc_plugin.Orchestrator.Lifecycle.{Reach-Later}
use openclaw_rtc_plugin.Plugin.{NodeSession, NodeCommand, Settled, Settings, Registry}
use openclaw_rtc_plugin.Plugin.Handlers.{
  Waiting, accepting, relaying, Begun, answered, waits, offer_after, relay_after, ice_begin,
  hangup_begin, start_checked, start_begin,
}
use openclaw_rtc_plugin.Plugin.Server.{
  Server, Suspended, Event, settled, launched, after_stop, start_requested, ice_requested,
  hangup_requested, status_requested, stopped, resumed, serve, Served, opened, next,
}
use openclaw_rtc_plugin.Plugin.Refine.{PluginRun-Reach, serve-PluginRun}

-- The call that a suspended handler waits for is there.
abbrev pub Known : CallOrchestrator → Waiting → Type 0
Known o (accepting id) = (c : RtcCallRecord) × (lookup id o.calls ≡ some c)
Known o relaying = Unit

Known-Reach : {o o' : CallOrchestrator} (w : Waiting) → Reach o o' → Known o w → Known o' w
Known-Reach (accepting id) r (c, found) = let l = Reach-Later r id c found in (l.call, l.present)
Known-Reach relaying r k = tt

abbrev AllKnown : CallOrchestrator → List Suspended → Type 0
AllKnown o ws = All (λ w. Known o w.waiting) ws

AllKnown-Reach :
    {o o' : CallOrchestrator} (ws : List Suspended) → Reach o o' → AllKnown o ws → AllKnown o' ws
AllKnown-Reach [] r k = tt
AllKnown-Reach (w ∷ ws) r k = (Known-Reach w.waiting r k.0, AllKnown-Reach ws r k.1)

AllKnown-append :
    (o : CallOrchestrator) (ws : List Suspended) (w : Suspended)
    → AllKnown o ws
    → Known o w.waiting
    → AllKnown o (ws ++ w ∷ [])
AllKnown-append o [] w k h = (h, tt)
AllKnown-append o (x ∷ ws) w k h = (k.0, AllKnown-append o ws w k.1 h)

AllKnown-remove_at :
    (o : CallOrchestrator) (i : ℕ) (ws : List Suspended)
    → AllKnown o ws
    → AllKnown o (remove_at i ws)
AllKnown-remove_at o i [] k = tt
AllKnown-remove_at o zero (w ∷ ws) k = k.1
AllKnown-remove_at o (suc i) (w ∷ ws) k = (k.0, AllKnown-remove_at o i ws k.1)

AllKnown-get :
    (o : CallOrchestrator) (i : ℕ) (ws : List Suspended) (w : Suspended)
    → AllKnown o ws
    → get_elem? ws i ≡ some w
    → Known o w.waiting
AllKnown-get o i [] w k h = absurd (ground arith)
AllKnown-get o zero (x ∷ ws) w k h =
    let e : x ≡ w = cc in subst (λ (y : Suspended). Known o y.waiting) e k.0
AllKnown-get o (suc i) (x ∷ ws) w k h = AllKnown-get o i ws w k.1 h

-- What a handler that has begun waits for is known.
abbrev BegunKnown : CallOrchestrator × Begun → Type 0
BegunKnown (o, answered response) = Unit
BegunKnown (o, waits w sent) = Known o w

offer-BegunKnown :
    (nodes : List NodeSession) (p : StartCallParams) (id : String) (now : ℕ) (o : CallOrchestrator)
    → BegunKnown (offer_after nodes p.sdp id o (start_call o p id now))
unfolding start_call admit
offer-BegunKnown nodes p id now o =
    elim (Bool-cases (leb o.options.max_concurrent_calls (active_calls o))) [
      | inl full ↦ rw full tt
      | inr room ↦ elim (Option-cases (blocking_call o p.session_key)) [
        | inl clear ↦
            rw (room, clear, start_call) (new_record p id now, rw lookup-insert (rw (eq_refl id)))
        | inr (k, busy) ↦ rw (room, busy, start_call) tt
      ]
    ]

start_checked-BegunKnown :
    (nodes : List NodeSession) (sdp key id : String) (now : ℕ) (o : CallOrchestrator)
    → BegunKnown (start_checked nodes sdp key id now o)
unfolding start_checked
start_checked-BegunKnown nodes sdp key id now o = elim (Bool-cases (is_empty sdp || is_empty key)) [
  | inl bad ↦ rw bad tt
  | inr good ↦ rw good (offer-BegunKnown nodes (record { sdp = sdp; session_key = key }) id now o)
]

start_begin-BegunKnown :
    (s : Settings) (registry : Registry) (params : Option Fields) (id : String) (now : ℕ)
    (o : CallOrchestrator)
    → BegunKnown (start_begin s registry params id now o)
unfolding start_begin
start_begin-BegunKnown s none params id now o = tt
start_begin-BegunKnown s (some nodes) params id now o = elim (Bool-cases (not s.config.enabled)) [
  | inl off ↦ rw off tt
  | inr on ↦ elim (Bool-cases (not s.validation.valid)) [
    | inl bad ↦ rw (on, bad) tt
    | inr good ↦ rw (on, good) (start_checked-BegunKnown nodes _ _ id now o)
  ]
]

relay_after-BegunKnown :
    (o : CallOrchestrator) (r : Result CallError CallOrchestrator) (registry : Registry)
    (command : NodeCommand)
    → BegunKnown (relay_after o r registry command)
relay_after-BegunKnown o (ok o') none command = tt
relay_after-BegunKnown o (ok o') (some nodes) command = tt
relay_after-BegunKnown o (err e) registry command = tt

ice_begin-BegunKnown :
    (registry : Registry) (params : Option Fields) (o : CallOrchestrator)
    → BegunKnown (ice_begin registry params o)
unfolding ice_begin
ice_begin-BegunKnown registry params o =
    elim (Bool-cases
      (is_empty (text_or "" (param params "callId")) || not (truthy? (param params "candidate")))) [
        | inl bad ↦ rw bad tt
        | inr good ↦ rw good (relay_after-BegunKnown o _ registry _)
      ]

hangup_begin-BegunKnown :
    (registry : Registry) (params : Option Fields) (now : ℕ) (o : CallOrchestrator)
    → BegunKnown (hangup_begin registry params now o)
unfolding hangup_begin
hangup_begin-BegunKnown registry params now o =
    elim (Bool-cases (is_empty (text_or "" (param params "callId")))) [
      | inl bad ↦ rw bad tt
      | inr good ↦ rw good (relay_after-BegunKnown o _ registry _)
    ]

launched-AllKnown :
    (s : Server) (b : CallOrchestrator × Begun)
    → BegunKnown b
    → Reach s.orchestrator (launched s b).0.orchestrator
    → AllKnown s.orchestrator s.suspended
    → AllKnown (launched s b).0.orchestrator (launched s b).0.suspended
launched-AllKnown s (o, answered response) bk r k = AllKnown-Reach s.suspended r k
launched-AllKnown s (o, waits w sent) bk r k =
    AllKnown-append o s.suspended _ (AllKnown-Reach s.suspended r k) bk

after_stop-AllKnown :
    (s : Server) (r : Result CallError CallOrchestrator)
    → Reach s.orchestrator (after_stop s r).0.orchestrator
    → AllKnown s.orchestrator s.suspended
    → AllKnown (after_stop s r).0.orchestrator (after_stop s r).0.suspended
after_stop-AllKnown s (ok o) r k = AllKnown-Reach s.suspended r k
after_stop-AllKnown s (err e) r k = k

module _ (parse : String → Option Value) (settings : Settings) where
  resumed-AllKnown :
      (s : Server) (i : ℕ) (r : Settled) (now : ℕ) (w : Option Suspended)
      → Reach s.orchestrator (resumed parse s i r now w).0.orchestrator
      → AllKnown s.orchestrator s.suspended
      → AllKnown (resumed parse s i r now w).0.orchestrator (resumed parse s i r now w).0.suspended
  resumed-AllKnown s i r now none run k = k
  resumed-AllKnown s i r now (some w) run k =
      AllKnown-Reach (remove_at i s.suspended) run
        (AllKnown-remove_at s.orchestrator i s.suspended k)

  serve-AllKnown :
      (s : Server) (e : Event)
      → Reach s.orchestrator (serve parse settings s e).0.orchestrator
      → AllKnown s.orchestrator s.suspended
      → AllKnown (serve parse settings s e).0.orchestrator (serve parse settings s e).0.suspended
  unfolding serve
  serve-AllKnown s (start_requested registry params id now) r k =
      launched-AllKnown s _ (start_begin-BegunKnown settings registry params id now s.orchestrator)
        r k
  serve-AllKnown s (ice_requested registry params) r k =
      launched-AllKnown s _ (ice_begin-BegunKnown registry params s.orchestrator) r k
  serve-AllKnown s (hangup_requested registry params now) r k =
      launched-AllKnown s _ (hangup_begin-BegunKnown registry params now s.orchestrator) r k
  serve-AllKnown s (status_requested params) r k = k
  serve-AllKnown s (settled i v now) r k = resumed-AllKnown s i v now (get_elem? s.suspended i) r k
  serve-AllKnown s (stopped now) r k = after_stop-AllKnown s _ r k

  Served-AllKnown :
      (o : CallOrchestrator) (s : Server)
      → Served parse settings o s
      → AllKnown s.orchestrator s.suspended
  Served-AllKnown o _ opened = tt
  Served-AllKnown o _ (next {s} before e fresh) =
      serve-AllKnown s e (PluginRun-Reach (serve-PluginRun parse settings s e fresh))
        (Served-AllKnown o s before)

  -- Whatever events came before, the call that a suspended start handler waits for is in the
  -- orchestrator.
  pub suspended-Known :
      (o : CallOrchestrator) (s : Server)
      → Served parse settings o s
      → (i : ℕ) (w : Suspended) → get_elem? s.suspended i ≡ some w
      → Known s.orchestrator w.waiting
  suspended-Known o s served i w at =
      AllKnown-get s.orchestrator i s.suspended w (Served-AllKnown o s served) at
