-- ===== src/Gateway/Moves.antt =====
-- What an event can do to the `GatewayNodeClient` of plugin/node/gateway-client.ts, as data: a
-- sequence of moves, each with its effects.
use openclaw_rtc_plugin.Common.{
  ℕ, ◌*◌, min, String, Bool, true, false, ◌≡◌, refl, none, some, List, [], ◌∷◌, ◌++◌, append_assoc,
  append-nil, subst, sym, All, if◌then◌else◌,
}
use openclaw_rtc_plugin.Common.Maps.{lookup, insert, erase}
use openclaw_rtc_plugin.Json.{Value}
use openclaw_rtc_plugin.Gateway.{
  Purpose, for_connect, ClientError, Settled, Effect, socket_made, socket_closed, sent, settles,
  timer_set, timer_cleared, emits_open, emits_close, emits_error, emits_event, emits_connected,
  handler_called, Job, GatewayNodeClient,
}
use openclaw_rtc_plugin.Gateway.Client.{Acted, rejections}

-- An effect that concerns neither a socket nor a promise nor the timer.
abbrev pub IsCall : Effect → Type 0
IsCall emits_open = Unit
IsCall (emits_close code reason) = Unit
IsCall (emits_error e) = Unit
IsCall (emits_event v) = Unit
IsCall (emits_connected v) = Unit
IsCall (handler_called id command params) = Unit
IsCall timer_cleared = Unit
IsCall (socket_closed id) = Unit
IsCall _ = ⊥

-- A request that is not the `connect` of a challenge.
abbrev pub IsOther : Purpose → Type 0
IsOther for_connect = ⊥
IsOther _ = Unit

pub data Move (c : GatewayNodeClient) : GatewayNodeClient → List Effect → Type 0 where
  calls : (es : List Effect) (js : List Job) → All IsCall es → Move c (record c { jobs = js }) es
  untimed : Move c (record c { reconnect_timer = false }) []
  makes :
      (id : ℕ)
      → c.closed ≡ false
      → Move c (record c { ws = some id; connect_sent = false }) (socket_made id ∷ [])
  challenges : c.connect_sent ≡ false → Move c (record c { connect_sent = true }) []
  connects :
      (socket : ℕ) (id : String) (frame : Value)
      → c.connect_sent ≡ false
      → c.ws ≡ some socket
      → lookup id c.pending ≡ none
      → Move c
          (record c { connect_sent = true; pending = insert id for_connect c.pending })
          (sent socket id for_connect frame ∷ [])
  asks :
      (socket : ℕ) (id : String) (purpose : Purpose) (frame : Value)
      → IsOther purpose
      → c.ws ≡ some socket
      → lookup id c.pending ≡ none
      → Move c
          (record c { pending = insert id purpose c.pending })
          (sent socket id purpose frame ∷ [])
  answers :
      (id : String) (purpose : Purpose) (s : Settled) (js : List Job)
      → lookup id c.pending ≡ some purpose
      → Move c (record c { pending = erase id c.pending; jobs = js }) (settles id s ∷ [])
  drops : Move c (record c { ws = none }) []
  flushes :
      (e : ClientError) (js : List Job)
      → Move c (record c { pending = []; jobs = js }) (rejections e c.pending)
  schedules :
      c.closed ≡ false
      → Move c
          (record c { reconnect_timer = true; backoff_ms = min (c.backoff_ms * 2) 30000 })
          (timer_set c.backoff_ms ∷ [])
  resets : Move c (record c { backoff_ms = 1000 }) []
  stops :
      (es : List Effect)
      → All IsCall es
      → Move c (record c { closed = true; reconnect_timer = false; ws = none }) es

pub data Moves (c : GatewayNodeClient) : GatewayNodeClient → List Effect → Type 0 where
  still : Moves c c []
  then_move :
      {c' c'' : GatewayNodeClient} {es fs : List Effect}
      → Moves c c' es
      → Move c' c'' fs
      → Moves c c'' (es ++ fs)

abbrev pub Does : GatewayNodeClient → Acted → Type 0
Does c (c', es) = Moves c c' es

pub once : {c c' : GatewayNodeClient} {es : List Effect} → Move c c' es → Moves c c' es
once m = then_move still m

pub Moves-trans :
    {c c' c'' : GatewayNodeClient} {es fs : List Effect}
    → Moves c c' es
    → Moves c' c'' fs
    → Moves c c'' (es ++ fs)
Moves-trans {c} {c'} {es = es} m still = subst (Moves c c') (sym (append-nil es)) m
Moves-trans {c} {es = es} m (then_move {c''} {es = fs} {fs = gs} n k) =
    subst (Moves c c'') (append_assoc es fs gs) (then_move (Moves-trans m n) k)

-- Only calls and jobs.
pub called : (c : GatewayNodeClient) (es : List Effect) → All IsCall es → Moves c c es
called c es h = once (calls es c.jobs h)

-- What both branches do.
pub if-Does :
    (c : GatewayNodeClient) (b : Bool) (x y : Acted)
    → (b ≡ true → Does c x)
    → (b ≡ false → Does c y)
    → Does c (if b then x else y)
if-Does c true x y h k = h refl
if-Does c false x y h k = k refl
