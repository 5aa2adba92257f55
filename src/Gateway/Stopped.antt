-- ===== src/Gateway/Stopped.antt =====
-- `stop` of plugin/node/gateway-client.ts is final.
use openclaw_rtc_plugin.Common.{
  true, false, ◌≡◌, refl, ◌∙◌, none, List, [], ◌∷◌, All, All-append, arith,
}
use openclaw_rtc_plugin.Common.Maps.{Entries}
use openclaw_rtc_plugin.Gateway.{
  Platform, Purpose, ClientError, Effect, socket_made, socket_closed, sent, settles, timer_set,
  timer_cleared, emits_open, emits_close, emits_error, emits_event, emits_connected, handler_called,
  GatewayNodeClient,
}
use openclaw_rtc_plugin.Gateway.Auth.{DeviceIdentity, GatewayNodeClientOptions}
use openclaw_rtc_plugin.Gateway.Client.{rejections, stop}
use openclaw_rtc_plugin.Gateway.Moves.{
  IsCall, Move, calls, untimed, makes, challenges, connects, asks, answers, drops, flushes,
  schedules, resets, stops, Moves, still, then_move,
}
use openclaw_rtc_plugin.Gateway.Run.{Run, Run-Moves}

-- No socket is made, nothing is sent, and no timer is set.
abbrev pub IsInactive : Effect → Type 0
IsInactive (socket_made id) = ⊥
IsInactive (sent socket id purpose frame) = ⊥
IsInactive (timer_set d) = ⊥
IsInactive _ = Unit

pub record IsStopped (c : GatewayNodeClient) : Type 0 where
  pub shut : c.closed ≡ true
  pub no_socket : c.ws ≡ none
  pub no_timer : c.reconnect_timer ≡ false

call-IsInactive : (e : Effect) → IsCall e → IsInactive e
call-IsInactive emits_open h = tt
call-IsInactive (emits_close code reason) h = tt
call-IsInactive (emits_error e) h = tt
call-IsInactive (emits_event v) h = tt
call-IsInactive (emits_connected v) h = tt
call-IsInactive (handler_called id command params) h = tt
call-IsInactive timer_cleared h = tt
call-IsInactive (socket_closed id) h = tt
call-IsInactive (settles id s) h = tt
call-IsInactive (socket_made id) h = elim h [ ]
call-IsInactive (sent s id p v) h = elim h [ ]
call-IsInactive (timer_set d) h = elim h [ ]

calls-IsInactive : (es : List Effect) → All IsCall es → All IsInactive es
calls-IsInactive [] h = tt
calls-IsInactive (e ∷ es) h = (call-IsInactive e h.0, calls-IsInactive es h.1)

rejections-IsInactive : (e : ClientError) (p : Entries Purpose) → All IsInactive (rejections e p)
rejections-IsInactive e [] = tt
rejections-IsInactive e ((id, purpose) ∷ rest) = (tt, rejections-IsInactive e rest)

same :
    {c c' : GatewayNodeClient}
    → c'.closed ≡ c.closed
    → c'.ws ≡ c.ws
    → c'.reconnect_timer ≡ c.reconnect_timer
    → IsStopped c
    → IsStopped c'
same a b d s = record { shut = a ∙ s.shut; no_socket = b ∙ s.no_socket; no_timer = d ∙ s.no_timer }

Move-IsStopped :
    {c c' : GatewayNodeClient} {es : List Effect}
    → Move c c' es
    → IsStopped c
    → IsStopped c' × All IsInactive es
Move-IsStopped (calls es js h) s = (same refl refl refl s, calls-IsInactive es h)
Move-IsStopped untimed s = (record { shut = s.shut; no_socket = s.no_socket; no_timer = refl }, tt)
Move-IsStopped (makes id live) s = absurd (ground (arith, s.shut))
Move-IsStopped (challenges off) s = (same refl refl refl s, tt)
Move-IsStopped (connects socket id frame off at fresh) s = absurd (ground (arith, s.no_socket))
Move-IsStopped (asks socket id purpose frame other at fresh) s =
    absurd (ground (arith, s.no_socket))
Move-IsStopped (answers id purpose r js at) s = (same refl refl refl s, (tt, tt))
Move-IsStopped drops s = (record { shut = s.shut; no_socket = refl; no_timer = s.no_timer }, tt)
Move-IsStopped {c} (flushes e js) s = (same refl refl refl s, rejections-IsInactive e c.pending)
Move-IsStopped (schedules live) s = absurd (ground (arith, s.shut))
Move-IsStopped resets s = (same refl refl refl s, tt)
Move-IsStopped (stops es h) s =
    (record { shut = refl; no_socket = refl; no_timer = refl }, calls-IsInactive es h)

Moves-IsStopped :
    {c c' : GatewayNodeClient} {es : List Effect}
    → Moves c c' es
    → IsStopped c
    → IsStopped c' × All IsInactive es
Moves-IsStopped still s = (s, tt)
Moves-IsStopped (then_move {es = es} {fs = fs} n k) s =
    let (s', h) = Moves-IsStopped n s in
    let (s'', h') = Move-IsStopped k s' in (s'', All-append IsInactive es fs h h')

-- After `stop`, whatever events come, `start` among them: the client makes no socket, sends nothing
-- and sets no timer, and it stays stopped.
pub stop-IsStopped :
    (platform : Platform) (opts : GatewayNodeClientOptions) (identity : DeviceIdentity)
    (c c' : GatewayNodeClient) (es : List Effect)
    → Run platform opts identity (stop c).0 c' es
    → IsStopped c' × All IsInactive es
unfolding stop
stop-IsStopped platform opts identity c c' es r =
    Moves-IsStopped (Run-Moves platform opts identity r)
      (record { shut = refl; no_socket = refl; no_timer = refl })
