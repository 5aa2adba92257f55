-- ===== src/Gateway/Backoff.antt =====
-- The delays before a reconnect of plugin/node/gateway-client.ts.
use openclaw_rtc_plugin.Common.{
  ℕ, zero, suc, ◌*◌, ◌^◌, ◌≤◌, min, String, false, ◌≡◌, ap, ◌∙◌, List, [], ◌∷◌, All, All-append,
  arith,
}
use openclaw_rtc_plugin.Common.Maps.{Entries}
use openclaw_rtc_plugin.Gateway.{
  Platform, Purpose, ClientError, Effect, socket_made, socket_closed, sent, settles, timer_set,
  timer_cleared, emits_open, emits_close, emits_error, emits_event, emits_connected, handler_called,
  GatewayNodeClient,
}
use openclaw_rtc_plugin.Gateway.Auth.{DeviceIdentity, GatewayNodeClientOptions}
use openclaw_rtc_plugin.Gateway.Client.{new, rejections, on_close}
use openclaw_rtc_plugin.Gateway.Moves.{
  IsCall, Move, calls, untimed, makes, challenges, connects, asks, answers, drops, flushes,
  schedules, resets, stops, Moves, still, then_move,
}
use openclaw_rtc_plugin.Gateway.Run.{Run, Run-Moves}

abbrev pub IsDelay : ℕ → Type 0
IsDelay d = (1000 ≤ d) × (d ≤ 30000)

-- A timer that is set has a delay in the range.
abbrev pub IsPaced : Effect → Type 0
IsPaced (timer_set d) = IsDelay d
IsPaced _ = Unit

call-IsPaced : (e : Effect) → IsCall e → IsPaced e
call-IsPaced emits_open h = tt
call-IsPaced (emits_close code reason) h = tt
call-IsPaced (emits_error e) h = tt
call-IsPaced (emits_event v) h = tt
call-IsPaced (emits_connected v) h = tt
call-IsPaced (handler_called id command params) h = tt
call-IsPaced timer_cleared h = tt
call-IsPaced (socket_closed id) h = tt
call-IsPaced (socket_made id) h = tt
call-IsPaced (sent s id p v) h = tt
call-IsPaced (settles id s) h = tt
call-IsPaced (timer_set d) h = elim h [ ]

calls-IsPaced : (es : List Effect) → All IsCall es → All IsPaced es
calls-IsPaced [] h = tt
calls-IsPaced (e ∷ es) h = (call-IsPaced e h.0, calls-IsPaced es h.1)

rejections-IsPaced : (e : ClientError) (p : Entries Purpose) → All IsPaced (rejections e p)
rejections-IsPaced e [] = tt
rejections-IsPaced e ((id, purpose) ∷ rest) = (tt, rejections-IsPaced e rest)

Move-IsPaced :
    {c c' : GatewayNodeClient} {es : List Effect}
    → Move c c' es
    → IsDelay c.backoff_ms
    → IsDelay c'.backoff_ms × All IsPaced es
Move-IsPaced (calls es js h) d = (d, calls-IsPaced es h)
Move-IsPaced untimed d = (d, tt)
Move-IsPaced (makes id live) d = (d, (tt, tt))
Move-IsPaced (challenges off) d = (d, tt)
Move-IsPaced (connects socket id frame off at fresh) d = (d, (tt, tt))
Move-IsPaced (asks socket id purpose frame other at fresh) d = (d, (tt, tt))
Move-IsPaced (answers id purpose s js at) d = (d, (tt, tt))
Move-IsPaced drops d = (d, tt)
Move-IsPaced {c} (flushes e js) d = (d, rejections-IsPaced e c.pending)
Move-IsPaced (schedules live) d = ((omega arith, omega arith), (d, tt))
Move-IsPaced resets d = ((omega arith, omega arith), tt)
Move-IsPaced (stops es h) d = (d, calls-IsPaced es h)

Moves-IsPaced :
    {c c' : GatewayNodeClient} {es : List Effect}
    → Moves c c' es
    → IsDelay c.backoff_ms
    → IsDelay c'.backoff_ms × All IsPaced es
Moves-IsPaced still d = (d, tt)
Moves-IsPaced (then_move {es = es} {fs = fs} n k) d =
    let (d', h) = Moves-IsPaced n d in
    let (d'', h') = Move-IsPaced k d' in (d'', All-append IsPaced es fs h h')

-- Whatever events come, every reconnect timer is set to a delay from 1000 to 30000 ms.
pub Run-IsPaced :
    (platform : Platform) (opts : GatewayNodeClientOptions) (identity : DeviceIdentity)
    (c : GatewayNodeClient) (es : List Effect)
    → Run platform opts identity new c es
    → All IsPaced es
unfolding new
Run-IsPaced platform opts identity c es r =
    (Moves-IsPaced (Run-Moves platform opts identity r) (omega arith, omega arith)).1

-- The client after `n` closes in a row.
unfoldable pub lose : ℕ → ℕ → String → GatewayNodeClient → GatewayNodeClient
lose zero code reason c = c
lose (suc n) code reason c = (on_close code reason (lose n code reason c)).0

lose-live :
    (n code : ℕ) (reason : String) (c : GatewayNodeClient)
    → c.closed ≡ false
    → (lose n code reason c).closed ≡ false
unfolding lose on_close
lose-live zero code reason c live = live
lose-live (suc n) code reason c live = ground (arith, lose-live n code reason c live)

close-backoff :
    (code : ℕ) (reason : String) (c : GatewayNodeClient)
    → c.closed ≡ false
    → (on_close code reason c).0.backoff_ms ≡ min (c.backoff_ms * 2) 30000
unfolding on_close
close-backoff code reason c live = ground arith

-- Of a client that is not stopped and has the first delay, the reconnect after `n` more closes in a
-- row, with no connection opened in between, waits 1000 * 2 ^ n ms, but never more than 30000.
lose-backoff :
    (n code : ℕ) (reason : String) (c : GatewayNodeClient)
    → c.closed ≡ false
    → c.backoff_ms ≡ 1000
    → (lose n code reason c).backoff_ms ≡ min (1000 * 2 ^ n) 30000
unfolding lose
lose-backoff zero code reason c live at = ground arith
lose-backoff (suc n) code reason c live at =
    let e = lose-backoff n code reason c live at in
    let step = close-backoff code reason (lose n code reason c) (lose-live n code reason c live) in
    step ∙ ap (λ b. min (b * 2) 30000) e ∙ omega arith
