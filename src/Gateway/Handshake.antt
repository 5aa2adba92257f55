-- ===== src/Gateway/Handshake.antt =====
-- The `connect` request of plugin/node/gateway-client.ts.
use openclaw_rtc_plugin.Common.{
  ℕ, ◌+◌, ◌≤◌, String, Bool, true, false, ◌≡◌, refl, Option, none, some, List, [], ◌∷◌, All, arith,
}
use openclaw_rtc_plugin.Common.Maps.{Entries}
use openclaw_rtc_plugin.Json.{Value}
use openclaw_rtc_plugin.Gateway.{
  Platform, Purpose, for_connect, for_result, for_failure, for_caller, ClientError, Effect,
  socket_made, socket_closed, sent, settles, timer_set, timer_cleared, emits_open, emits_close,
  emits_error, emits_event, emits_connected, handler_called, GatewayNodeClient,
}
use openclaw_rtc_plugin.Gateway.Auth.{DeviceIdentity, GatewayNodeClientOptions}
use openclaw_rtc_plugin.Gateway.Client.{new, rejections}
use openclaw_rtc_plugin.Gateway.Moves.{
  IsCall, IsOther, Move, calls, untimed, makes, challenges, connects, asks, answers, drops, flushes,
  schedules, resets, stops, Moves, still, then_move,
}
use openclaw_rtc_plugin.Gateway.Run.{Run, Run-Moves}
use openclaw_rtc_plugin.Gateway.Requests.{total, total-append}

-- How many `connect` requests are sent, and how many sockets are made.
abbrev connect_of : Effect → ℕ
connect_of (sent socket id for_connect frame) = 1
connect_of _ = 0

abbrev made_of : Effect → ℕ
made_of (socket_made id) = 1
made_of _ = 0

unfoldable pub connects_sent : List Effect → ℕ
connects_sent es = total connect_of es

unfoldable pub sockets_made : List Effect → ℕ
sockets_made es = total made_of es

-- A socket whose `connect` was not sent.
abbrev waiting : Option ℕ → Bool → ℕ
waiting none b = 0
waiting (some id) true = 0
waiting (some id) false = 1

abbrev slack : GatewayNodeClient → ℕ
slack c = waiting c.ws c.connect_sent

call_zero : (e : Effect) → IsCall e → (connect_of e ≡ 0) × (made_of e ≡ 0)
call_zero emits_open h = (refl, refl)
call_zero (emits_close code reason) h = (refl, refl)
call_zero (emits_error e) h = (refl, refl)
call_zero (emits_event v) h = (refl, refl)
call_zero (emits_connected v) h = (refl, refl)
call_zero (handler_called i command params) h = (refl, refl)
call_zero timer_cleared h = (refl, refl)
call_zero (socket_closed i) h = (refl, refl)
call_zero (settles i s) h = (refl, refl)
call_zero (timer_set d) h = (refl, refl)
call_zero (socket_made i) h = elim h [ ]
call_zero (sent s i p v) h = elim h [ ]

calls_zero : (es : List Effect) → All IsCall es → (connects_sent es ≡ 0) × (sockets_made es ≡ 0)
unfolding connects_sent sockets_made total
calls_zero [] h = (refl, refl)
calls_zero (e ∷ es) h =
    let (a, b) = call_zero e h.0 in
    let (as_, bs) = calls_zero es h.1 in (omega (arith, a, as_), omega (arith, b, bs))

rejections_zero :
    (e : ClientError) (p : Entries Purpose)
    → (connects_sent (rejections e p) ≡ 0) × (sockets_made (rejections e p) ≡ 0)
unfolding connects_sent sockets_made total
rejections_zero e [] = (refl, refl)
rejections_zero e ((k, purpose) ∷ rest) =
    let (a, b) = rejections_zero e rest in (omega (arith, a), omega (arith, b))

other_zero :
    (socket : ℕ) (id : String) (purpose : Purpose) (frame : Value)
    → IsOther purpose
    → connect_of (sent socket id purpose frame) ≡ 0
other_zero socket id for_connect frame h = elim h [ ]
other_zero socket id (for_result v) frame h = refl
other_zero socket id for_failure frame h = refl
other_zero socket id for_caller frame h = refl

-- A move spends a socket for each `connect`.
abbrev Pays : GatewayNodeClient → GatewayNodeClient → List Effect → Type 0
Pays c c' es = connects_sent es + slack c' ≤ sockets_made es + slack c

waiting_false :
    (w : Option ℕ) (socket : ℕ) (b : Bool) → b ≡ false → w ≡ some socket → waiting w b ≡ 1
waiting_false w socket b off at = ground arith

waiting_true : (w : Option ℕ) → waiting w true ≡ 0
waiting_true none = refl
waiting_true (some id) = refl

Move-Pays : {c c' : GatewayNodeClient} {es : List Effect} → Move c c' es → Pays c c' es
unfolding connects_sent sockets_made total
Move-Pays {c} (calls es js h) = omega (arith, calls_zero es h)
Move-Pays untimed = omega arith
Move-Pays (makes i live) = omega arith
Move-Pays {c} (challenges off) = omega (arith, waiting_true c.ws)
Move-Pays {c} (connects socket k frame off at fresh) =
    omega (arith, waiting_true c.ws, waiting_false c.ws socket c.connect_sent off at)
Move-Pays (asks socket k purpose frame other at fresh) =
    omega (arith, other_zero socket k purpose frame other)
Move-Pays (answers k purpose s js at) = omega arith
Move-Pays drops = omega arith
Move-Pays {c} (flushes e js) = omega (arith, rejections_zero e c.pending)
Move-Pays (schedules live) = omega arith
Move-Pays resets = omega arith
Move-Pays (stops es h) = omega (arith, calls_zero es h)

Moves-Pays : {c c' : GatewayNodeClient} {es : List Effect} → Moves c c' es → Pays c c' es
unfolding connects_sent sockets_made total
Moves-Pays still = omega arith
Moves-Pays (then_move {es = es} {fs = fs} n k) =
    omega
      (arith, Moves-Pays n, Move-Pays k, total-append connect_of es fs, total-append made_of es fs)

-- Whatever events come, no more `connect` requests are sent than sockets were made, however many
-- challenges the gateway sends.
pub Run-connects :
    (platform : Platform) (opts : GatewayNodeClientOptions) (identity : DeviceIdentity)
    (c : GatewayNodeClient) (es : List Effect)
    → Run platform opts identity new c es
    → connects_sent es ≤ sockets_made es
unfolding new
Run-connects platform opts identity c es r =
    omega (arith, Moves-Pays (Run-Moves platform opts identity r))
