-- ===== src/Gateway/Requests.antt =====
-- The pending requests of plugin/node/gateway-client.ts.
use openclaw_rtc_plugin.Common.{
  ℕ, ◌+◌, String, str_eq, Bool, true, false, ◌≡◌, refl, none, some, List, [], ◌∷◌, ◌++◌, All, arith,
  eq_iff,
}
use openclaw_rtc_plugin.Common.Maps.{Entries, lookup, insert, erase}
use openclaw_rtc_plugin.Gateway.{
  Platform, Purpose, for_connect, ClientError, Effect, socket_made, socket_closed, sent, settles,
  timer_set, timer_cleared, emits_open, emits_close, emits_error, emits_event, emits_connected,
  handler_called, GatewayNodeClient,
}
use openclaw_rtc_plugin.Gateway.Auth.{DeviceIdentity, GatewayNodeClientOptions}
use openclaw_rtc_plugin.Gateway.Client.{new, rejections}
use openclaw_rtc_plugin.Gateway.Moves.{
  IsCall, Move, calls, untimed, makes, challenges, connects, asks, answers, drops, flushes,
  schedules, resets, stops, Moves, still, then_move,
}
use openclaw_rtc_plugin.Gateway.Run.{Run, Run-Moves}

abbrev one_if : Bool → ℕ
one_if true = 1
one_if false = 0

-- How often a request with this id was sent, and how often its promise was settled.
abbrev asks_of : String → Effect → ℕ
asks_of id (sent socket k purpose frame) = one_if (str_eq k id)
asks_of id _ = 0

abbrev settles_of : String → Effect → ℕ
settles_of id (settles k s) = one_if (str_eq k id)
settles_of id _ = 0

unfoldable pub total : (Effect → ℕ) → List Effect → ℕ
total f [] = 0
total f (e ∷ es) = f e + total f es

unfoldable pub asked : String → List Effect → ℕ
asked id es = total (asks_of id) es

unfoldable pub settled : String → List Effect → ℕ
settled id es = total (settles_of id) es

-- How many entries have the key `id`.
unfoldable pub held : String → Entries Purpose → ℕ
held id [] = 0
held id (e ∷ es) = one_if (str_eq e.0 id) + held id es

pub total-append :
    (f : Effect → ℕ) (es fs : List Effect) → total f (es ++ fs) ≡ total f es + total f fs
unfolding total
total-append f [] fs = omega arith
total-append f (e ∷ es) fs = omega (arith, total-append f es fs)

held-insert :
    (id k : String) (v : Purpose) (p : Entries Purpose)
    → lookup k p ≡ none
    → held id (insert k v p) ≡ one_if (str_eq k id) + held id p
unfolding held insert lookup
held-insert id k v [] fresh = refl
held-insert id k v ((j, w) ∷ p) fresh = ground (arith, held-insert id k v p)

held-erase :
    (id k : String) (v : Purpose) (p : Entries Purpose)
    → lookup k p ≡ some v
    → held id p ≡ one_if (str_eq k id) + held id (erase k p)
unfolding held erase lookup
held-erase id k v [] at = absurd (ground arith)
held-erase id k v ((j, w) ∷ p) at = ground (arith, held-erase id k v p, eq_iff j k)

call_neither : (id : String) (e : Effect) → IsCall e → (asks_of id e ≡ 0) × (settles_of id e ≡ 0)
call_neither id emits_open h = (refl, refl)
call_neither id (emits_close code reason) h = (refl, refl)
call_neither id (emits_error e) h = (refl, refl)
call_neither id (emits_event v) h = (refl, refl)
call_neither id (emits_connected v) h = (refl, refl)
call_neither id (handler_called i command params) h = (refl, refl)
call_neither id timer_cleared h = (refl, refl)
call_neither id (socket_closed i) h = (refl, refl)
call_neither id (socket_made i) h = (refl, refl)
call_neither id (timer_set d) h = (refl, refl)
call_neither id (sent s i p v) h = elim h [ ]
call_neither id (settles i s) h = elim h [ ]

calls_neither :
    (id : String) (es : List Effect) → All IsCall es → (asked id es ≡ 0) × (settled id es ≡ 0)
unfolding asked settled total
calls_neither id [] h = (refl, refl)
calls_neither id (e ∷ es) h =
    let (a, b) = call_neither id e h.0 in
    let (as_, bs) = calls_neither id es h.1 in (omega (arith, a, as_), omega (arith, b, bs))

rejections_settle :
    (id : String) (e : ClientError) (p : Entries Purpose)
    → (asked id (rejections e p) ≡ 0) × (settled id (rejections e p) ≡ held id p)
unfolding asked settled total held
rejections_settle id e [] = (refl, refl)
rejections_settle id e ((k, purpose) ∷ rest) =
    let (a, b) = rejections_settle id e rest in (omega (arith, a), omega (arith, b))

-- What was asked and what waited is what was settled and what waits.
abbrev IsBalanced : String → GatewayNodeClient → GatewayNodeClient → List Effect → Type 0
IsBalanced id c c' es = asked id es + held id c.pending ≡ settled id es + held id c'.pending

Move-IsBalanced :
    (id : String) {c c' : GatewayNodeClient} {es : List Effect}
    → Move c c' es
    → IsBalanced id c c' es
unfolding asked settled total held
Move-IsBalanced id (calls es js h) = omega (arith, calls_neither id es h)
Move-IsBalanced id untimed = refl
Move-IsBalanced id (makes i live) = refl
Move-IsBalanced id (challenges off) = refl
Move-IsBalanced id {c} (connects socket k frame off at fresh) =
    omega (arith, held-insert id k for_connect c.pending fresh)
Move-IsBalanced id {c} (asks socket k purpose frame other at fresh) =
    omega (arith, held-insert id k purpose c.pending fresh)
Move-IsBalanced id {c} (answers k purpose s js at) =
    omega (arith, held-erase id k purpose c.pending at)
Move-IsBalanced id drops = refl
Move-IsBalanced id {c} (flushes e js) = omega (arith, rejections_settle id e c.pending)
Move-IsBalanced id (schedules live) = refl
Move-IsBalanced id resets = refl
Move-IsBalanced id (stops es h) = omega (arith, calls_neither id es h)

Moves-IsBalanced :
    (id : String) {c c' : GatewayNodeClient} {es : List Effect}
    → Moves c c' es
    → IsBalanced id c c' es
unfolding asked settled total
Moves-IsBalanced id still = refl
Moves-IsBalanced id (then_move {es = es} {fs = fs} n k) = omega (
  arith,
  Moves-IsBalanced id n,
  Move-IsBalanced id k,
  total-append (asks_of id) es fs,
  total-append (settles_of id) es fs,
)

-- No request is lost and none is settled twice: whatever events come, with a new id for each
-- request, the requests sent with an id are those settled and those pending with it.
pub Run-settled :
    (platform : Platform) (opts : GatewayNodeClientOptions) (identity : DeviceIdentity)
    (c : GatewayNodeClient) (es : List Effect)
    → Run platform opts identity new c es
    → (id : String) → asked id es ≡ settled id es + held id c.pending
unfolding new held
Run-settled platform opts identity c es r id =
    omega (arith, Moves-IsBalanced id (Run-Moves platform opts identity r))
