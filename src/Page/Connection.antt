-- ===== src/Page/Connection.antt =====
-- The connection of plugin/ui/app.ts to the gateway is never given up, and never made twice.
use openclaw_rtc_plugin.Common.{
  ℕ, ◌+◌, ◌≡◌, refl, Option, none, some, List, [], ◌∷◌, ◌++◌, arith, ap, sym, subst, ◌∙◌, get_elem?,
}
use openclaw_rtc_plugin.Page.{Effect, RtcPeer, Page, new}
use openclaw_rtc_plugin.Page.Peer.{releases?, stopped, closed}
use openclaw_rtc_plugin.Page.Loop.{
  Event, script_run, socket_opened, message_received, socket_closed, socket_failed, reconnect_fired,
  hide_fired, typed, submitted, call_clicked, hangup_clicked, wait_over, ice_found, track_received,
  state_changed,
}
use openclaw_rtc_plugin.Page.Moves.{
  Move, shows, plays, asks, answers, counts, dials, takes, quits, joins, names, frees, rests, Moves,
  still, then_move,
}
use openclaw_rtc_plugin.Page.Script.{IsInside, Step, moves, loses, reconnects, unset, Script}
use openclaw_rtc_plugin.Page.Run.{sockets_made, closes_of, IsDue, Run, begin, then_event}

abbrev pub one_if_some : Option ℕ → ℕ
one_if_some none = 0
one_if_some (some k) = 1

sockets_made-append :
    (es fs : List Effect) → sockets_made (es ++ fs) ≡ sockets_made es + sockets_made fs
unfolding sockets_made
sockets_made-append [] fs = omega arith
sockets_made-append (e ∷ es) fs = omega (arith, sockets_made-append es fs)

releases_no_socket : (r : Option RtcPeer) → sockets_made (releases? r) ≡ 0
unfolding sockets_made
releases_no_socket none = refl
releases_no_socket (some r) = parts r.local_stream r.pc
  where
    parts : (s pc : Option ℕ) → sockets_made (stopped s ++ closed pc) ≡ 0
    parts none none = refl
    parts none (some pc) = refl
    parts (some s) none = refl
    parts (some s) (some pc) = refl

-- What has to do with the connection is as it was.
abbrev SameLink : Page → Page → List Effect → Type 0
SameLink p p' es = (p'.ws ≡ p.ws) × (p'.reconnects ≡ p.reconnects) × (sockets_made es ≡ 0)

Move-SameLink : {p p' : Page} {es : List Effect} → Move p p' es → SameLink p p' es
unfolding sockets_made
Move-SameLink (shows s) = (refl, refl, refl)
Move-SameLink plays = (refl, refl, refl)
Move-SameLink (asks socket id method params purpose at fresh) = (refl, refl, refl)
Move-SameLink (answers id purpose s at) = (refl, refl, refl)
Move-SameLink (counts n) = (refl, refl, refl)
Move-SameLink (dials s at) = (refl, refl, refl)
Move-SameLink (takes j i stream pc at) = (refl, refl, refl)
Move-SameLink (quits j) = (refl, refl, refl)
Move-SameLink (joins w later) = (refl, refl, refl)
Move-SameLink (names i v at) = (refl, refl, refl)
Move-SameLink {p} (frees i at) = (refl, refl, releases_no_socket (get_elem? p.peers i))
Move-SameLink (rests at) = (refl, refl, refl)

Moves-SameLink : {p p' : Page} {es : List Effect} → Moves p p' es → SameLink p p' es
unfolding sockets_made
Moves-SameLink still = (refl, refl, refl)
Moves-SameLink (then_move {es = es} {fs = fs} ms m) =
    let (a, b, c) = Moves-SameLink ms in
    let (a', b', c') = Move-SameLink m in
    (a' ∙ a, b' ∙ b, omega (arith, c, c', sockets_made-append es fs))

closes_inside : (e : Event) → IsInside e → closes_of e ≡ 0
closes_inside (script_run id) h = elim h [ ]
closes_inside socket_closed h = elim h [ ]
closes_inside (reconnect_fired id) h = elim h [ ]
closes_inside socket_opened h = refl
closes_inside (message_received text) h = refl
closes_inside socket_failed h = refl
closes_inside hide_fired h = refl
closes_inside (typed text) h = refl
closes_inside submitted h = refl
closes_inside call_clicked h = refl
closes_inside hangup_clicked h = refl
closes_inside (wait_over j outcome) h = refl
closes_inside (ice_found i v) h = refl
closes_inside (track_received i) h = refl
closes_inside (state_changed i state) h = refl

-- One socket is in use or one timer is set, and every other socket has closed.
pub record IsLinked (p : Page) (made ended : ℕ) : Type 0 where
  pub one_way : one_if_some p.ws + p.reconnects ≡ 1
  pub one_open : made ≡ ended + one_if_some p.ws

one_if_some-ap : (o o' : Option ℕ) → o ≡ o' → one_if_some o ≡ one_if_some o'
one_if_some-ap o o' at = ap (λ x. one_if_some x) at

Step-IsLinked :
    (p p' : Page) (e : Event) (es : List Effect) (made ended : ℕ)
    → Step p e p' es
    → IsDue e made ended
    → IsLinked p made ended
    → IsLinked p' (made + sockets_made es) (closes_of e + ended)
unfolding sockets_made
Step-IsLinked p p' e es made ended (moves h ms) due l =
    let (a, b, c) = Moves-SameLink ms in
    let ws = one_if_some-ap p'.ws p.ws a in
    record {
      one_way = omega (arith, l.one_way, ws, b);
      one_open = omega (arith, l.one_open, ws, c, closes_inside e h);
    }
Step-IsLinked p _ _ _ made ended loses due l = record {
  one_way = omega (arith, l.one_way, l.one_open, due);
  one_open = omega (arith, l.one_way, l.one_open, due);
}
Step-IsLinked p _ _ _ made ended (reconnects id n at) due l = record {
  one_way = omega (arith, l.one_way, at);
  one_open = omega (arith, l.one_way, l.one_open, at);
}
Step-IsLinked p _ _ _ made ended (unset id at) due l = record {
  one_way = l.one_way;
  one_open = omega (arith, l.one_open);
}

-- With any script.
pub Script-IsLinked :
    (script : Script) (p : Page) (es : List Effect) (n : ℕ)
    → Run script p es n
    → IsLinked p (sockets_made es) n
unfolding new sockets_made
Script-IsLinked script _ _ _ (begin m id) =
    let (s, at) = script.first m id in
    subst (λ a. IsLinked a.0 (sockets_made a.1) 0) (sym at)
      (record { one_way = refl; one_open = refl })
Script-IsLinked script _ _ _ (then_event {p} {es} {n} r m e h due fresh) =
    subst (λ k. IsLinked (script.happen m e p).0 k (closes_of e + n))
      (sym (sockets_made-append es (script.happen m e p).1))
      (Step-IsLinked p _ e _ (sockets_made es) n (script.step m e p h fresh) due
        (Script-IsLinked script p es n r))
