-- ===== src/Page/Coherent.antt =====
-- The call of plugin/ui/app.ts: its peer, its id and the buttons agree.
use openclaw_rtc_plugin.Common.{
  ℕ, zero, suc, Bool, true, false, not, ◌≡◌, refl, sym, ap, ◌∙◌, Option, none, some, List, [], ◌∷◌,
  length, length-append, arith,
}
use openclaw_rtc_plugin.Json.{Value}
use openclaw_rtc_plugin.Page.{Effect, RtcPeer, Page, new}
use openclaw_rtc_plugin.Page.Peer.{put, blank}
use openclaw_rtc_plugin.Page.Loop.{Event}
use openclaw_rtc_plugin.Page.Moves.{
  Move, shows, plays, asks, answers, counts, dials, takes, quits, joins, names, frees, rests, Moves,
  still, then_move,
}
use openclaw_rtc_plugin.Page.Script.{Step, moves, loses, reconnects, unset, Script}
use openclaw_rtc_plugin.Page.Run.{Run, Run-keeps}

abbrev pub is_some {ℓ} : {A : Type ℓ} → Option A → Bool
is_some none = false
is_some (some a) = true

-- No peer, no call id.
abbrev pub IsNamed : Option ℕ → Option Value → Type 0
IsNamed none v = v ≡ none
IsNamed (some i) v = Unit

-- The peer is the last one that was made.
abbrev pub IsLast : Option ℕ → ℕ → Type 0
IsLast none n = Unit
IsLast (some i) n = n ≡ suc i

pub record Agree (call_hidden hangup_hidden : Bool) (peer : Option ℕ) (id : Option Value) (made : ℕ)
    : Type 0 where
  pub call_shown : call_hidden ≡ is_some peer
  pub hangup_shown : hangup_hidden ≡ not (is_some peer)
  pub named : IsNamed peer id
  pub last : IsLast peer made

abbrev pub IsCoherent : Page → Type 0
IsCoherent p = Agree p.call_hidden p.hangup_hidden p.rtc_peer p.current_call_id (length p.peers)

pub length-put : (i : ℕ) (r : RtcPeer) (rs : List RtcPeer) → length (put i r rs) ≡ length rs
unfolding put
length-put i r [] = refl
length-put zero r (q ∷ rs) = refl
length-put (suc i) r (q ∷ rs) = ap suc (length-put i r rs)

put-IsLast :
    (o : Option ℕ) (i : ℕ) (r : RtcPeer) (rs : List RtcPeer)
    → IsLast o (length rs)
    → IsLast o (length (put i r rs))
put-IsLast none i r rs h = tt
put-IsLast (some j) i r rs h = length-put i r rs ∙ h

IsNamed-some : (o : Option ℕ) (i : ℕ) (v : Option Value) → o ≡ some i → IsNamed o v
IsNamed-some none i v at = absurd (ground arith)
IsNamed-some (some j) i v at = tt

IsNamed-none : (o : Option ℕ) → IsNamed o none
IsNamed-none none = refl
IsNamed-none (some i) = tt

Move-IsCoherent : {p p' : Page} {es : List Effect} → Move p p' es → IsCoherent p → IsCoherent p'
Move-IsCoherent {p} (dials s at) c = record {
  call_shown = refl;
  hangup_shown = refl;
  named = tt;
  last = omega (arith, length-append p.peers (blank ∷ []));
}
Move-IsCoherent {p} (takes j i stream pc at) c = record {
  call_shown = c.call_shown;
  hangup_shown = c.hangup_shown;
  named = c.named;
  last = put-IsLast p.rtc_peer i _ p.peers c.last;
}
Move-IsCoherent {p} (names i v at) c = record {
  call_shown = c.call_shown;
  hangup_shown = c.hangup_shown;
  named = IsNamed-some p.rtc_peer i v at;
  last = c.last;
}
Move-IsCoherent (frees i at) c = record {
  call_shown = refl;
  hangup_shown = refl;
  named = refl;
  last = tt;
}
Move-IsCoherent {p} (rests at) c = record {
  call_shown = sym (ap is_some at);
  hangup_shown = sym (ap (λ o. not (is_some o)) at);
  named = IsNamed-none p.rtc_peer;
  last = c.last;
}
Move-IsCoherent (shows s) c = c
Move-IsCoherent plays c = c
Move-IsCoherent (asks socket id method params purpose at fresh) c = c
Move-IsCoherent (answers id purpose s at) c = c
Move-IsCoherent (counts n) c = c
Move-IsCoherent (quits j) c = c
Move-IsCoherent (joins w later) c = c

Moves-IsCoherent : {p p' : Page} {es : List Effect} → Moves p p' es → IsCoherent p → IsCoherent p'
Moves-IsCoherent still c = c
Moves-IsCoherent (then_move ms m) c = Move-IsCoherent m (Moves-IsCoherent ms c)

Step-IsCoherent :
    (p p' : Page) (e : Event) (es : List Effect) → Step p e p' es → IsCoherent p → IsCoherent p'
Step-IsCoherent p _ e es (moves h ms) c = Moves-IsCoherent ms c
Step-IsCoherent p _ _ _ loses c = c
Step-IsCoherent p _ _ _ (reconnects id n at) c = c
Step-IsCoherent p _ _ _ (unset id at) c = c

-- With any script.
pub Script-IsCoherent :
    (script : Script) (p : Page) (es : List Effect) (n : ℕ) → Run script p es n → IsCoherent p
unfolding new
Script-IsCoherent script p es n r =
    Run-keeps IsCoherent Step-IsCoherent script
      (λ s id. record { call_shown = refl; hangup_shown = refl; named = refl; last = tt }) r
