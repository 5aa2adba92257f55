-- ===== src/Page/Media.antt =====
-- What becomes of the microphone streams and the connections of plugin/ui/rtc-peer.ts.
use openclaw_rtc_plugin.Common.{
  sym, subst, ℕ, zero, suc, ◌+◌, ◌==◌, ◌≡◌, inl, inr, refl, ap, Option, none, some, List, [], ◌∷◌,
  ◌++◌, get_elem?, Option-cases, arith,
}
use openclaw_rtc_plugin.Common.Maps.{to_ℕ}
use openclaw_rtc_plugin.Page.{
  Effect, stream_taken, stream_stopped, pc_made, pc_closed, RtcPeer, at_media, Page, new,
}
use openclaw_rtc_plugin.Page.Peer.{put, blank, stopped, closed, releases?}
use openclaw_rtc_plugin.Page.Loop.{Event}
use openclaw_rtc_plugin.Page.Moves.{
  Move, shows, plays, asks, answers, counts, dials, takes, quits, joins, names, frees, rests, Moves,
  still, then_move,
}
use openclaw_rtc_plugin.Page.Script.{Step, moves, loses, reconnects, unset, Script}
use openclaw_rtc_plugin.Page.Run.{Run, begin, then_event}
use openclaw_rtc_plugin.Page.Waits.{
  asking, asking-remove_at, IsWaiting, Moves-IsWaiting, Run-IsWaiting,
}

-- What a peer holds.
pub data Part : Type 0 where
  microphone connection : Part

abbrev pub part_of : Part → RtcPeer → Option ℕ
part_of microphone r = r.local_stream
part_of connection r = r.pc

abbrev one_if : ℕ → Option ℕ → ℕ
one_if x none = 0
one_if x (some y) = to_ℕ (y == x)

abbrev begins_of : Part → ℕ → Effect → ℕ
begins_of microphone x (stream_taken y) = to_ℕ (y == x)
begins_of connection x (pc_made y) = to_ℕ (y == x)
begins_of k x _ = 0

abbrev ends_of : Part → ℕ → Effect → ℕ
ends_of microphone x (stream_stopped y) = to_ℕ (y == x)
ends_of connection x (pc_closed y) = to_ℕ (y == x)
ends_of k x _ = 0

unfoldable pub total : (Effect → ℕ) → List Effect → ℕ
total f [] = 0
total f (e ∷ es) = f e + total f es

-- How often a part with the number `x` was taken, and how often it was released.
unfoldable pub taken : Part → ℕ → List Effect → ℕ
taken k x es = total (begins_of k x) es

unfoldable pub released : Part → ℕ → List Effect → ℕ
released k x es = total (ends_of k x) es

-- How many peers, of all that were ever made, hold it.
unfoldable pub held : Part → ℕ → List RtcPeer → ℕ
held k x [] = 0
held k x (r ∷ rs) = one_if x (part_of k r) + held k x rs

total-append : (f : Effect → ℕ) (es fs : List Effect) → total f (es ++ fs) ≡ total f es + total f fs
unfolding total
total-append f [] fs = omega arith
total-append f (e ∷ es) fs = omega (arith, total-append f es fs)

held-append :
    (k : Part) (x : ℕ) (rs qs : List RtcPeer) → held k x (rs ++ qs) ≡ held k x rs + held k x qs
unfolding held
held-append k x [] qs = omega arith
held-append k x (r ∷ rs) qs = omega (arith, held-append k x rs qs)

held_blank : (k : Part) (x : ℕ) → one_if x (part_of k blank) ≡ 0
held_blank microphone x = refl
held_blank connection x = refl

held-put :
    (k : Part) (x i : ℕ) (r q : RtcPeer) (rs : List RtcPeer)
    → get_elem? rs i ≡ some q
    → held k x (put i r rs) + one_if x (part_of k q) ≡ held k x rs + one_if x (part_of k r)
unfolding held put
held-put k x i r q [] at = absurd (ground arith)
held-put k x zero r q (p ∷ rs) at = let same = ap (λ o. one_if? o) at in omega (arith, same)
  where
    one_if? : Option RtcPeer → ℕ
    one_if? none = 0
    one_if? (some s) = one_if x (part_of k s)
held-put k x (suc i) r q (p ∷ rs) at = omega (arith, held-put k x i r q rs at)

put_past : (i : ℕ) (r : RtcPeer) (rs : List RtcPeer) → get_elem? rs i ≡ none → put i r rs ≡ rs
unfolding put
put_past i r [] at = refl
put_past zero r (p ∷ rs) at = absurd (ground arith)
put_past (suc i) r (p ∷ rs) at = ap (◌∷◌ p) (put_past i r rs at)

-- What `hangup` does is the release of both parts.
releases_parts :
    (k : Part) (x : ℕ) (r : RtcPeer)
    → (taken k x (releases? (some r)) ≡ 0)
      × (released k x (releases? (some r)) ≡ one_if x (part_of k r))
unfolding taken released total
releases_parts k x r = parts k r.local_stream r.pc
  where
    parts :
        (k : Part) (s pc : Option ℕ)
        → (taken k x (stopped s ++ closed pc) ≡ 0)
          × (released k x (stopped s ++ closed pc)
              ≡ one_if x (part_of k (record { pc = pc; local_stream = s })))
    parts microphone none none = (refl, refl)
    parts microphone none (some pc) = (refl, refl)
    parts microphone (some s) none = (omega arith, omega arith)
    parts microphone (some s) (some pc) = (omega arith, omega arith)
    parts connection none none = (refl, refl)
    parts connection none (some pc) = (omega arith, omega arith)
    parts connection (some s) none = (refl, refl)
    parts connection (some s) (some pc) = (omega arith, omega arith)

-- What was taken and was held is what was released and is held.
abbrev IsBalanced : Part → ℕ → Page → Page → List Effect → Type 0
IsBalanced k x p p' es = taken k x es + held k x p.peers ≡ released k x es + held k x p'.peers

frees_balance :
    (k : Part) (x i : ℕ) (rs : List RtcPeer)
    → taken k x (releases? (get_elem? rs i)) + held k x rs
      ≡ released k x (releases? (get_elem? rs i)) + held k x (put i blank rs)
unfolding taken released total
frees_balance k x i rs = elim (Option-cases (get_elem? rs i)) [
  | inl at ↦ rw at (rw (put_past i blank rs at) refl)
  | inr (r, at) ↦
      let (t, e) = releases_parts k x r in
      rw at (omega (arith, t, e, held-put k x i blank r rs at, held_blank k x))
]

takes_balance :
    (k : Part) (x j i stream pc : ℕ) (p : Page)
    → get_elem? p.waits j ≡ some (at_media i)
    → IsWaiting p i
    → taken k x (stream_taken stream ∷ pc_made pc ∷ []) + held k x p.peers
      ≡ released k x (stream_taken stream ∷ pc_made pc ∷ [])
        + held k x (put i (record { pc = some pc; local_stream = some stream }) p.peers)
unfolding taken released total asking
takes_balance k x j i stream pc p at (inl z) =
    absurd (ground (arith, asking-remove_at i j (at_media i) p.waits at))
takes_balance k x j i stream pc p at (inr (o, b)) =
    both k (held-put k x i (record { pc = some pc; local_stream = some stream }) blank p.peers b)
  where
    both :
        (k : Part)
        → held k x (put i (record { pc = some pc; local_stream = some stream }) p.peers)
            + one_if x (part_of k blank)
          ≡ held k x p.peers
            + one_if x (part_of k (record { pc = some pc; local_stream = some stream }))
        → taken k x (stream_taken stream ∷ pc_made pc ∷ []) + held k x p.peers
          ≡ released k x (stream_taken stream ∷ pc_made pc ∷ [])
            + held k x (put i (record { pc = some pc; local_stream = some stream }) p.peers)
    both microphone e = omega (arith, e)
    both connection e = omega (arith, e)

Move-IsBalanced :
    (k : Part) (x : ℕ) {p p' : Page} {es : List Effect}
    → Move p p' es
    → ((i : ℕ) → IsWaiting p i)
    → IsBalanced k x p p' es
unfolding taken released total held
Move-IsBalanced k x (shows s) w = refl
Move-IsBalanced microphone x plays w = refl
Move-IsBalanced connection x plays w = refl
Move-IsBalanced microphone x (asks socket id method params purpose at fresh) w = refl
Move-IsBalanced connection x (asks socket id method params purpose at fresh) w = refl
Move-IsBalanced microphone x (answers id purpose s at) w = refl
Move-IsBalanced connection x (answers id purpose s at) w = refl
Move-IsBalanced k x (counts n) w = refl
Move-IsBalanced k x {p} (dials s at) w =
    omega (arith, held-append k x p.peers (blank ∷ []), held_blank k x)
Move-IsBalanced k x {p} (takes j i stream pc at) w = takes_balance k x j i stream pc p at (w i)
Move-IsBalanced k x (quits j) w = refl
Move-IsBalanced k x (joins v later) w = refl
Move-IsBalanced k x (names i v at) w = refl
Move-IsBalanced k x {p} (frees i at) w = frees_balance k x i p.peers
Move-IsBalanced k x (rests at) w = refl

balance-append :
    (k : Part) (x : ℕ) (p p' p'' : Page) (es fs : List Effect)
    → IsBalanced k x p p' es
    → IsBalanced k x p' p'' fs
    → IsBalanced k x p p'' (es ++ fs)
unfolding taken released
balance-append k x p p' p'' es fs a b =
    omega (arith, a, b, total-append (begins_of k x) es fs, total-append (ends_of k x) es fs)

Moves-IsBalanced :
    (k : Part) (x : ℕ) {p p' : Page} {es : List Effect}
    → Moves p p' es
    → ((i : ℕ) → IsWaiting p i)
    → IsBalanced k x p p' es
unfolding taken released total
Moves-IsBalanced k x still w = refl
Moves-IsBalanced k x {p} (then_move {p'} {p''} {es} {fs} ms m) w =
    balance-append k x p p' p'' es fs (Moves-IsBalanced k x ms w)
      (Move-IsBalanced k x m (Moves-IsWaiting ms w))

Step-IsBalanced :
    (k : Part) (x : ℕ) {p p' : Page} {e : Event} {es : List Effect}
    → Step p e p' es
    → ((i : ℕ) → IsWaiting p i)
    → IsBalanced k x p p' es
unfolding taken released total
Step-IsBalanced k x (moves h ms) w = Moves-IsBalanced k x ms w
Step-IsBalanced k x loses w = refl
Step-IsBalanced microphone x (reconnects id n at) w = refl
Step-IsBalanced connection x (reconnects id n at) w = refl
Step-IsBalanced k x (unset id at) w = refl

-- With any script.
pub Script-releases :
    (script : Script) (p : Page) (es : List Effect) (n : ℕ)
    → Run script p es n
    → (k : Part) (x : ℕ) → taken k x es ≡ released k x es + held k x p.peers
unfolding new taken released total held
Script-releases script _ _ _ (begin m id) microphone x =
    let (s, at) = script.first m id in
    subst (λ a. taken microphone x a.1 ≡ released microphone x a.1 + held microphone x a.0.peers)
      (sym at) refl
Script-releases script _ _ _ (begin m id) connection x =
    let (s, at) = script.first m id in
    subst (λ a. taken connection x a.1 ≡ released connection x a.1 + held connection x a.0.peers)
      (sym at) refl
Script-releases script _ _ _ (then_event {p} {es} {n} r m e h due fresh) k x =
    let step = script.step m e p h fresh in
    omega (
      arith,
      Script-releases script p es n r k x,
      Step-IsBalanced k x step (Run-IsWaiting script p es n r),
      total-append (begins_of k x) es (script.happen m e p).1,
      total-append (ends_of k x) es (script.happen m e p).1,
    )
