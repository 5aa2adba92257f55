-- ===== src/Orchestrator/Lifecycle.antt =====
-- The states that a call goes through (plugin/src/types.ts), under any methods of the orchestrator.
use openclaw_rtc_plugin.Common.{
  String, true, false, ◌≡◌, refl, subst, sym, inl, inr, some, List, [], ◌∷◌, ◌++◌, arith, eq_iff,
  str_eq, Bool-cases, append_assoc, append-nil,
}
use openclaw_rtc_plugin.Common.Maps.{lookup, lookup-insert}
use openclaw_rtc_plugin.Call.{
  RtcCallState, initiating, connecting, active, is_terminal, TranscriptEntry, RtcCallRecord,
}
use openclaw_rtc_plugin.Orchestrator.{CallOrchestrator, local, remote, admit, write}
use openclaw_rtc_plugin.Orchestrator.Run.{Reach, here, more}
use openclaw_rtc_plugin.Orchestrator.Effect.{
  Change, answered, trickled, activated, finished, noted, Effect, idle, changed, admitted,
  step-Effect,
}

-- The transition diagram of the comments in `RtcCallStateSchema`.
infix 40 ◌⟶◌ ◌⟶*◌
pub data ◌⟶◌ : RtcCallState → RtcCallState → Type 0 where
  accept : initiating ⟶ connecting
  media_early : initiating ⟶ active
  media : connecting ⟶ active
  finish : {s t : RtcCallState} → is_terminal s ≡ false → is_terminal t ≡ true → s ⟶ t

pub data ◌⟶*◌ (s : RtcCallState) : RtcCallState → Type 0 where
  stay : s ⟶* s
  go : {t u : RtcCallState} → s ⟶* t → t ⟶ u → s ⟶* u

path_trans : {s t u : RtcCallState} → s ⟶* t → t ⟶* u → s ⟶* u
path_trans p stay = p
path_trans p (go q e) = go (path_trans p q) e

-- An ended call keeps its record, but for lines added to the transcript.
abbrev pub Frozen : RtcCallRecord → RtcCallRecord → Type 0
Frozen r r' =
    (added : List TranscriptEntry) × (r' ≡ record r { transcript = r.transcript ++ added })

-- The record under a key, at a later time.
pub record Later (o : CallOrchestrator) (k : String) (r : RtcCallRecord) : Type 0 where
  pub call : RtcCallRecord
  pub present : lookup k o.calls ≡ some call
  pub path : r.state ⟶* call.state
  pub frozen : is_terminal r.state ≡ true → Frozen r call

one_edge : {a b s t : RtcCallState} → a ≡ s → b ≡ t → s ⟶ t → a ⟶* b
one_edge from to e = rw (from, to) (go stay e)

no_edge : {a b : RtcCallState} → b ≡ a → a ⟶* b
no_edge same = rw same stay

Change-path : {r r' : RtcCallRecord} → Change r r' → r.state ⟶* r'.state
Change-path (answered sdp was e) = one_edge was (ground arith) accept
Change-path (trickled local c live e) = no_edge (ground arith)
Change-path (trickled remote c live e) = no_edge (ground arith)
Change-path (activated now (inl was) e) = one_edge was (ground arith) media
Change-path (activated now (inr was) e) = one_edge was (ground arith) media_early
Change-path (finished t reason now live over e) = one_edge refl (ground arith) (finish live over)
Change-path (noted entry e) = no_edge (ground arith)

Change-Frozen : {r r' : RtcCallRecord} → Change r r' → is_terminal r.state ≡ true → Frozen r r'
Change-Frozen (answered sdp was e) over = absurd (ground arith)
Change-Frozen (trickled d c live e) over = absurd (ground arith)
Change-Frozen (activated now was e) over = absurd (ground arith)
Change-Frozen (finished t reason now live _ e) over = absurd (ground arith)
Change-Frozen (noted entry e) over = (entry ∷ [], e)

Frozen-refl : (r : RtcCallRecord) → Frozen r r
Frozen-refl r = ([], rw append-nil)

Later-refl :
    (o : CallOrchestrator) (k : String) (r : RtcCallRecord)
    → lookup k o.calls ≡ some r
    → Later o k r
Later-refl o k r found = record {
  call = r;
  present = found;
  path = stay;
  frozen = λ _. Frozen-refl r;
}

write-Later :
    (o : CallOrchestrator) (id k : String) (r r' c : RtcCallRecord)
    → lookup id o.calls ≡ some r
    → Change r r'
    → lookup k o.calls ≡ some c
    → Later (write o id r') k c
unfolding write
write-Later o id k r r' c found change at = elim (Bool-cases (str_eq id k)) [
  | inl same ↦
      let e : r ≡ c = ground (arith, eq_iff id k) in
      subst (Later _ k) e (record {
        call = r';
        present = rw lookup-insert (rw same);
        path = Change-path change;
        frozen = Change-Frozen change;
      })
  | inr other ↦ Later-refl _ k c (rw lookup-insert (rw other at))
]

Effect-Later :
    {o o' : CallOrchestrator} (k : String) (c : RtcCallRecord)
    → Effect o o'
    → lookup k o.calls ≡ some c
    → Later o' k c
unfolding admit
Effect-Later {o} {o'} k c (idle e) at = Later-refl o' k c (rw e at)
Effect-Later {o} k c (changed id r r' found change e) at =
    subst (λ x. Later x k c) (sym e) (write-Later o id k r r' c found change at)
Effect-Later {o} {o'} k c (admitted p id now fresh id_named free clear e) at =
    Later-refl o' k c (rw e (rw lookup-insert (ground (arith, eq_iff id k))))

Frozen-trans : (r s t : RtcCallRecord) → Frozen r s → Frozen s t → Frozen r t
Frozen-trans r s t (xs, p) (ys, q) = (xs ++ ys, ground (arith, append_assoc r.transcript xs ys))

Later-trans :
    {o o' : CallOrchestrator} {k : String} {r : RtcCallRecord} (l : Later o k r)
    → Later o' k l.call
    → Later o' k r
Later-trans {r} l m = record {
  call = m.call;
  present = m.present;
  path = path_trans l.path m.path;
  frozen = λ over.
      let (xs, same) = l.frozen over in
      Frozen-trans r l.call m.call (xs, same)
        (m.frozen (subst (λ (c : RtcCallRecord). is_terminal c.state ≡ true) (sym same) over));
}

-- Whatever methods run, a call stays under its id, its state moves along the diagram only, and once
-- it has ended nothing of its record changes but for lines added behind its transcript.
pub Reach-Later :
    {o o' : CallOrchestrator}
    → Reach o o'
    → (k : String) (r : RtcCallRecord) → lookup k o.calls ≡ some r
    → Later o' k r
Reach-Later {o} here k r at = Later-refl o k r at
Reach-Later (more {o'} steps op fresh) k r at =
    let l = Reach-Later steps k r at in
    Later-trans l (Effect-Later k l.call (step-Effect o' op fresh) l.present)
