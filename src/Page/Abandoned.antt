-- ===== src/Page/Abandoned.antt =====
-- What plugin/ui/app.ts does with a `startCall` that goes on after its call has ended.
use openclaw_rtc_plugin.Common.{
  ◌++◌, ℕ, ==_iff, ◌≡◌, inl, inr, ap, sym, subst, ◌∙◌, some, List, [], ◌∷◌, get_elem?, remove_at,
  length, arith,
}
use openclaw_rtc_plugin.Page.{Effect, RtcPeer, at_media, at_offer, Page}
use openclaw_rtc_plugin.Page.Peer.{put, blank}
use openclaw_rtc_plugin.Page.Call.{Moment, streamed}
use openclaw_rtc_plugin.Page.Loop.{Event, wait_over}
use openclaw_rtc_plugin.Page.Moves.{
  Move, shows, plays, asks, answers, counts, dials, takes, quits, joins, names, frees, rests, Moves,
  still, then_move,
}
use openclaw_rtc_plugin.Page.Script.{Step, moves, loses, reconnects, unset, Script}
use openclaw_rtc_plugin.Page.Run.{Run, Later, Later-keeps}
use openclaw_rtc_plugin.Page.Waits.{
  asking, asking-append, asking-remove_at, asking-remove_at_le, later_asks, get-put_same,
  get-put_other, get-append, get-past, IsWaiting, Run-IsWaiting,
}

-- The page does not use the peer `i` any more, and nothing will be written to it: it is `r`.
record IsAbandoned (i : ℕ) (r : RtcPeer) (p : Page) : Type 0 where
  unused : p.rtc_peer ≡ some i → ⊥
  unasked : asking i p.waits ≡ 0
  kept : get_elem? p.peers i ≡ some r

inside : (i : ℕ) (r : RtcPeer) (rs : List RtcPeer) → get_elem? rs i ≡ some r → length rs ≡ i → ⊥
inside i r rs at h = absurd (ground (arith, get-past rs, ap (get_elem? rs) h))

Move-IsAbandoned :
    (i : ℕ) (r : RtcPeer) {p p' : Page} {es : List Effect}
    → Move p p' es
    → IsAbandoned i r p
    → IsAbandoned i r p'
unfolding asking
Move-IsAbandoned i r (shows s) a = record { unused = a.unused; unasked = a.unasked; kept = a.kept }
Move-IsAbandoned i r plays a = a
Move-IsAbandoned i r (asks socket id method params purpose at fresh) a = record {
  unused = a.unused;
  unasked = a.unasked;
  kept = a.kept;
}
Move-IsAbandoned i r (answers id purpose s at) a = record {
  unused = a.unused;
  unasked = a.unasked;
  kept = a.kept;
}
Move-IsAbandoned i r (counts n) a = record { unused = a.unused; unasked = a.unasked; kept = a.kept }
Move-IsAbandoned i r {p} (dials s at) a = record {
  unused = λ e. inside i r p.peers a.kept (ground (arith, e));
  unasked = ground (
    arith,
    a.unasked,
    asking-append i p.waits (at_media (length p.peers) ∷ []),
    ==_iff (length p.peers) i,
    inside i r p.peers a.kept,
  );
  kept = get-append i p.peers (blank ∷ []) r a.kept;
}
Move-IsAbandoned i r {p} (takes j k stream pc at) a = record {
  unused = a.unused;
  unasked = ground (
    arith,
    a.unasked,
    asking-append i (remove_at j p.waits) (at_offer k ∷ []),
    asking-remove_at_le i j p.waits,
  );
  kept =
      get-put_other k i _ p.peers (λ e.
        absurd
          (ground (arith, a.unasked, asking-remove_at i j (at_media k) p.waits at, ==_iff k i)))
      ∙ a.kept;
}
Move-IsAbandoned i r {p} (quits j) a = record {
  unused = a.unused;
  unasked = omega (arith, a.unasked, asking-remove_at_le i j p.waits);
  kept = a.kept;
}
Move-IsAbandoned i r {p} (joins w later) a = record {
  unused = a.unused;
  unasked = omega (arith, a.unasked, asking-append i p.waits (w ∷ []), later_asks i w later);
  kept = a.kept;
}
Move-IsAbandoned i r (names k v at) a = record {
  unused = a.unused;
  unasked = a.unasked;
  kept = a.kept;
}
Move-IsAbandoned i r {p} (frees k at) a = record {
  unused = λ e. absurd (ground (arith, e));
  unasked = a.unasked;
  kept = get-put_other k i blank p.peers (λ e. a.unused (at ∙ ap some e)) ∙ a.kept;
}
Move-IsAbandoned i r (rests at) a = record { unused = a.unused; unasked = a.unasked; kept = a.kept }

Moves-IsAbandoned :
    (i : ℕ) (r : RtcPeer) {p p' : Page} {es : List Effect}
    → Moves p p' es
    → IsAbandoned i r p
    → IsAbandoned i r p'
Moves-IsAbandoned i r still a = a
Moves-IsAbandoned i r (then_move ms m) a = Move-IsAbandoned i r m (Moves-IsAbandoned i r ms a)

Step-IsAbandoned :
    (i : ℕ) (r : RtcPeer) (p p' : Page) (e : Event) (es : List Effect)
    → Step p e p' es
    → IsAbandoned i r p
    → IsAbandoned i r p'
Step-IsAbandoned i r p _ e es (moves h ms) a = Moves-IsAbandoned i r ms a
Step-IsAbandoned i r p _ _ _ loses a = record {
  unused = a.unused;
  unasked = a.unasked;
  kept = a.kept;
}
Step-IsAbandoned i r p _ _ _ (reconnects id n at) a = record {
  unused = a.unused;
  unasked = a.unasked;
  kept = a.kept;
}
Step-IsAbandoned i r p _ _ _ (unset id at) a = a

abbrev holding : ℕ → ℕ → RtcPeer
holding stream pc = record { pc = some pc; local_stream = some stream }

granted-IsAbandoned :
    (p : Page) (j i stream pc : ℕ)
    → get_elem? p.waits j ≡ some (at_media i)
    → (p.rtc_peer ≡ some i → ⊥)
    → IsWaiting p i
    → IsAbandoned i (holding stream pc) (record p {
      waits = remove_at j p.waits ++ at_offer i ∷ [];
      peers = put i (holding stream pc) p.peers;
    })
unfolding asking
granted-IsAbandoned p j i stream pc at gone (inl z) =
    absurd (ground (arith, asking-remove_at i j (at_media i) p.waits at))
granted-IsAbandoned p j i stream pc at gone (inr (o, b)) = record {
  unused = gone;
  unasked = ground (
    arith,
    o,
    asking-append i (remove_at j p.waits) (at_offer i ∷ []),
    asking-remove_at i j (at_media i) p.waits at,
  );
  kept = get-put_same i (holding stream pc) blank p.peers b;
}

-- With any script.
pub dropped_peer_keeps :
    (script : Script) (p : Page) (es : List Effect) (n : ℕ)
    → Run script p es n
    → (j i : ℕ) → get_elem? p.waits j ≡ some (at_media i)
    → (p.rtc_peer ≡ some i → ⊥)
    → (m : Moment) (stream pc : ℕ) (q : Page) (fs : List Effect)
    → Later script (script.happen m (wait_over j (streamed stream pc)) p).0 q fs
    → get_elem? q.peers i ≡ some (record { pc = some pc; local_stream = some stream })
dropped_peer_keeps script p es n r j i at gone m stream pc q fs later =
    (Later-keeps (IsAbandoned i (holding stream pc)) (Step-IsAbandoned i (holding stream pc)) script
      later
      (subst (λ a. IsAbandoned i (holding stream pc) a.0) (sym (script.grant m p j i stream pc at))
        (granted-IsAbandoned p j i stream pc at gone (Run-IsWaiting script p es n r i)))).kept
