-- ===== src/Peers/Silence.antt =====
-- A loopback of plugin/node/peer-manager.ts after `closePeer`.
use openclaw_rtc_plugin.Common.{
  ◌≡◌, refl, ap, ◌∙◌, Bool, true, false, List, [], ◌++◌, if◌then◌else◌, arith,
}
use openclaw_rtc_plugin.Peers.Loopback.{
  Packet, Phase, at_record, at_switch, at_play, at_loop, ended, Loopback, Acted, receive, loop_once,
  fires, fire, switches, switch, cut, close, Event, received, fired, switched, closed, happen,
}

-- The loopback is removed, and no timer is set.
abbrev IsQuiet : Phase → Type 0
IsQuiet at_switch = Unit
IsQuiet ended = Unit
IsQuiet _ = ⊥

record IsCut (l : Loopback) : Type 0 where
  removed : l.kept ≡ false
  quiet : IsQuiet l.phase

-- That stays, and nothing is written.
abbrev StaysCut : Acted → Type 0
StaysCut (l, written) = IsCut l × (written ≡ [])

ended-StaysCut : (l : Loopback) → l.kept ≡ false → StaysCut (record l { phase = ended }, [])
ended-StaysCut l h = (record { removed = h; quiet = tt }, refl)

looped-StaysCut :
    (kept : Bool) (x : Acted) (l : Loopback)
    → kept ≡ false
    → l.kept ≡ false
    → StaysCut (if kept then x else (record l { phase = ended }, []))
looped-StaysCut true x l h k = absurd (ground (arith, h))
looped-StaysCut false x l h k = ended-StaysCut l k

loop_once-StaysCut : (fine : Bool) (l : Loopback) → l.kept ≡ false → StaysCut (loop_once fine l)
unfolding loop_once
loop_once-StaysCut fine l h = looped-StaysCut l.kept _ l h h

fires-StaysCut :
    (fine : Bool) (phase : Phase) (l : Loopback)
    → IsQuiet phase
    → IsCut l
    → StaysCut (fires fine phase l)
fires-StaysCut fine at_switch l q c = (c, refl)
fires-StaysCut fine ended l q c = (c, refl)
fires-StaysCut fine at_record l q c = elim q [ ]
fires-StaysCut fine (at_play i) l q c = elim q [ ]
fires-StaysCut fine at_loop l q c = elim q [ ]

switched-StaysCut :
    (well fine : Bool) (l : Loopback)
    → IsCut l
    → StaysCut (if well then loop_once fine l else (record l { phase = ended }, []))
switched-StaysCut true fine l c = loop_once-StaysCut fine l c.removed
switched-StaysCut false fine l c = ended-StaysCut l c.removed

switches-StaysCut :
    (well fine : Bool) (phase : Phase) (l : Loopback)
    → IsQuiet phase
    → IsCut l
    → StaysCut (switches well fine phase l)
switches-StaysCut well fine at_switch l q c = switched-StaysCut well fine l c
switches-StaysCut well fine ended l q c = (c, refl)
switches-StaysCut well fine at_record l q c = elim q [ ]
switches-StaysCut well fine (at_play i) l q c = elim q [ ]
switches-StaysCut well fine at_loop l q c = elim q [ ]

received-StaysCut :
    (b : Bool) (buffer : List Packet) (l : Loopback)
    → IsCut l
    → StaysCut (if b then record l { buffer = buffer } else l, [])
received-StaysCut true buffer l c = (record { removed = c.removed; quiet = c.quiet }, refl)
received-StaysCut false buffer l c = (c, refl)

cut-IsQuiet : (phase : Phase) → IsQuiet (cut phase)
cut-IsQuiet at_record = tt
cut-IsQuiet at_switch = tt
cut-IsQuiet (at_play i) = tt
cut-IsQuiet at_loop = tt
cut-IsQuiet ended = tt

close-IsCut : (l : Loopback) → IsCut (close l)
unfolding close
close-IsCut l = record { removed = refl; quiet = cut-IsQuiet l.phase }

happen-StaysCut : (e : Event) (l : Loopback) → IsCut l → StaysCut (happen e l)
unfolding happen receive fire switch
happen-StaysCut (received packet) l c = received-StaysCut l.recording _ l c
happen-StaysCut (fired fine) l c = fires-StaysCut fine l.phase l c.quiet c
happen-StaysCut (switched well fine) l c = switches-StaysCut well fine l.phase l c.quiet c
happen-StaysCut closed l c = (close-IsCut l, refl)

-- What events lead to from a loopback, and what is written on the way.
pub data Later (l : Loopback) : Loopback → List Packet → Type 0 where
  now : Later l l []
  then_later :
      {q : Loopback} {written : List Packet}
      → Later l q written
      → (e : Event) → Later l (happen e q).0 (written ++ (happen e q).1)

Later-StaysCut :
    {l q : Loopback} {written : List Packet} → Later l q written → IsCut l → StaysCut (q, written)
Later-StaysCut now c = (c, refl)
Later-StaysCut (then_later {q} {written} r e) c =
    let (d, h) = Later-StaysCut r c in
    let (d', h') = happen-StaysCut e q d in (d', ap (λ w. w ++ (happen e q).1) h ∙ h')

-- Once a loopback is closed, at any moment, also while `replaceTrack` is under way, it writes nothing
-- more, whatever timers and promises are still to come.
pub close-silences :
    (l q : Loopback) (written : List Packet) → Later (close l) q written → written ≡ []
close-silences l q written r = (Later-StaysCut r (close-IsCut l)).1
