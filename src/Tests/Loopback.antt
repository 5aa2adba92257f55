-- ===== src/Tests/Loopback.antt =====
-- A run of a loopback of plugin/node/peer-manager.ts: it records two packets, is switched, writes the
-- first one, and is closed.
use openclaw_rtc_plugin.Common.{ℕ, ◌≡◌, refl, true, some, List, [], concat, replicate, ◌∷◌, ◌++◌}
use openclaw_rtc_plugin.Peers.Loopback.{
  Packet, Loopback, start, receive, play_next, loop_once, fire, switch, close, set_at, received,
  fired, switched, happen,
}
use openclaw_rtc_plugin.Peers.Rounds.{sound, rounds}
use openclaw_rtc_plugin.Peers.Playing.{Run, begin, then_event, Run-rounds}
use openclaw_rtc_plugin.Peers.Replay.{loop_back, loop_back-rounds}
use openclaw_rtc_plugin.Peers.Silence.{Later, now, then_later, close-silences}

abbrev heard : Loopback
heard =
    (happen (received (record { payload_type = 96; body = 2 }))
      (happen (received (record { payload_type = 96; body = 1 })) (start (some 111))).0).0

abbrev stopped : Loopback
stopped = (happen (fired true) heard).0

abbrev playing : Loopback
playing = (happen (switched true true) stopped).0

abbrev log : List Packet
log =
    ((([] ++ []) ++ []) ++ (happen (fired true) heard).1) ++ (happen (switched true true) stopped).1

to_playing : Run (some 111) playing log
unfolding happen
to_playing =
    then_event
      (then_event
        (then_event (then_event begin (received (record { payload_type = 96; body = 1 })))
          (received (record { payload_type = 96; body = 2 })))
        (fired true))
      (switched true true)

first_written : log ≡ record { payload_type = 111; body = 1 } ∷ []
unfolding happen start receive fire switch loop_once play_next set_at
first_written = refl

Run-rounds_example :
    ((n : ℕ) × (i : ℕ) × (log ≡ rounds n i (sound playing))) × (playing.recording ≡ true → log ≡ [])
Run-rounds_example = Run-rounds (some 111) playing log to_playing

abbrev after_close : Loopback
after_close = (happen (fired true) (close playing)).0

abbrev late : List Packet
late = [] ++ (happen (fired true) (close playing)).1

to_late : Later (close playing) after_close late
to_late = then_later now (fired true)

close-silences_example : late ≡ []
close-silences_example = close-silences playing after_close late to_late

abbrev said : List Packet
said = record { payload_type = 96; body = 1 } ∷ record { payload_type = 96; body = 2 } ∷ []

loop_back-rounds_example :
    (loop_back (some 111) said 5).1
    ≡ concat (
        replicate 2
          (record { payload_type = 111; body = 1 } ∷ record { payload_type = 111; body = 2 } ∷ []))
loop_back-rounds_example =
    loop_back-rounds (some 111) (record { payload_type = 96; body = 1 })
      (record { payload_type = 96; body = 2 } ∷ []) 1
