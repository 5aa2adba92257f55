-- ===== src/Tests/Node.antt =====
-- Runs of plugin/node/index.ts: a command line, and a call that is hung up while it is accepted.
use openclaw_rtc_plugin.Common.{
  ℕ, ◌+◌, String, ◌≡◌, refl, Option, none, some, List, [], ◌∷◌, ◌++◌, ok, ◌==◌,
}
use openclaw_rtc_plugin.Common.Maps.{lookup}
use openclaw_rtc_plugin.Json.{Value, get, str, obj, arr, nil, end, field}
use openclaw_rtc_plugin.Peers.{peer_stored}
use openclaw_rtc_plugin.Peers
use openclaw_rtc_plugin.Peers.Accept.{at_local, answered, loaded, fine}
use openclaw_rtc_plugin.Node.Args.{Runtime, defaults, or_else, or_token, parse_args}
use openclaw_rtc_plugin.Node.Print.{
  Flag, gateway, loopback, no_loopback, word, print, set_all, parse_args-print,
}
use openclaw_rtc_plugin.Node.Commands.{
  RtcNode, at_peers, replied, Acted, new, commanded, went_on, happen,
}
use openclaw_rtc_plugin.Node.Replies.{replies, held, Run, begin, then_event, Run-answers}
use openclaw_rtc_plugin.Node.Late.{hangup_before_stored}

abbrev runtime : Runtime
runtime = record {
  Number = ℕ;
  number = λ s. 7;
  is_falsy = λ n. n == 0;
  five = 5;
  zero_seconds = 0;
  pid = 42;
  env = λ name. none;
}

abbrev line : List Flag
line = gateway "ws://a" ∷ word "x" ∷ no_loopback ∷ gateway "ws://b" ∷ loopback "7" ∷ []

parse_args-print_example :
    (let a = set_all runtime line (defaults runtime) in
      parse_args runtime (print line) ≡ record a {
        gateway = or_else runtime (runtime.env "OPENCLAW_GATEWAY_URL") a.gateway;
        token = or_token runtime (runtime.env "OPENCLAW_GATEWAY_TOKEN") a.token;
      })
parse_args-print_example = parse_args-print runtime line (refl, (refl, (tt, (refl, (refl, tt)))))

last_gateway : (parse_args runtime (print line)).gateway ≡ "ws://b"
unfolding parse_args print
last_gateway = refl

abbrev to_text : Value → String
to_text v = "text"

abbrev call : Option Value
call = some (obj (field "callId" (str "c1") (field "offerSdp" (str "v=0") end)))

abbrev asked : Acted
asked = happen to_text "TypeError" (commanded (str "i1") (str "rtc.call.accept") call) new

abbrev made : Acted
made = happen to_text "TypeError" (went_on 0 (loaded 3)) asked.0

abbrev every : Value → ℕ
every v = 1

to_made : Run to_text "TypeError" every made.0 (([] ++ asked.1) ++ made.1) (0 + (1 + 0))
to_made =
    then_event (then_event begin (commanded (str "i1") (str "rtc.call.accept") call))
      (went_on 0 (loaded 3))

Run-answers_example :
    0 + (1 + 0) ≡ replies every (([] ++ asked.1) ++ made.1) + held every made.0.waiting
Run-answers_example =
    Run-answers to_text "TypeError" every made.0 (([] ++ asked.1) ++ made.1) (0 + (1 + 0)) to_made

abbrev accepting : RtcNode
accepting = record new { waiting = (str "i1", at_local "c1" 3) ∷ [] }

hangup_before_stored_example :
    (let (hung_up, es) =
        happen to_text "TypeError" (commanded (str "i2") (str "rtc.call.hangup") call) accepting in
      let (late, fs) = happen to_text "TypeError" (went_on 0 (answered "v=1" nil)) hung_up in
      (es ≡ replied (str "i2") (ok fine) ∷ [])
      × (fs
          ≡ at_peers (peer_stored 3)
            ∷ replied
                (str "i1")
                (ok (obj (field "answerSdp" (str "v=1") (field "candidates" (arr nil) end))))
            ∷ [])
      × (lookup "c1" late.manager.peers ≡ some 3))
unfolding new Peers.new lookup get
hangup_before_stored_example =
    hangup_before_stored to_text "TypeError" accepting (str "i1") (str "i2") "c1" "v=1" 3 0 nil call
      refl refl refl refl
