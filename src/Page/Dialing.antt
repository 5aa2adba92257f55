-- ===== src/Page/Dialing.antt =====
-- Sequences of events on the page of plugin/ui/app.ts, and that of a call that goes well.
use openclaw_rtc_plugin.Common.{
  ℕ, String, true, ◌≡◌, refl, ap, ◌∙◌, some, List, [], ◌∷◌, ◌++◌ as append, get_elem?, remove_at,
  length, replicate, if◌then◌else◌,
}
use openclaw_rtc_plugin.Json.{Value, bool, str, obj, arr, Items, end, field}
use openclaw_rtc_plugin.Page.{
  Browser, Effect, sent, settles, stream_taken, pc_made, Wait, Page, Acted,
}
use openclaw_rtc_plugin.Page.Call.{
  Moment, Outcome, streamed, offered, done, and_then, resume, start_params,
}
use openclaw_rtc_plugin.Page.Frames.{answer_of}
use openclaw_rtc_plugin.Page.Loop.{
  Event, call_clicked, wait_over, message_received, fits, wait_at, happen,
}

-- The last wait.
get-last : (ws : List Wait) (w : Wait) → get_elem? (append ws (w ∷ [])) (length ws) ≡ some w
get-last [] w = refl
get-last (v ∷ ws) w = get-last ws w

remove-last : (ws : List Wait) (w : Wait) → remove_at (length ws) (append ws (w ∷ [])) ≡ ws
remove-last [] w = refl
remove-last (v ∷ ws) w = ap (◌∷◌ v) (remove-last ws w)

module _ (browser : Browser) (m : Moment) where
  -- One event after another.
  unfoldable pub happen_all : List Event → Page → Acted
  happen_all [] p = (p, [])
  happen_all (e ∷ es) p = and_then (happen browser m e p) (happen_all es)

  pub wait_last :
      (p : Page) (ws : List Wait) (w : Wait) (o : Outcome)
      → fits w o ≡ true
      → happen browser m (wait_over (length ws) o) (record p { waits = append ws (w ∷ []) })
        ≡ resume browser m w o (record p { waits = ws })
  unfolding happen
  wait_last p ws w o ok_ =
      ap (λ v. wait_at browser m (length ws) o v (record p { waits = append ws (w ∷ []) }))
        (get-last ws w)
      ∙ ap
          (λ b.
            if b
            then resume browser m w o
                (record p { waits = remove_at (length ws) (append ws (w ∷ [])) })
            else (record p { waits = append ws (w ∷ []) }, []))
          ok_
      ∙ ap (λ vs. resume browser m w o (record p { waits = vs })) (remove-last ws w)

  pub then_step :
      (e : Event) (rest : List Event) (p q : Page) (es : List Effect) (a : Acted)
      → happen browser m e p ≡ (q, es)
      → happen_all rest q ≡ a
      → happen_all (e ∷ rest) p ≡ (a.0, append es a.1)
  unfolding happen_all
  then_step e rest p q es a h k =
      ap (λ b. and_then b (happen_all rest)) h ∙ ap (λ b. (b.0, append es b.1)) k

-- The answer of the gateway to `rtc.call.start`.
abbrev pub call_started : String → Value → Value → Items → Value
call_started id call_id answer_sdp candidates = obj (
    field "type" (str "res") (
      field "id" (str id) (
        field "ok" (bool true) (
          field "payload"
            (obj (
              field "callId" call_id
                (field "answerSdp" answer_sdp (field "candidates" (arr candidates) end))))
            end))))

-- What happens in a call that goes well, with as many candidates; each wait is the last one.
abbrev pub call_events : ℕ → ℕ → ℕ → String → String → ℕ → List Event
call_events last stream pc sdp text candidates =
    call_clicked
    ∷ wait_over last (streamed stream pc)
    ∷ wait_over last (offered sdp)
    ∷ wait_over last done
    ∷ message_received text
    ∷ wait_over last done
    ∷ replicate candidates (wait_over last done)

abbrev pub call_effects : Browser → Moment → ℕ → ℕ → ℕ → String → ℕ → Value → List Effect
call_effects browser m stream pc socket sdp seq frame =
    stream_taken stream
    ∷ pc_made pc
    ∷ sent socket m.uuid "rtc.call.start" (start_params sdp seq)
    ∷ settles m.uuid (answer_of browser frame)
    ∷ []
