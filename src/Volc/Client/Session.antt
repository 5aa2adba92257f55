-- ===== src/Volc/Client/Session.antt =====
-- What `VolcRealtimeClient` of plugin/node/volc-client.ts sends, over any calls of its methods and
-- any events of its sockets.
use openclaw_rtc_plugin.Common.{
  ℕ, ◌≡◌, refl, subst, sym, ◌≢◌, ◌⊎◌, inl, inr, String, Bool, true, false, ◌&&◌, Option, none, some,
  List, [], ◌∷◌, ◌++◌, arith, Result, ok, err, Bool-cases,
}
use openclaw_rtc_plugin.Audio.{Buffer}
use openclaw_rtc_plugin.Volc.{Platform}
use openclaw_rtc_plugin.Volc.Frame.{FrameError}
use openclaw_rtc_plugin.Socket.{ReadyState, is_open}
use openclaw_rtc_plugin.Volc.Client.{
  VolcClientConfig, VolcSessionOptions, VolcRealtimeClient, new, ClientMessage, start_message,
  audio_message, text_message, finish_message, Sent, Outcome, handed, send_message, connect,
  on_close, start_session, guarded, start_on, send_audio, send_tts_text, finish_session, disconnect,
}

-- A call of a method, or the end of a socket.
pub data Action : Type 0 where
  connects : ℕ → Action
  closes : ℕ → Action
  starts : (ℕ → ReadyState) → VolcSessionOptions → Action
  streams : Buffer → Action
  speaks : String → Action
  finishes : Action
  disconnects : Action

unfoldable pub act : Platform → Action → VolcRealtimeClient → Outcome
act platform (connects id) c = ok (connect id c, [])
act platform (closes id) c = ok (on_close id c, [])
act platform (starts ready options) c = start_session platform ready options c
act platform (streams pcm) c = send_audio platform pcm c
act platform (speaks text) c = send_tts_text platform text c
act platform finishes c = finish_session platform c
act platform disconnects c = ok (disconnect c, [])

-- A method that throws changes and sends nothing.
abbrev pub settled : VolcRealtimeClient → Outcome → VolcRealtimeClient × List Sent
settled c (ok r) = r
settled c (err e) = (c, [])

unfoldable pub run : Platform → List Action → VolcRealtimeClient → VolcRealtimeClient × List Sent
unfolding act
run platform [] c = (c, [])
run platform (a ∷ rest) c =
    let (c', sent) = settled c (act platform a c) in
    let (last, later) = run platform rest c' in (last, sent ++ later)

-- Whether a session is open behind a message.
abbrev pub session_next : Bool → ClientMessage → Bool
session_next b (start_message model speaker) = true
session_next b (audio_message pcm) = b
session_next b (text_message text) = b
session_next b finish_message = false

-- Whether a message may be sent: a start at any time, the others in a session.
abbrev pub allowed : Bool → ClientMessage → Bool
allowed b (start_message model speaker) = true
allowed b (audio_message pcm) = b
allowed b (text_message text) = b
allowed b finish_message = b

unfoldable pub session_after : Bool → List Sent → Bool
session_after b [] = b
session_after b (s ∷ ss) = session_after (session_next b s.message) ss

-- The protocol of a session, by the messages alone.
unfoldable pub obeys : Bool → List Sent → Bool
obeys b [] = true
obeys b (s ∷ ss) = allowed b s.message && obeys (session_next b s.message) ss

-- A client whose session is active has a socket and a session that is open by the messages.
abbrev pub IsTracked : Bool → VolcRealtimeClient → Type 0
IsTracked b c = (c.session_active ≡ false) ⊎ ((b ≡ true) × (c.ws ≢ none))

obeys-append :
    (b : Bool) (xs ys : List Sent)
    → obeys b (xs ++ ys) ≡ (obeys b xs && obeys (session_after b xs) ys)
unfolding obeys session_after
obeys-append b [] ys = refl
obeys-append b (x ∷ xs) ys = ground (arith, obeys-append (session_next b x.message) xs ys)

session_after-append :
    (b : Bool) (xs ys : List Sent)
    → session_after b (xs ++ ys) ≡ session_after (session_after b xs) ys
unfolding session_after
session_after-append b [] ys = refl
session_after-append b (x ∷ xs) ys = session_after-append (session_next b x.message) xs ys

-- A step keeps to the protocol.
abbrev Follows : Bool → VolcRealtimeClient × List Sent → Type 0
Follows b (c, sent) = (obeys b sent ≡ true) × IsTracked (session_after b sent) c

handed-Follows :
    (b : Bool) (c c' : VolcRealtimeClient) (id : ℕ) (m : ClientMessage)
    (r : Result FrameError Buffer)
    → IsTracked b c
    → allowed b m ≡ true
    → IsTracked (session_next b m) c'
    → Follows b (settled c (handed id m r c'))
unfolding obeys session_after
handed-Follows b c c' id m (ok frame) t may next = (ground arith, next)
handed-Follows b c c' id m (err e) t may next = (refl, t)

-- Behind the guard the session is active.
guarded-Follows :
    (b : Bool) (c : VolcRealtimeClient) (k : ℕ → Outcome) (w : Option ℕ) (active : Bool)
    → IsTracked b c
    → ((id : ℕ) → active ≡ true → Follows b (settled c (k id)))
    → Follows b (settled c (guarded w active c k))
unfolding obeys session_after
guarded-Follows b c k none active t h = (refl, t)
guarded-Follows b c k (some id) false t h = (refl, t)
guarded-Follows b c k (some id) true t h = h id refl

start_on-Follows :
    (platform : Platform) (ready : ℕ → ReadyState) (options : VolcSessionOptions) (b : Bool)
    (c : VolcRealtimeClient) (w : Option ℕ)
    → c.ws ≡ w
    → IsTracked b c
    → Follows b (settled c (start_on platform ready options c w))
unfolding obeys session_after
start_on-Follows platform ready options b c none at t = (refl, t)
start_on-Follows platform ready options b c (some id) at t =
    elim (Bool-cases (is_open (ready id))) [
      | inl good ↦ rw good (
          handed-Follows b c (record c { session_active = true }) id (start_message _ _) _ t refl
            (inr (refl, ground arith)))
      | inr bad ↦ rw bad (refl, t)
    ]

act-Follows :
    (platform : Platform) (a : Action) (b : Bool) (c : VolcRealtimeClient)
    → IsTracked b c
    → Follows b (settled c (act platform a c))
unfolding act obeys session_after connect on_close start_session send_audio send_tts_text
    finish_session disconnect send_message
act-Follows platform (connects id) b c t = (refl, ground arith)
act-Follows platform (closes id) b c t = (refl, inl refl)
act-Follows platform (starts ready options) b c t =
    start_on-Follows platform ready options b c c.ws refl t
act-Follows platform (streams pcm) b c t =
    guarded-Follows b c _ c.ws c.session_active t
      (λ id on. handed-Follows b c c id (audio_message pcm) _ t (ground arith) t)
act-Follows platform (speaks text) b c t =
    guarded-Follows b c _ c.ws c.session_active t
      (λ id on. handed-Follows b c c id (text_message text) _ t (ground arith) t)
act-Follows platform finishes b c t = guarded-Follows b c _ c.ws c.session_active t (λ id on.
    handed-Follows b c (record c { session_active = false }) id finish_message _ t (ground arith)
      (inl refl))
act-Follows platform disconnects b c t = (refl, inl refl)

run-Follows :
    (platform : Platform) (actions : List Action) (b : Bool) (c : VolcRealtimeClient)
    → IsTracked b c
    → Follows b (run platform actions c)
unfolding run obeys session_after
run-Follows platform [] b c t = (refl, t)
run-Follows platform (a ∷ rest) b c t =
    let (c', sent) = settled c (act platform a c) in
    let (fine, t') = act-Follows platform a b c t in
    let (fine', t'') = run-Follows platform rest (session_after b sent) c' t' in
    (
      ground (arith, obeys-append b sent (run platform rest c').1),
      subst (λ x. IsTracked x (run platform rest c').0)
          (sym (session_after-append b sent (run platform rest c').1)) t'',
    )

-- Whatever methods of a new client are called and whatever sockets close: audio, text and the end of
-- a session are sent only after a start with no end in between; and when the client takes its
-- session for active, the session is open by what was sent, and there is a socket.
pub run-obeys :
    (platform : Platform) (config : VolcClientConfig) (actions : List Action)
    → let (c, sent) = run platform actions (new config) in
      (obeys false sent ≡ true)
      × ((c.session_active ≡ false) ⊎ ((session_after false sent ≡ true) × (c.ws ≢ none)))
unfolding new
run-obeys platform config actions = run-Follows platform actions false (new config) (inl refl)
