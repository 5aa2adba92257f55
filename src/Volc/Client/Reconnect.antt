-- ===== src/Volc/Client/Reconnect.antt =====
-- `connect` of plugin/node/volc-client.ts on a client that was connected before.
use openclaw_rtc_plugin.Common.{ℕ, ◌≡◌, refl, true, [], ◌∷◌, ok, err}
use openclaw_rtc_plugin.Audio.{Buffer}
use openclaw_rtc_plugin.Volc.{Platform}
use openclaw_rtc_plugin.Volc.Frame.{audio_frame}
use openclaw_rtc_plugin.Socket.{established}
use openclaw_rtc_plugin.Volc.Client.{
  VolcSessionOptions, VolcRealtimeClient, audio_message, frame_of, not_connected, send_message,
  connect, on_close, start_session, send_audio, disconnect,
}

module _ (platform : Platform) where
  -- When the socket of an earlier connection closes after the client has connected again, the client
  -- drops the new socket: no session can be started on it, though it is open.
  stale_close :
      (old later : ℕ) (options : VolcSessionOptions) (c : VolcRealtimeClient)
      → start_session platform
          (λ _. established)
          options
          (on_close old (connect later (disconnect (connect old c))))
        ≡ err not_connected
  unfolding start_session on_close
  stale_close old later options c = refl

  -- A client that connects again in a session takes its session for active on the new socket: audio
  -- whose frame can be built goes there though no session was started there.
  connect_in_session :
      (later : ℕ) (pcm frame : Buffer) (c : VolcRealtimeClient)
      → c.session_active ≡ true
      → audio_frame pcm ≡ ok frame
      → send_audio platform pcm (connect later c)
        ≡ ok (
          connect later c,
          (record { socket = later; message = audio_message pcm; frame = frame }) ∷ [],
        )
  unfolding send_audio connect send_message frame_of
  connect_in_session later pcm frame c active made = rw (active, made) refl
