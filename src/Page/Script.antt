-- ===== src/Page/Script.antt =====
-- What the two scripts of the page, plugin/ui/app.ts and plugin/ui/app.js, have in common: every event
-- is a step. The properties that rest on this alone hold for both.
use openclaw_rtc_plugin.Common.{ℕ, suc, ◌≡◌, none, some, List, [], ◌∷◌, ◌++◌, get_elem?, remove_at}
use openclaw_rtc_plugin.Common.Maps.{lookup}
use openclaw_rtc_plugin.Page.{
  Effect, socket_made, stream_taken, pc_made, disconnected, connecting, at_media, at_offer, Shown,
  new, Page, Acted,
}
use openclaw_rtc_plugin.Page.Show.{set_status}
use openclaw_rtc_plugin.Page.Peer.{put}
use openclaw_rtc_plugin.Page.Call.{Moment, streamed}
use openclaw_rtc_plugin.Page.Loop.{Event, script_run, socket_closed, reconnect_fired, wait_over}
use openclaw_rtc_plugin.Page.Moves.{Moves}

-- An event that is not about the connection's end and its beginning.
abbrev pub IsInside : Event → Type 0
IsInside (script_run id) = ⊥
IsInside socket_closed = ⊥
IsInside (reconnect_fired id) = ⊥
IsInside _ = Unit

-- The script runs once, at the beginning.
abbrev pub IsLater : Event → Type 0
IsLater (script_run id) = ⊥
IsLater _ = Unit

-- What an event does, after the script has run.
pub data Step (p : Page) : Event → Page → List Effect → Type 0 where
  moves : {e : Event} {p' : Page} {es : List Effect} → IsInside e → Moves p p' es → Step p e p' es
  loses :
      Step p socket_closed
        (record p {
          shown = set_status disconnected p.shown;
          ws = none;
          reconnects = suc p.reconnects;
        })
        []
  reconnects :
      (id n : ℕ)
      → p.reconnects ≡ suc n
      → Step p
          (reconnect_fired id)
          (record p { shown = set_status connecting p.shown; ws = some id; reconnects = n })
          (socket_made id ∷ [])
  unset : (id : ℕ) → p.reconnects ≡ 0 → Step p (reconnect_fired id) p []

pub record Script : Type 0 where
  pub happen : Moment → Event → Page → Acted
  -- The script makes its first socket.
  pub first :
      (m : Moment) (id : ℕ)
      → (s : Shown) × (happen m (script_run id) new
          ≡ (record new { shown = s; ws = some id }, socket_made id ∷ []))
  -- Every later event is a step.
  pub step :
      (m : Moment) (e : Event) (p : Page)
      → IsLater e
      → lookup m.uuid p.pending_requests ≡ none
      → Step p e (happen m e p).0 (happen m e p).1
  -- A microphone that is granted goes to the peer that asked for it.
  pub grant :
      (m : Moment) (p : Page) (j i stream pc : ℕ)
      → get_elem? p.waits j ≡ some (at_media i)
      → happen m (wait_over j (streamed stream pc)) p ≡ (
        record p {
          waits = remove_at j p.waits ++ at_offer i ∷ [];
          peers = put i (record { pc = some pc; local_stream = some stream }) p.peers;
        },
        stream_taken stream ∷ pc_made pc ∷ [],
      )
