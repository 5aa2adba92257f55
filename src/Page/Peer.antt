-- ===== src/Page/Peer.antt =====
-- `RtcPeer` of plugin/ui/rtc-peer.ts, on the peers of the page: a method writes the fields of its
-- own peer, which the page may have dropped in the meantime.
use openclaw_rtc_plugin.Common.{ℕ, zero, suc, Option, none, some, List, [], ◌∷◌, ◌++◌, get_elem?}
use openclaw_rtc_plugin.Page.{
  Effect, stream_taken, stream_stopped, pc_made, pc_closed, RtcPeer, Page, Acted,
}

abbrev pub blank : RtcPeer
blank = record { pc = none; local_stream = none }

-- A write to the fields of the peer at a place.
unfoldable pub put : ℕ → RtcPeer → List RtcPeer → List RtcPeer
put i r [] = []
put zero r (q ∷ rs) = r ∷ rs
put (suc i) r (q ∷ rs) = q ∷ put i r rs

-- `createOffer` when the microphone is granted: the stream and the connection are set, up to the
-- wait for the connection's offer.
unfoldable pub take_media : ℕ → ℕ → ℕ → Page → Acted
take_media i stream pc p = (
  record p { peers = put i (record { pc = some pc; local_stream = some stream }) p.peers },
  stream_taken stream ∷ pc_made pc ∷ [],
)

abbrev pub pc_of? : Option RtcPeer → Option ℕ
pc_of? none = none
pc_of? (some r) = r.pc

-- `this.pc`
abbrev pub pc_of : ℕ → Page → Option ℕ
pc_of i p = pc_of? (get_elem? p.peers i)

abbrev pub stopped : Option ℕ → List Effect
stopped none = []
stopped (some s) = stream_stopped s ∷ []

abbrev pub closed : Option ℕ → List Effect
closed none = []
closed (some pc) = pc_closed pc ∷ []

abbrev pub releases : RtcPeer → List Effect
releases r = stopped r.local_stream ++ closed r.pc

abbrev pub releases? : Option RtcPeer → List Effect
releases? none = []
releases? (some r) = releases r

unfoldable pub hangup : ℕ → Page → Acted
hangup i p = (record p { peers = put i blank p.peers }, releases? (get_elem? p.peers i))
