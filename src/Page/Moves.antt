-- ===== src/Page/Moves.antt =====
-- What an event can do to the page of plugin/ui/app.ts, as data: a sequence of moves, each with its
-- effects.
use openclaw_rtc_plugin.Common.{
  ℕ, String, Bool, true, false, ◌≡◌, refl, Option, none, some, List, [], ◌∷◌, ◌++◌, append_assoc,
  append-nil, subst, sym, if◌then◌else◌, get_elem?, remove_at, length,
}
use openclaw_rtc_plugin.Common.Maps.{lookup, insert, erase}
use openclaw_rtc_plugin.Json.{Value}
use openclaw_rtc_plugin.Page.{
  Purpose, Settled, Effect, sent, settles, stream_taken, pc_made, audio_played, Wait, at_media,
  at_offer, Shown, Page, Acted,
}
use openclaw_rtc_plugin.Page.Peer.{blank, put, releases?}

-- A wait that is not for the microphone.
abbrev pub IsLater : Wait → Type 0
IsLater (at_media i) = ⊥
IsLater _ = Unit

pub data Move (p : Page) : Page → List Effect → Type 0 where
  shows : (s : Shown) → Move p (record p { shown = s }) []
  plays : Move p p (audio_played ∷ [])
  asks :
      (socket : ℕ) (id method : String) (params : Value) (purpose : Purpose)
      → p.ws ≡ some socket
      → lookup id p.pending_requests ≡ none
      → Move p
          (record p { pending_requests = insert id purpose p.pending_requests })
          (sent socket id method params ∷ [])
  answers :
      (id : String) (purpose : Purpose) (s : Settled)
      → lookup id p.pending_requests ≡ some purpose
      → Move p (record p { pending_requests = erase id p.pending_requests }) (settles id s ∷ [])
  counts : (n : ℕ) → Move p (record p { message_seq = n }) []
  dials :
      (s : Shown)
      → p.rtc_peer ≡ none
      → Move p
          (record p {
            shown = s;
            call_hidden = true;
            hangup_hidden = false;
            peers = p.peers ++ blank ∷ [];
            rtc_peer = some (length p.peers);
            waits = p.waits ++ at_media (length p.peers) ∷ [];
          })
          []
  takes :
      (j i stream pc : ℕ)
      → get_elem? p.waits j ≡ some (at_media i)
      → Move p
          (record p {
            waits = remove_at j p.waits ++ at_offer i ∷ [];
            peers = put i (record { pc = some pc; local_stream = some stream }) p.peers;
          })
          (stream_taken stream ∷ pc_made pc ∷ [])
  quits : (j : ℕ) → Move p (record p { waits = remove_at j p.waits }) []
  joins : (w : Wait) → IsLater w → Move p (record p { waits = p.waits ++ w ∷ [] }) []
  names :
      (i : ℕ) (v : Option Value)
      → p.rtc_peer ≡ some i
      → Move p (record p { current_call_id = v }) []
  frees :
      (i : ℕ)
      → p.rtc_peer ≡ some i
      → Move p
          (record p {
            rtc_peer = none;
            peers = put i blank p.peers;
            current_call_id = none;
            call_hidden = false;
            hangup_hidden = true;
            shown = record p.shown { transcript_hidden = true };
          })
          (releases? (get_elem? p.peers i))
  rests :
      p.rtc_peer ≡ none
      → Move p
          (record p {
            current_call_id = none;
            call_hidden = false;
            hangup_hidden = true;
            shown = record p.shown { transcript_hidden = true };
          })
          []

pub data Moves (p : Page) : Page → List Effect → Type 0 where
  still : Moves p p []
  then_move :
      {p' p'' : Page} {es fs : List Effect}
      → Moves p p' es
      → Move p' p'' fs
      → Moves p p'' (es ++ fs)

abbrev pub Does : Page → Acted → Type 0
Does p (p', es) = Moves p p' es

pub once : {p p' : Page} {es : List Effect} → Move p p' es → Moves p p' es
once m = then_move still m

pub Moves-trans :
    {p p' p'' : Page} {es fs : List Effect}
    → Moves p p' es
    → Moves p' p'' fs
    → Moves p p'' (es ++ fs)
Moves-trans {p} {p'} {es = es} m still = subst (Moves p p') (sym (append-nil es)) m
Moves-trans {p} {es = es} m (then_move {p''} {es = fs} {fs = gs} n k) =
    subst (Moves p p'') (append_assoc es fs gs) (then_move (Moves-trans m n) k)

-- A last move that has no effect.
pub then_last :
    {p p' p'' : Page} {es : List Effect} → Moves p p' es → Move p' p'' [] → Moves p p'' es
then_last {p} {p''} {es} m k = subst (Moves p p'') (append-nil es) (then_move m k)

-- What both branches do.
pub if-Does :
    (p : Page) (b : Bool) (x y : Acted)
    → (b ≡ true → Does p x)
    → (b ≡ false → Does p y)
    → Does p (if b then x else y)
if-Does p true x y h k = h refl
if-Does p false x y h k = k refl
