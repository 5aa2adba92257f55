-- ===== src/Page/Run.antt =====
-- Runs of events of the page, with plugin/ui/app.ts or with plugin/ui/app.js, from the script on.
use openclaw_rtc_plugin.Common.{ℕ, ◌+◌, ◌<◌, ◌≡◌, none, some, sym, subst, List, [], ◌∷◌, ◌++◌}
use openclaw_rtc_plugin.Common.Maps.{lookup}
use openclaw_rtc_plugin.Page.{Shown, Effect, socket_made, new, Page}
use openclaw_rtc_plugin.Page.Call.{Moment}
use openclaw_rtc_plugin.Page.Loop.{Event, script_run, socket_closed}
use openclaw_rtc_plugin.Page.Script.{IsLater, Step, Script}

abbrev sockets_of : Effect → ℕ
sockets_of (socket_made id) = 1
sockets_of _ = 0

unfoldable pub sockets_made : List Effect → ℕ
sockets_made [] = 0
sockets_made (e ∷ es) = sockets_of e + sockets_made es

abbrev pub closes_of : Event → ℕ
closes_of socket_closed = 1
closes_of _ = 0

-- A socket that was made closes once at most.
abbrev pub IsDue : Event → ℕ → ℕ → Type 0
IsDue socket_closed made ended = ended < made
IsDue _ made ended = Unit

-- The pages that some events lead to, each with a UUID that no pending request has, what was done
-- on the way, and how many sockets have closed.
pub data Run (script : Script) : Page → List Effect → ℕ → Type 0 where
  begin :
      (m : Moment) (id : ℕ)
      → Run script (script.happen m (script_run id) new).0 (script.happen m (script_run id) new).1 0
  then_event :
      {p : Page} {es : List Effect} {n : ℕ}
      → Run script p es n
      → (m : Moment) (e : Event) → IsLater e
      → IsDue e (sockets_made es) n
      → lookup m.uuid p.pending_requests ≡ none
      → Run script (script.happen m e p).0 (es ++ (script.happen m e p).1) (closes_of e + n)

-- The pages that events lead to from a page.
pub data Later (script : Script) (p : Page) : Page → List Effect → Type 0 where
  now : Later script p p []
  then_later :
      {q : Page} {es : List Effect}
      → Later script p q es
      → (m : Moment) (e : Event) → IsLater e
      → lookup m.uuid q.pending_requests ≡ none
      → Later script p (script.happen m e q).0 (es ++ (script.happen m e q).1)

module _ (Inv : Page → Type 0)
    (stays : (p p' : Page) (e : Event) (es : List Effect) → Step p e p' es → Inv p → Inv p')
    (script : Script) where
  -- What every step keeps.
  pub Later-keeps : {p q : Page} {es : List Effect} → Later script p q es → Inv p → Inv q
  Later-keeps now i = i
  Later-keeps (then_later {q} l m e h fresh) i =
      stays q _ e _ (script.step m e q h fresh) (Later-keeps l i)

  -- What holds when the script has run, and what every step keeps.
  pub Run-keeps :
      ((s : Shown) (id : ℕ) → Inv (record new { shown = s; ws = some id }))
      → {p : Page} {es : List Effect} {n : ℕ} → Run script p es n
      → Inv p
  Run-keeps start (begin m id) =
      let (s, at) = script.first m id in subst (λ a. Inv a.0) (sym at) (start s id)
  Run-keeps start (then_event {p} r m e h due fresh) =
      stays p _ e _ (script.step m e p h fresh) (Run-keeps start r)
