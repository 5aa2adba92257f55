-- ===== src/Plugin/Server.antt =====
-- The plugin of plugin/index.ts in the gateway's event loop. An event runs one handler up to its
-- `await` or, when a node call settles, the rest of one; any order of events is allowed.
use openclaw_rtc_plugin.Common.{
  remove_at, ℕ, String, Option, none, some, List, [], ◌∷◌, ◌++◌, ◌≡◌, false, Result, ok, err,
  get_elem?,
}
use openclaw_rtc_plugin.Common.Texts.{is_empty}
use openclaw_rtc_plugin.Common.Maps.{lookup}
use openclaw_rtc_plugin.Json.{Value, Fields, null}
use openclaw_rtc_plugin.Orchestrator.{CallOrchestrator, CallError}
use openclaw_rtc_plugin.Plugin.{NodeSession, NodeCommand, Settled, Response, Settings, Registry}
use openclaw_rtc_plugin.Plugin.Node.{invoked}
use openclaw_rtc_plugin.Plugin.Handlers.{
  Waiting, accepting, relaying, Begun, answered, waits, start_begin, start_end, ice_begin,
  hangup_begin, relay_end, status,
}
use openclaw_rtc_plugin.Plugin.Service.{stop}

-- A handler that waits, and the node call it waits on, if a node was found.
pub record Suspended : Type 0 where
  pub waiting : Waiting
  pub sent : Option (NodeSession × NodeCommand)

pub record Server : Type 0 where
  pub orchestrator : CallOrchestrator
  pub suspended : List Suspended

pub data Event : Type 0 where
  start_requested : Registry → Option Fields → String → ℕ → Event
  ice_requested : Registry → Option Fields → Event
  hangup_requested : Registry → Option Fields → ℕ → Event
  status_requested : Option Fields → Event
  settled : ℕ → Settled → ℕ → Event
  stopped : ℕ → Event

-- The server after the first part of a handler.
abbrev pub launched : Server → CallOrchestrator × Begun → Server × Option Response
launched s (o, answered response) = (record s { orchestrator = o }, some response)
launched s (o, waits w sent) = (
  record {
    orchestrator = o;
    suspended = s.suspended ++ (record { waiting = w; sent = sent }) ∷ [];
  },
  none,
)

-- With no node the awaited value is `null`, whatever else settles.
abbrev pub outcome :
    (String → Option Value) → Option (NodeSession × NodeCommand) → Settled → Result String Value
outcome parse none r = ok null
outcome parse (some call) r = invoked parse r

unfoldable pub resume :
    Waiting → Result String Value → ℕ → CallOrchestrator → CallOrchestrator × Response
resume (accepting id) v now o = start_end id v now o
resume relaying v now o = (o, relay_end v)

abbrev pub replied : List Suspended → CallOrchestrator × Response → Server × Option Response
replied rest (o, response) = (record { orchestrator = o; suspended = rest }, some response)

abbrev pub after_stop : Server → Result CallError CallOrchestrator → Server × Option Response
after_stop s (ok o) = (record s { orchestrator = o }, none)
after_stop s (err e) = (s, none)

abbrev pub resumed :
    (String → Option Value) → Server → ℕ → Settled → ℕ → Option Suspended → Server × Option Response
resumed parse s i r now none = (s, none)
resumed parse s i r now (some w) =
    replied (remove_at i s.suspended) (resume w.waiting (outcome parse w.sent r) now s.orchestrator)

unfoldable pub serve :
    (String → Option Value) → Settings → Server → Event → Server × Option Response
unfolding resume
serve parse settings s (start_requested registry params id now) =
    launched s (start_begin settings registry params id now s.orchestrator)
serve parse settings s (ice_requested registry params) =
    launched s (ice_begin registry params s.orchestrator)
serve parse settings s (hangup_requested registry params now) =
    launched s (hangup_begin registry params now s.orchestrator)
serve parse settings s (status_requested params) = (s, some (status params s.orchestrator))
serve parse settings s (settled i r now) = resumed parse s i r now (get_elem? s.suspended i)
serve parse settings s (stopped now) = after_stop s (stop now s.orchestrator)

-- What `randomUUID` promises of the id that a start request draws.
abbrev pub IsFreshEvent : Server → Event → Type 0
IsFreshEvent s (start_requested registry params id now) =
    (lookup id s.orchestrator.calls ≡ none) × (is_empty id ≡ false)
IsFreshEvent s _ = Unit

-- The servers that some events lead to, from a new orchestrator.
pub data Served (parse : String → Option Value) (settings : Settings) (o : CallOrchestrator)
    : Server → Type 0 where
  opened : Served parse settings o (record { orchestrator = o; suspended = [] })
  next :
      {s : Server}
      → Served parse settings o s
      → (e : Event) → IsFreshEvent s e
      → Served parse settings o (serve parse settings s e).0
