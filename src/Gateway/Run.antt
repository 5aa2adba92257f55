-- ===== src/Gateway/Run.antt =====
-- Runs of events of plugin/node/gateway-client.ts.
use openclaw_rtc_plugin.Common.{◌≡◌, none, List, [], ◌++◌}
use openclaw_rtc_plugin.Common.Maps.{lookup}
use openclaw_rtc_plugin.Gateway.{Platform, Effect, GatewayNodeClient}
use openclaw_rtc_plugin.Gateway.Auth.{DeviceIdentity, GatewayNodeClientOptions}
use openclaw_rtc_plugin.Gateway.Loop.{Moment, Event, happen}
use openclaw_rtc_plugin.Gateway.Moves.{Moves, still, Moves-trans}
use openclaw_rtc_plugin.Gateway.Events.{happen-Does}

-- The clients that some events lead to, each with a UUID that no pending request has, and what was
-- done on the way.
pub data Run (platform : Platform) (opts : GatewayNodeClientOptions) (identity : DeviceIdentity)
    (c : GatewayNodeClient) : GatewayNodeClient → List Effect → Type 0 where
  begin : Run platform opts identity c c []
  then_event :
      {c' : GatewayNodeClient} {es : List Effect}
      → Run platform opts identity c c' es
      → (m : Moment) (e : Event) → lookup m.uuid c'.pending ≡ none
      → Run platform opts identity c
          (happen platform opts identity m e c').0
          (es ++ (happen platform opts identity m e c').1)

pub Run-Moves :
    (platform : Platform) (opts : GatewayNodeClientOptions) (identity : DeviceIdentity)
    {c c' : GatewayNodeClient} {es : List Effect}
    → Run platform opts identity c c' es
    → Moves c c' es
Run-Moves platform opts identity begin = still
Run-Moves platform opts identity (then_event {c'} r m e fresh) =
    Moves-trans (Run-Moves platform opts identity r)
      (happen-Does platform opts identity m e c' fresh)
