-- ===== src/Socket.antt =====
-- The state of a WebSocket, as plugin/node/volc-client.ts and plugin/node/gateway-client.ts read it.
use openclaw_rtc_plugin.Common.{Bool, true, false}

-- `CONNECTING`, `OPEN`, `CLOSING`, `CLOSED`
pub data ReadyState : Type 0 where
  opening established closing closed : ReadyState

-- `readyState === WebSocket.OPEN`
abbrev pub is_open : ReadyState → Bool
is_open established = true
is_open _ = false
