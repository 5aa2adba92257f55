-- ===== src/Lib.antt =====
-- openclaw-rtc-plugin: voice calls between a browser and an RTC node, through a gateway plugin.
-- The browser asks the plugin (plugin/index.ts) to start a call; the plugin records it in the
-- call orchestrator (plugin/src/orchestrator.ts), forwards the offer to an RTC node, and answers
-- with the node's answer when it comes. On the node, audio is cut into frames and resampled
-- (plugin/node/audio-pipeline.ts) for the Volcano Engine realtime API
-- (plugin/node/volc-client.ts).
--
-- Which file models what:
--
--   Call: plugin/src/types.ts, the states of a call and its record. Call/Schema is what
--     RtcCallRecordSchema accepts.
--   Orchestrator: plugin/src/orchestrator.ts. CallOrchestrator is the two maps and the options;
--     start_call, handle_answer, handle_ice_candidate, set_active, hangup, set_error,
--     set_timeout and add_transcript are the methods of the same names. A method returns the
--     orchestrator after it or the error it throws, which is always before any change.
--     Orchestrator/Run has the methods as data and the orchestrators that they reach.
--   Config: plugin/src/config.ts. zod is a parameter (SchemaParser), with what its
--     documentation says of the two fields that the code relies on.
--   Json: values of JSON.parse and the tests that handlers make on them.
--   Plugin: plugin/index.ts. Node is findRtcNode and invokeRtcNode, Handlers the four gateway
--     methods, Service the shutdown, Route the HTTP route, where node:path and the file system
--     are parameters. A handler stands in two parts, before and after its await. Server is the
--     event loop: an event runs one part, and any order of events is allowed, so what is said
--     of Served holds for every interleaving.
--   Audio: plugin/node/audio-pipeline.ts. Frames is chunkPcm and AudioFrameAccumulator,
--     Resample is resamplePcm with downsample48to16 and upsample24to48.
--   Volc: plugin/node/volc-client.ts. Frame is buildHeader, the two senders and the fields that
--     handleMessage reads; Message is handleMessage and handleJsonEvent; Client is the socket
--     and the session. UTF-8, JSON and base64 are parameters.
--   Gateway: plugin/node/gateway-client.ts. Identity is loadOrCreateIdentity and the functions
--     on keys, Restart what a restart finds; Auth is buildAuthPayloadV3 and the parameters of
--     connect, Client the methods, Loop the handlers of frames and the events that run them: a
--     promise that settles leaves a job, which the loop runs at any later time. Moves, Methods
--     and Events take every event apart into moves, on which the properties are proved. The
--     connection takes signatures and JSON as parameters (Platform).
--   Store: plugin/src/store.ts, append, readAll and readRecent on the text of the file. JSON is
--     a parameter, and that it reads back what it wrote is a hypothesis (IsText).
--   Peers: plugin/node/peer-manager.ts, the maps from a call to its connection and its
--     loopback. A connection and a timer is a number. Loopback is the player of one loopback,
--     as a machine whose events are packets, timers and the promise of replaceTrack; Rounds,
--     Plays, Playing, Fires, Replay and Silence say what it plays.
--   Node: plugin/node/index.ts. Args is parseArgs, Print what a command line means; Commands is
--     handleCommand on the peer manager, where a command whose promise is not settled waits
--     with the id of its invocation. Peers/Accept has the methods of
--     plugin/node/peer-manager.ts at their awaits.
--   Page: plugin/ui/app.ts and plugin/ui/rtc-peer.ts. Page is the variables of the script and
--     what the elements show; Peer is RtcPeer, of which every one that was made is kept, since
--     a startCall goes on in its own peer after the page has dropped it; Show writes the
--     elements, Call is the voice call in the parts between its awaits, Frames the gateway,
--     Loop the events of the browser, in any order. Moves, Handlers and Events take every event
--     apart into moves. Script is the interface that plugin/ui/app.ts (Events.app_ts) and
--     plugin/ui/app.js (Web, Web/Events.app_js) both fill, so that what is proved of a Script
--     holds of both: Sites says so.
--   Socket: the readyState of a WebSocket.
--   Common: shared helpers. Tests: runs on concrete inputs.
--
-- Numbers are natural numbers; samples are signed integers. A JavaScript Map is an association
-- list in insertion order, in which set keeps the place of a key that is there. Date.now() and
-- randomUUID() are arguments; where a property needs that a new id is not in use, this is
-- IsFresh. A buffer is the list of its bytes.
--
-- The loops of chunkPcm and push take as fuel one round for each byte and one for the last test;
-- the properties about them state that a result comes out for every positive frame size. For a
-- frame size of 0 the loops run for ever in the source and run out of fuel here.
--
-- fromRate / toRate is an exact fraction, which double precision agrees with for the rates that
-- the file uses.
--
-- Not modelled: the werift calls of plugin/node/peer-manager.ts, scrolling and styles of the
-- page and the copies of its script in index.html and rtc-peer.js, the second node in Go under
-- rtc-node, and all log lines.
pub mod Common
pub mod Json
pub mod Call
pub mod Orchestrator
pub mod Config
pub mod Socket
pub mod Gateway
pub mod Store
pub mod Node
pub mod Page
pub mod Peers
pub mod Plugin
pub mod Audio
pub mod Volc
pub mod Tests
