-- ===== src/Tests/Frames.antt =====
-- Runs of plugin/src/config.ts and of the frames of plugin/node/volc-client.ts.
use openclaw_rtc_plugin.Common.{
  ◌≡◌, refl, ◌≤◌, String, Bool, true, false, Option, none, some, ok, err, Result, arith,
}
use openclaw_rtc_plugin.Json.{Value, bool, str, obj, end, field, get}
use openclaw_rtc_plugin.Call.{default_ice_servers}
use openclaw_rtc_plugin.Config.{
  WebRtcConfig, SchemaParser, resolve_web_rtc_config, validate_web_rtc_config, assign,
}

-- A config with the schema's defaults.
abbrev config : Bool → WebRtcConfig
config b = record {
  enabled = b;
  ice_servers = default_ice_servers;
  volc_app_id = none;
  volc_access_key = none;
  volc_resource_id = "volc.speech.dialog";
  volc_speaker = "zh_female_cancan_mars_bigtts";
  max_concurrent_calls = 5;
  max_call_duration_sec = 600;
  silence_timeout_sec = 30;
}

-- A schema that looks at `enabled` only.
abbrev schema_parse : Option Value → Result String WebRtcConfig
schema_parse (some (bool b)) = ok (config b)
schema_parse _ = err "enabled: expected boolean"

schema_enabled :
    (v : Option Value) (b : Bool) (c : WebRtcConfig)
    → v ≡ some (bool b)
    → schema_parse v ≡ ok c
    → c.enabled ≡ b
schema_enabled v b c is parsed = ground arith

schema_calls :
    (v : Option Value) (c : WebRtcConfig) → schema_parse v ≡ ok c → 1 ≤ c.max_concurrent_calls
schema_calls v c parsed = ground arith

abbrev schema : SchemaParser
schema = record {
  parse = λ fs. schema_parse (get "enabled" fs);
  enabled_kept = λ fs. schema_enabled (get "enabled" fs);
  calls_positive = λ fs. schema_calls (get "enabled" fs);
}

abbrev raw : Option Value
raw = some (obj (field "enabled" (str "yes") end))

resolved : resolve_web_rtc_config schema raw ≡ ok (config false)
unfolding resolve_web_rtc_config get assign
resolved = refl

rejected : (validate_web_rtc_config (config true)).valid ≡ false
unfolding validate_web_rtc_config
rejected = refl
