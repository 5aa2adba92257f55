-- ===== src/Config/Laws.antt =====
-- What plugin/src/config.ts accepts.
use openclaw_rtc_plugin.Common.{◌≡◌, String, true, false, ◌↔◌, Option, some, ok, arith, eq_refl}
use openclaw_rtc_plugin.Json.{Value, Fields, end, field, get}
use openclaw_rtc_plugin.Config.{
  WebRtcConfig, SchemaParser, as_object, assign, enabled_of, resolve_web_rtc_config, is_missing,
  validate_web_rtc_config,
}

get-assign_self : (k : String) (v : Value) (fs : Fields) → get k (assign k v fs) ≡ some v
unfolding get assign
get-assign_self k v end = ground (arith, eq_refl k)
get-assign_self k v (field j w fs) = ground (arith, get-assign_self k v fs)

-- A config that is resolved is enabled only by the boolean `true` under `enabled`: no other value,
-- and no value that is not an object, enables it.
resolve_enabled :
    (schema : SchemaParser) (raw : Option Value) (c : WebRtcConfig)
    → resolve_web_rtc_config schema raw ≡ ok c
    → c.enabled ≡ enabled_of (get "enabled" (as_object raw))
unfolding resolve_web_rtc_config
resolve_enabled schema raw c h =
    schema.enabled_kept _ _ c (get-assign_self "enabled" _ (as_object raw)) h

-- A config is valid exactly when it is disabled or has both credentials, non-empty.
pub validate_iff :
    (c : WebRtcConfig)
    → ((validate_web_rtc_config c).valid ≡ true) ↔ (
        c.enabled ≡ true
        → (is_missing c.volc_app_id ≡ false) × (is_missing c.volc_access_key ≡ false))
unfolding validate_web_rtc_config
validate_iff c = ground arith
