-- ===== src/Config.antt =====
-- plugin/src/config.ts. The schema is run by the package zod, which is a parameter: a parser with
-- what its documentation says of `z.boolean()` and `z.number().int().min(1)`.
pub mod Laws
use openclaw_rtc_plugin.Common.{
  ℕ, ◌≤◌, String, str_eq, ◌≡◌, Bool, true, false, not, ◌&&◌, ◌||◌, Option, none, some, List, [],
  ◌∷◌, ◌++◌ as append, if◌then◌else◌, Result, ok, err,
}
use openclaw_rtc_plugin.Common.Texts.{is_empty}
use openclaw_rtc_plugin.Json.{Value, Fields, null, bool, num, str, arr, obj, end, field, get}
use openclaw_rtc_plugin.Call.{IceServer}

pub record WebRtcConfig : Type 0 where
  pub enabled : Bool
  pub ice_servers : List IceServer
  pub volc_app_id : Option String
  pub volc_access_key : Option String
  pub volc_resource_id : String
  pub volc_speaker : String
  pub max_concurrent_calls : ℕ
  pub max_call_duration_sec : ℕ
  pub silence_timeout_sec : ℕ

-- `WebRtcConfigSchema.parse`: a config, or the text of the error that it throws.
pub record SchemaParser : Type 0 where
  pub parse : Fields → Result String WebRtcConfig
  pub enabled_kept :
      (fs : Fields) (b : Bool) (c : WebRtcConfig)
      → get "enabled" fs ≡ some (bool b)
      → parse fs ≡ ok c
      → c.enabled ≡ b
  pub calls_positive :
      (fs : Fields) (c : WebRtcConfig) → parse fs ≡ ok c → 1 ≤ c.max_concurrent_calls

-- The object that is spread: `{}` for what is no object.
abbrev pub as_object : Option Value → Fields
as_object (some (obj fs)) = fs
as_object _ = end

-- `{ ...fs, k: v }`
unfoldable pub assign : String → Value → Fields → Fields
assign k v end = field k v end
assign k v (field j w fs) = if str_eq j k then field j v fs else field j w (assign k v fs)

-- `typeof obj.enabled === "boolean" ? obj.enabled : false`
abbrev pub enabled_of : Option Value → Bool
enabled_of (some (bool b)) = b
enabled_of _ = false

unfoldable pub resolve_web_rtc_config : SchemaParser → Option Value → Result String WebRtcConfig
resolve_web_rtc_config schema raw =
    let fs = as_object raw in
    schema.parse (assign "enabled" (bool (enabled_of (get "enabled" fs))) fs)

pub record Validation : Type 0 where
  pub valid : Bool
  pub errors : List String

-- `!key` for an optional text
abbrev pub is_missing : Option String → Bool
is_missing none = true
is_missing (some s) = is_empty s

abbrev is_nil : List String → Bool
is_nil [] = true
is_nil (e ∷ es) = false

abbrev problem : Bool → String → List String
problem b e = if b then e ∷ [] else []

unfoldable pub config_errors : WebRtcConfig → List String
config_errors c =
    if c.enabled
    then append (problem (is_missing c.volc_app_id) "volcAppId is required when enabled")
        (problem (is_missing c.volc_access_key) "volcAccessKey is required when enabled")
    else []

unfoldable pub validate_web_rtc_config : WebRtcConfig → Validation
unfolding config_errors
validate_web_rtc_config c =
    let errors = config_errors c in record { valid = is_nil errors; errors = errors }
