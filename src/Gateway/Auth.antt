-- ===== src/Gateway/Auth.antt =====
-- `buildAuthPayloadV3` and the parameters of the `connect` request in plugin/node/gateway-client.ts.
use Prim.Native.String.{◌++◌}
use openclaw_rtc_plugin.Common.{ℕ, String, Bool, Option, none, some, List, [], ◌∷◌, if◌then◌else◌}
use openclaw_rtc_plugin.Common.Texts.{is_empty, show, slice_start}
use openclaw_rtc_plugin.Common.Int.{pos}
use openclaw_rtc_plugin.Json.{
  Value, null, num, str, arr, obj, Items, nil, cons, end, field, optional,
}
use openclaw_rtc_plugin.Gateway.{Platform}

pub record DeviceIdentity : Type 0 where
  pub device_id : String
  pub public_key_pem : String
  pub private_key_pem : String

pub record GatewayNodeClientOptions : Type 0 where
  pub url : String
  pub token : Option String
  pub display_name : Option String
  pub commands : List String
  pub caps : Option (List String)
  pub has_handler : Bool  -- whether `onInvoke` is given

pub record AuthParams : Type 0 where
  pub device_id : String
  pub client_id : String
  pub client_mode : String
  pub role : String
  pub scopes : String
  pub signed_at_ms : ℕ
  pub token : String
  pub nonce : String
  pub platform : String

-- `fields.join("|")`
abbrev pub join_bar : List String → String
join_bar [] = ""
join_bar (x ∷ []) = x
join_bar (x ∷ y ∷ ys) = x ++ "|" ++ join_bar (y ∷ ys)

unfoldable pub build_auth_payload_v3 : AuthParams → String
build_auth_payload_v3 p = join_bar (
    "v3"
    ∷ p.device_id
    ∷ p.client_id
    ∷ p.client_mode
    ∷ p.role
    ∷ p.scopes
    ∷ show p.signed_at_ms
    ∷ p.token
    ∷ p.nonce
    ∷ p.platform
    ∷ ""
    ∷ [])

-- What `join` makes of a nonce: `undefined` and `null` are empty.
abbrev nonce_text : Platform → Option Value → String
nonce_text platform none = ""
nonce_text platform (some null) = ""
nonce_text platform (some v) = platform.to_text v

abbrev texts : List String → Items
texts [] = nil
texts (x ∷ xs) = cons (str x) (texts xs)

abbrev default {ℓ} : {A : Type ℓ} → Option A → A → A
default none d = d
default (some a) d = a

unfoldable pub signature_of :
    Platform → GatewayNodeClientOptions → DeviceIdentity → Option Value → ℕ → String
unfolding build_auth_payload_v3
signature_of platform opts identity nonce now = platform.sign_payload identity.private_key_pem (
    build_auth_payload_v3 (record {
      device_id = identity.device_id;
      client_id = "node-host";
      client_mode = "node";
      role = "node";
      scopes = "";
      signed_at_ms = now;
      token = default opts.token "";
      nonce = nonce_text platform nonce;
      platform = platform.platform_name;
    }))

abbrev device_value :
    Platform → GatewayNodeClientOptions → DeviceIdentity → Option Value → ℕ → String → Value
device_value platform opts identity nonce now signature = obj (
    field "id" (str identity.device_id) (
      field "publicKey" (str (platform.public_key_raw identity.public_key_pem)) (
        field "signature" (str signature)
          (field "signedAt" (num (pos now) 0) (optional "nonce" nonce end)))))

abbrev client_value : Platform → GatewayNodeClientOptions → DeviceIdentity → Value
client_value platform opts identity = obj (
    field "id" (str "node-host") (
      field "displayName"
        (str (default opts.display_name ("RTC Node (" ++ slice_start 8 identity.device_id ++ ")")))
        (field "version" (str "2026.3.8")
          (field "platform" (str platform.platform_name) (field "mode" (str "node") end)))))

abbrev auth_value : String → Option Value
auth_value token = if is_empty token then none else some (obj (field "token" (str token) end))

unfoldable pub connect_params :
    Platform → GatewayNodeClientOptions → DeviceIdentity → Option Value → ℕ → Value
unfolding signature_of
connect_params platform opts identity nonce now = obj (
    field "minProtocol" (num (pos 3) 0) (
      field "maxProtocol" (num (pos 3) 0) (
        field "client" (client_value platform opts identity) (
          field "role" (str "node") (
            field "caps" (arr (texts (default opts.caps ("webrtc" ∷ "audio" ∷ [])))) (
              field "commands" (arr (texts opts.commands)) (
                optional "auth" (auth_value (default opts.token "")) (
                  field "device"
                    (device_value platform opts identity nonce now
                      (signature_of platform opts identity nonce now))
                    end))))))))
