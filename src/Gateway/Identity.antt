-- ===== src/Gateway/Identity.antt =====
-- The device identity of plugin/node/gateway-client.ts: the key pair, its fingerprint, and the file that
-- keeps it. node:crypto, JSON and the path functions are parameters. The file is absent, a text, or what
-- cannot be read.
use Prim.Native.Char.{Char, code}
use Prim.Native.String.{◌++◌}
use openclaw_rtc_plugin.Common.{
  ℕ, ◌+◌, ◌^◌, ◌==◌, ◌&&◌, String, Bool, true, false, Option, none, some, List, [], ◌∷◌, length,
  drop, if◌then◌else◌, Result, ok, err, ◌>>=◌,
}
use openclaw_rtc_plugin.Common.Int.{pos}
use openclaw_rtc_plugin.Json.{Value, num, str, obj, end, field, truthy?, property}
use openclaw_rtc_plugin.Audio.{Buffer}

-- What throws, throws the text of the error.
pub record Crypto : Type 0 where
  pub spki : String → Result String Buffer  -- `createPublicKey(pem).export({ type: "spki", format: "der" })`
  pub sha256_hex : Buffer → String
  pub base64 : Buffer → String
  pub sign : String → String → Result String Buffer  -- by the private key, of the UTF-8 of the text

pub record JsonFile : Type 0 where
  pub parse : String → Result String Value
  pub pretty : Value → String  -- `JSON.stringify(v, null, 2)`

pub data IdentityFile : Type 0 where
  missing : IdentityFile
  contents : String → IdentityFile
  unreadable : IdentityFile

-- The texts of `generateKeyPairSync`.
pub record KeyPair : Type 0 where
  pub public_key_pem : String
  pub private_key_pem : String

-- The identity as the client holds it: from a file come whatever values stand there.
pub record HeldIdentity : Type 0 where
  pub device_id : Value
  pub public_key_pem : Value
  pub private_key_pem : Value

-- ED25519_SPKI_PREFIX
abbrev pub spki_prefix : Buffer
spki_prefix = 0x30 ∷ 0x2a ∷ 0x30 ∷ 0x05 ∷ 0x06 ∷ 0x03 ∷ 0x2b ∷ 0x65 ∷ 0x70 ∷ 0x03 ∷ 0x21 ∷ 0x00 ∷ []

-- `replaceAll("+", "-").replaceAll("/", "_")` on a character
abbrev pub url_char : Char → Char
url_char c = if code c == b'+' then "-" else if code c == b'/' then "_" else c

unfoldable pub url_chars : String → String
url_chars String.[] = String.[]
url_chars (String.◌∷◌ c s) = String.◌∷◌ (url_char c) (url_chars s)

-- keeps `c` unless it is `=` and nothing follows it
abbrev pub strip_last : Char → String → String
strip_last c String.[] = if code c == b'=' then String.[] else String.◌∷◌ c String.[]
strip_last c (String.◌∷◌ d t) = String.◌∷◌ c (String.◌∷◌ d t)

-- `replace(/=+$/g, "")`
unfoldable pub strip_padding : String → String
strip_padding String.[] = String.[]
strip_padding (String.◌∷◌ c s) = strip_last c (strip_padding s)

unfoldable pub base64_url_encode : Crypto → Buffer → String
unfolding url_chars strip_padding
base64_url_encode crypto buffer = strip_padding (url_chars (crypto.base64 buffer))

-- `a.subarray(0, prefix.length).equals(prefix)`
unfoldable pub starts_with : Buffer → Buffer → Bool
starts_with [] buffer = true
starts_with (b ∷ prefix) [] = false
starts_with (b ∷ prefix) (c ∷ buffer) = (b == c) && starts_with prefix buffer

unfoldable pub raw_key : Buffer → Buffer
unfolding starts_with
raw_key spki =
    if (length spki == length spki_prefix + 32) && starts_with spki_prefix spki
    then drop (length spki_prefix) spki
    else spki

unfoldable pub derive_public_key_raw : Crypto → String → Result String Buffer
unfolding raw_key
derive_public_key_raw crypto pem = crypto.spki pem >>= λ spki. ok (raw_key spki)

unfoldable pub fingerprint_public_key : Crypto → String → Result String String
unfolding derive_public_key_raw
fingerprint_public_key crypto pem =
    derive_public_key_raw crypto pem >>= λ raw. ok (crypto.sha256_hex raw)

unfoldable pub public_key_raw_base64_url : Crypto → String → Result String String
unfolding derive_public_key_raw base64_url_encode
public_key_raw_base64_url crypto pem =
    derive_public_key_raw crypto pem >>= λ raw. ok (base64_url_encode crypto raw)

unfoldable pub sign_payload : Crypto → String → String → Result String String
unfolding base64_url_encode
sign_payload crypto pem payload =
    crypto.sign pem payload >>= λ signature. ok (base64_url_encode crypto signature)

unfoldable pub generate_device_identity : Crypto → KeyPair → Result String HeldIdentity
unfolding fingerprint_public_key
generate_device_identity crypto keys =
    fingerprint_public_key crypto keys.public_key_pem >>= λ device_id. ok (record {
      device_id = str device_id;
      public_key_pem = str keys.public_key_pem;
      private_key_pem = str keys.private_key_pem;
    })

-- `v === 1`
abbrev pub is_one : Option Value → Bool
is_one (some (num (pos n) e)) = n == 10 ^ e
is_one _ = false

abbrev pub held : Option Value → Option Value → Option Value → Option HeldIdentity
held (some i) (some p) (some s) =
    some (record { device_id = i; public_key_pem = p; private_key_pem = s })
held _ _ _ = none

-- What a parsed file holds. It is kept when its version is 1 and its three parts are truthy.
unfoldable pub identity_of : Value → Option HeldIdentity
identity_of raw =
    let i = property "deviceId" raw in
    let p = property "publicKeyPem" raw in
    let s = property "privateKeyPem" raw in
    if is_one (property "version" raw) && (truthy? i && (truthy? p && truthy? s))
    then held i p s
    else none

abbrev pub identity_in : Result String Value → Option HeldIdentity
unfolding identity_of
identity_in (ok raw) = identity_of raw
identity_in (err e) = none

-- The `try` of `loadOrCreateIdentity`.
unfoldable pub read_identity : JsonFile → IdentityFile → Option HeldIdentity
unfolding identity_of
read_identity json missing = none
read_identity json (contents text) = identity_in (json.parse text)
read_identity json unreadable = none

unfoldable pub stored_value : HeldIdentity → ℕ → Value
stored_value identity now = obj (
    field "version" (num (pos 1) 0) (
      field "deviceId" identity.device_id (
        field "publicKeyPem" identity.public_key_pem (
          field "privateKeyPem" identity.private_key_pem
            (field "createdAtMs" (num (pos now) 0) end)))))

-- What is written, or the error of `mkdirSync` or `writeFileSync`, which leaves the file.
abbrev pub write_identity :
    JsonFile
    → ℕ
    → Option String
    → IdentityFile
    → HeldIdentity
    → Result String HeldIdentity × IdentityFile
unfolding stored_value
write_identity json now none file identity =
    (ok identity, contents (json.pretty (stored_value identity now) ++ "\n"))
write_identity json now (some e) file identity = (err e, file)

abbrev pub create_identity :
    JsonFile
    → ℕ
    → Option String
    → IdentityFile
    → Result String HeldIdentity
    → Result String HeldIdentity × IdentityFile
unfolding stored_value
create_identity json now refused file (ok identity) = write_identity json now refused file identity
create_identity json now refused file (err e) = (err e, file)

abbrev pub or_create :
    Result String HeldIdentity × IdentityFile
    → IdentityFile
    → Option HeldIdentity
    → Result String HeldIdentity × IdentityFile
or_create created file (some identity) = (ok identity, file)
or_create created file none = created

-- With the key pair that is made if one is needed, and the error of the write if there is one.
unfoldable pub load_or_create_identity :
    Crypto
    → JsonFile
    → KeyPair
    → ℕ
    → Option String
    → IdentityFile
    → Result String HeldIdentity × IdentityFile
unfolding read_identity generate_device_identity stored_value
load_or_create_identity crypto json keys now refused file =
    or_create (create_identity json now refused file (generate_device_identity crypto keys)) file
      (read_identity json file)

-- The file of the constructor: the option, or the place under the home directory, or `/tmp`.
abbrev pub identity_path : (List String → String) → Option String → Option String → String
identity_path join (some path) home = path
identity_path join none (some home) = join (home ∷ ".openclaw" ∷ "identity" ∷ "rtc-node.json" ∷ [])
identity_path join none none = join ("/tmp" ∷ ".openclaw" ∷ "identity" ∷ "rtc-node.json" ∷ [])
