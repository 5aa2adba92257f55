-- ===== src/Tests/Identity.antt =====
-- A first start of the node of plugin/node/gateway-client.ts on a machine without an identity, and the
-- next start.
use Prim.Native.String.{◌++◌}
use openclaw_rtc_plugin.Common.{◌≡◌, refl, str_eq, none, some, [], ◌∷◌, if◌then◌else◌, ok, err}
use openclaw_rtc_plugin.Gateway.Identity.{
  Crypto, JsonFile, IdentityFile, missing, contents, KeyPair, HeldIdentity, load_or_create_identity,
  stored_value, read_identity, generate_device_identity, fingerprint_public_key,
  derive_public_key_raw, raw_key, starts_with, base64_url_encode, url_chars, strip_padding,
}
use openclaw_rtc_plugin.Gateway.Restart.{identity_for, Promises, restart_same}

abbrev crypto : Crypto
crypto = record {
  spki = λ pem. ok (1 ∷ 2 ∷ []);
  sha256_hex = λ raw. "a1";
  base64 = λ buffer. "a+/b==";
  sign = λ pem payload. ok (3 ∷ []);
}

abbrev keys : KeyPair
keys = record { public_key_pem = "public"; private_key_pem = "private" }

abbrev made : HeldIdentity
made = identity_for crypto keys (1 ∷ 2 ∷ [])

abbrev json : JsonFile
json = record {
  parse = λ s. if str_eq s "{made}\n" then ok (stored_value made 7) else err "Unexpected token";
  pretty = λ v. "{made}";
}

abbrev written : IdentityFile
written = contents ("{made}" ++ "\n")

promises : Promises crypto json keys 7
promises = record {
  hashed = λ raw. refl;
  public_some = refl;
  private_some = refl;
  read_back = λ raw. refl;
}

first_start : load_or_create_identity crypto json keys 7 none missing ≡ (ok made, written)
unfolding load_or_create_identity read_identity generate_device_identity fingerprint_public_key
    derive_public_key_raw raw_key starts_with stored_value
first_start = refl

restart_same_example :
    load_or_create_identity crypto json
      (record { public_key_pem = "other"; private_key_pem = "another" })
      9
      (some "EACCES")
      written
    ≡ (ok made, written)
restart_same_example =
    restart_same crypto json keys 7 promises none missing written made first_start
      (record { public_key_pem = "other"; private_key_pem = "another" }) 9 (some "EACCES")

encoded : base64_url_encode crypto (3 ∷ []) ≡ "a-_b"
unfolding base64_url_encode url_chars strip_padding
encoded = refl
