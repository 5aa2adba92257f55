-- ===== src/Gateway/Restart.antt =====
-- The device identity of plugin/node/gateway-client.ts over a restart.
use Prim.Native.String.{◌++◌}
use openclaw_rtc_plugin.Common.{
  ℕ, ◌≡◌, refl, ap, subst, ◌∙◌, String, false, Option, none, some, Result, ok, err, ◌>>=◌, arith,
}
use openclaw_rtc_plugin.Common.Texts.{is_empty}
use openclaw_rtc_plugin.Json.{str, get}
use openclaw_rtc_plugin.Audio.{Buffer}
use openclaw_rtc_plugin.Gateway.Identity.{
  Crypto, JsonFile, IdentityFile, contents, KeyPair, HeldIdentity, raw_key, derive_public_key_raw,
  fingerprint_public_key, generate_device_identity, identity_of, identity_in, read_identity,
  stored_value, create_identity, or_create, load_or_create_identity,
}

-- The identity of a key pair whose raw public key this is.
abbrev pub identity_for : Crypto → KeyPair → Buffer → HeldIdentity
identity_for crypto keys raw = record {
  device_id = str (crypto.sha256_hex raw);
  public_key_pem = str keys.public_key_pem;
  private_key_pem = str keys.private_key_pem;
}

-- What node:crypto and JSON promise of a new key pair at a time: hashes and the texts of the keys are
-- not empty, and an identity that is written is read back, also with a line feed behind it.
pub record Promises (crypto : Crypto) (json : JsonFile) (keys : KeyPair) (now : ℕ) : Type 0 where
  pub hashed : (raw : Buffer) → is_empty (crypto.sha256_hex raw) ≡ false
  pub public_some : is_empty keys.public_key_pem ≡ false
  pub private_some : is_empty keys.private_key_pem ≡ false
  pub read_back :
      (raw : Buffer)
      → json.parse (json.pretty (stored_value (identity_for crypto keys raw) now) ++ "\n")
        ≡ ok (stored_value (identity_for crypto keys raw) now)

abbrev held_of : Result String HeldIdentity → Option HeldIdentity
held_of (ok i) = some i
held_of (err e) = none

abbrev identity_or : HeldIdentity → Result String HeldIdentity → HeldIdentity
identity_or d (ok i) = i
identity_or d (err e) = d

moved :
    (json : JsonFile) (f f' : IdentityFile) (i identity : HeldIdentity)
    → read_identity json f ≡ some i
    → Path (Result String HeldIdentity × IdentityFile) (ok i, f) (ok identity, f')
    → read_identity json f' ≡ some identity
moved json f f' i identity h at =
    subst (λ x. read_identity json x ≡ some identity) (ap (λ x. x.1) at)
      (h ∙ ap (λ x. held_of x.0) at)

module _ (crypto : Crypto) (json : JsonFile) (keys : KeyPair) (now : ℕ)
    (promises : Promises crypto json keys now) where
  identity_of-stored_value :
      (raw : Buffer)
      → identity_of (stored_value (identity_for crypto keys raw) now)
        ≡ some (identity_for crypto keys raw)
  unfolding identity_of stored_value get
  identity_of-stored_value raw =
      simp (promises.hashed raw, promises.public_some, promises.private_some)

  -- What is written is read.
  read_written :
      (raw : Buffer)
      → read_identity json
          (contents (json.pretty (stored_value (identity_for crypto keys raw) now) ++ "\n"))
        ≡ some (identity_for crypto keys raw)
  unfolding read_identity
  read_written raw = ap identity_in (promises.read_back raw) ∙ identity_of-stored_value raw

  generated :
      (r : Result String Buffer) (i : HeldIdentity)
      → (((r >>= λ spki. ok (raw_key spki)) >>= λ raw. ok (crypto.sha256_hex raw)) >>= λ device_id.
          ok (record {
            device_id = str device_id;
            public_key_pem = str keys.public_key_pem;
            private_key_pem = str keys.private_key_pem;
          }))
        ≡ ok i
      → (raw : Buffer) × (identity_for crypto keys raw ≡ i)
  generated (err e) i h = absurd (ground (arith, h))
  generated (ok spki) i h = (raw_key spki, ap (identity_or i) h)

  generate_device_identity_for :
      (i : HeldIdentity)
      → generate_device_identity crypto keys ≡ ok i
      → (raw : Buffer) × (identity_for crypto keys raw ≡ i)
  unfolding generate_device_identity fingerprint_public_key derive_public_key_raw
  generate_device_identity_for i h = generated (crypto.spki keys.public_key_pem) i h

  settles :
      (refused : Option String) (f f' : IdentityFile) (identity : HeldIdentity)
      → (g : Result String HeldIdentity) → generate_device_identity crypto keys ≡ g
      → (o : Option HeldIdentity) → read_identity json f ≡ o
      → or_create (create_identity json now refused f g) f o ≡ (ok identity, f')
      → read_identity json f' ≡ some identity
  unfolding stored_value
  settles refused f f' identity g made (some i) h at = moved json f f' i identity h at
  settles none f f' identity (ok i) made none h at =
      let (raw, same) = generate_device_identity_for i made in
      moved json (contents (json.pretty (stored_value i now) ++ "\n")) f' i identity
        (subst
          (λ j. read_identity json (contents (json.pretty (stored_value j now) ++ "\n")) ≡ some j)
          same (read_written raw))
        at
  settles (some e) f f' identity (ok i) made none h at =
      absurd (ground (arith, ap (λ x. held_of x.0) at))
  settles refused f f' identity (err e) made none h at =
      absurd (ground (arith, ap (λ x. held_of x.0) at))

  -- Once the constructor has an identity, read or made, a later one finds the same identity in the
  -- file and leaves the file, whatever keys and time it has and whether or not it could write: if
  -- hashes and the texts of the keys are not empty and what is written is read back.
  pub restart_same :
      (refused : Option String) (f f' : IdentityFile) (identity : HeldIdentity)
      → load_or_create_identity crypto json keys now refused f ≡ (ok identity, f')
      → (keys' : KeyPair) (now' : ℕ) (refused' : Option String)
      → load_or_create_identity crypto json keys' now' refused' f' ≡ (ok identity, f')
  unfolding load_or_create_identity
  restart_same refused f f' identity at keys' now' refused' =
      ap
        (or_create (create_identity json now' refused' f' (generate_device_identity crypto keys'))
          f')
        (settles refused f f' identity (generate_device_identity crypto keys) refl
          (read_identity json f) refl at)
