-- ===== src/Volc/Frame/Laws.antt =====
-- A frame that plugin/node/volc-client.ts builds is read back field by field.
use Prim.Native.Nat.{bit_and, bit_or}
use openclaw_rtc_plugin.Common.{
  Result, Result-cases, append-nil, ℕ, zero, suc, ◌+◌, ◌*◌, ◌/◌, ◌%◌, ◌^◌, ◌<◌, ◌≡◌, refl, ◌⊎◌, inl,
  inr, ap, some, ◌++◌, arith, length, take, take-append, subst, sym, ◌∙◌, ok, [],
}
use openclaw_rtc_plugin.Audio.{Buffer}
use openclaw_rtc_plugin.Volc.Frame.{
  FrameError, build_header, with_payload, type_bytes, uint32_be, read_fields,
}

-- The four high bits of a byte that was made from `t`.
abbrev high_bits : ℕ → ℕ
high_bits t = bit_and (bit_or (t * 16) 0 % 256 / 16) 15

lt_cases : (t bound : ℕ) → t < suc bound → (t ≡ bound) ⊎ (t < bound)
lt_cases t bound lt = ground arith

-- A law that holds at each number below a bound.
abbrev Holds : (ℕ → Type 0) → ℕ → Type 0
Holds P zero = Unit
Holds P (suc bound) = P bound × Holds P bound

Holds-at : (P : ℕ → Type 0) (bound t : ℕ) → Holds P bound → t < bound → P t
Holds-at P zero t h lt = absurd (omega arith)
Holds-at P (suc bound) t (top, below) lt = elim (lt_cases t bound lt) [
  | inl same ↦ subst P (sym same) top
  | inr less ↦ Holds-at P bound t below less
]

-- A value of four bits survives the shift into a byte and back.
nibble : (t : ℕ) → t < 16 → high_bits t ≡ t
nibble t small = Holds-at (λ n. high_bits n ≡ n) 16 t sixteen small
  where
    sixteen : Holds (λ n. high_bits n ≡ n) 16
    sixteen = (
      refl,
      (
        refl,
        (
          refl,
          (
            refl,
            (
              refl,
              (
                refl,
                (refl, (refl, (refl, (refl, (refl, (refl, (refl, (refl, (refl, (refl, tt)))))))))),
              ),
            ),
          ),
        ),
      ),
    )

size_back :
    (n : ℕ)
    → n < 2 ^ 32
    → n / 2 ^ 24 % 256 * 2 ^ 24 + n / 2 ^ 16 % 256 * 2 ^ 16 + n / 2 ^ 8 % 256 * 2 ^ 8 + n % 256 ≡ n
size_back n h = omega arith

payload_back :
    (payload rest : Buffer)
    → length payload < 2 ^ 32
    → (n : ℕ) → n ≡ length payload
    → take
        (n / 2 ^ 24 % 256 * 2 ^ 24 + n / 2 ^ 16 % 256 * 2 ^ 16 + n / 2 ^ 8 % 256 * 2 ^ 8 + n % 256)
        (payload ++ rest)
      ≡ payload
payload_back payload rest fits n e =
    ap (λ k. take k (payload ++ rest)) (size_back n (subst (λ k. k < 2 ^ 32) (sym e) fits))
    ∙ ap (λ k. take k (payload ++ rest)) e
    ∙ take-append payload rest

-- For a type and a serialization of four bits and a payload below 2 ^ 32 bytes, `buildHeader` gives
-- 8 bytes, and of these with the payload behind them the decoder reads the type, the serialization
-- and the whole payload, whatever follows.
pub read_fields-build_header :
    (msg_type serialization : ℕ) (payload rest : Buffer)
    → msg_type < 16
    → serialization < 16
    → length payload < 2 ^ 32
    → (header : Buffer) × (build_header msg_type serialization (length payload) ≡ ok header)
      × (length header ≡ 8)
      × (read_fields (header ++ payload ++ rest)
          ≡ some (record { msg_type = msg_type; serialization = serialization; payload = payload }))
unfolding build_header read_fields
read_fields-build_header msg_type serialization payload rest small small' fits = (
  type_bytes msg_type serialization ++ uint32_be (length payload),
  ground arith,
  refl,
  (λ i. some (record {
    msg_type = nibble msg_type small i;
    serialization = nibble serialization small' i;
    payload = payload_back payload rest fits (length payload) refl i;
  })),
)

build_header-fits :
    (msg_type serialization size : ℕ) (header : Buffer)
    → build_header msg_type serialization size ≡ ok header
    → size < 2 ^ 32
unfolding build_header
build_header-fits msg_type serialization size header h = ground arith

with_payload-ok :
    (r : Result FrameError Buffer) (header payload frame : Buffer)
    → r ≡ ok header
    → with_payload r payload ≡ ok frame
    → header ++ payload ++ [] ≡ frame
with_payload-ok r header payload frame made built = ground (arith, append-nil (header ++ payload))

-- A frame that was built is its header and its payload.
pub with_payload-read_fields :
    (msg_type serialization : ℕ) (payload frame : Buffer)
    → msg_type < 16
    → serialization < 16
    → with_payload (build_header msg_type serialization (length payload)) payload ≡ ok frame
    → read_fields frame
      ≡ some (record { msg_type = msg_type; serialization = serialization; payload = payload })
with_payload-read_fields msg_type serialization payload frame small small' built =
    elim (Result-cases (build_header msg_type serialization (length payload))) [
      | inl (e, failed) ↦ absurd (ground arith)
      | inr (header, made) ↦
          let fits = build_header-fits msg_type serialization (length payload) header made in
          let (h, made', eight, read) =
            read_fields-build_header msg_type serialization payload [] small small' fits in
          let same : h ++ payload ++ [] ≡ frame = with_payload-ok _ h payload frame made' built in
          subst
            (λ f.
              read_fields f
              ≡ some (record {
                msg_type = msg_type;
                serialization = serialization;
                payload = payload;
              }))
            same read
    ]
