-- ===== src/Volc/Frame.antt =====
-- The frames of plugin/node/volc-client.ts: `buildHeader`, the two senders, and the fields that
-- `handleMessage` reads.
pub mod Laws
use Prim.Native.Nat.{bit_and, bit_or}
use openclaw_rtc_plugin.Common.{
  ℕ, ◌+◌, ◌*◌, ◌/◌, ◌%◌, ◌^◌, Option, none, some, List, [], ◌∷◌, ◌++◌, ltb, if◌then◌else◌, length,
  take, drop, get_elem?, Result, ok, err,
}
use openclaw_rtc_plugin.Audio.{Buffer}
use openclaw_rtc_plugin.Json.{Value}
use openclaw_rtc_plugin.Volc.{Platform}

abbrev pub protocol_version : ℕ
protocol_version = 0x01

abbrev pub header_size_units : ℕ
header_size_units = 0x01

abbrev pub msg_full_client : ℕ
msg_full_client = 0x01

abbrev pub msg_audio_only_client : ℕ
msg_audio_only_client = 0x09

abbrev pub msg_audio_only_server : ℕ
msg_audio_only_server = 0x0b

abbrev pub msg_error_server : ℕ
msg_error_server = 0x0f

abbrev pub serial_json : ℕ
serial_json = 0x01

abbrev pub serial_none : ℕ
serial_none = 0x00

abbrev pub compress_none : ℕ
compress_none = 0x00

-- The RangeError of `writeUInt32BE`.
pub data FrameError : Type 0 where
  too_long : ℕ → FrameError

-- `buf.writeUInt32BE`
abbrev pub uint32_be : ℕ → Buffer
uint32_be n = n / 2 ^ 24 % 256 ∷ n / 2 ^ 16 % 256 ∷ n / 2 ^ 8 % 256 ∷ n % 256 ∷ []

-- The four bytes of `buildHeader` before the size. A store to a Buffer keeps 8 bits.
abbrev pub type_bytes : ℕ → ℕ → Buffer
type_bytes msg_type serialization =
    bit_or (protocol_version * 16) header_size_units % 256
    ∷ bit_or (msg_type * 16) 0x00 % 256
    ∷ bit_or (serialization * 16) compress_none % 256
    ∷ 0x00
    ∷ []

unfoldable pub build_header : ℕ → ℕ → ℕ → Result FrameError Buffer
build_header msg_type serialization size =
    if ltb size (2 ^ 32)
    then ok (type_bytes msg_type serialization ++ uint32_be size)
    else err (too_long size)

abbrev pub with_payload : Result FrameError Buffer → Buffer → Result FrameError Buffer
with_payload (ok header) payload = ok (header ++ payload)
with_payload (err e) payload = err e

-- The frame that `sendJsonFrame` hands to the socket.
unfoldable pub json_frame : Platform → Value → Result FrameError Buffer
json_frame platform v =
    let payload = platform.utf8_encode (platform.json_stringify v) in
    with_payload (build_header msg_full_client serial_json (length payload)) payload

-- The frame that `sendAudioFrame` hands to the socket.
unfoldable pub audio_frame : Buffer → Result FrameError Buffer
audio_frame pcm = with_payload (build_header msg_audio_only_client serial_none (length pcm)) pcm

pub record FrameFields : Type 0 where
  pub msg_type : ℕ
  pub serialization : ℕ
  pub payload : Buffer

-- What `handleMessage` reads from a message: nothing if it is shorter than a header.
unfoldable pub read_fields : Buffer → Option FrameFields
read_fields (_ ∷ b1 ∷ b2 ∷ _ ∷ s0 ∷ s1 ∷ s2 ∷ s3 ∷ body) = some (record {
  msg_type = bit_and (b1 / 16) 0x0f;
  serialization = bit_and (b2 / 16) 0x0f;
  payload = take (s0 * 2 ^ 24 + s1 * 2 ^ 16 + s2 * 2 ^ 8 + s3) body;
})
read_fields _ = none
