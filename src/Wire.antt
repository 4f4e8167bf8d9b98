-- ===== src/Wire.antt =====
-- main/edhoc_transport.c and .h: the frame of one EDHOC message. The header is a packed struct on
-- a little-endian CPU: 12 bytes, each 16-bit field low byte first.
pub mod Sending
pub mod Parsing
pub mod Receiving
pub mod RoundTrip
use Prim.Native.String.{String}
use espnow_edhoc.Prelude.{
  ℕ, ◌+◌, ◌*◌, ◌/◌, ◌%◌, ◌^◌, ◌-◌, Bool, true, false, not, ◌&&◌, ◌||◌, Option, none, some, List, [],
  ◌∷◌, ltb, leb, ◌==◌, if◌then◌else◌, drop,
}
use espnow_edhoc.Memory.{zeros, memcpy, is_null, pointee}
use espnow_edhoc.Packet.{
  ℤ, pos, negsuc, Packet, int_lt, espnow_transport_max_payload_len, esp_now_eth_alen,
}
use espnow_edhoc.Platform.{EspErr, esp_err_invalid_arg, esp_err_invalid_size, Platform}
use espnow_edhoc.Firmware.{M, ◌>>=◌, return, checked}
use espnow_edhoc.EspNow.{espnow_transport_send}

abbrev pub edhoc_transport_magic : ℕ
edhoc_transport_magic = 0xE7

abbrev pub edhoc_transport_version : ℕ
edhoc_transport_version = 1

abbrev pub edhoc_transport_max_payload_len : ℕ
edhoc_transport_max_payload_len = 192

-- `edhoc_transport_msg_type_t`
pub data MsgType : Type 0 where
  m1 m2 m3 ack key_test key_test_ack : MsgType

abbrev pub type_code : MsgType → ℕ
type_code m1 = 0x10
type_code m2 = 0x11
type_code m3 = 0x12
type_code ack = 0x13
type_code key_test = 0x20
type_code key_test_ack = 0x21

unfoldable pub edhoc_transport_type_str : ℕ → String
edhoc_transport_type_str type =
    if type == type_code m1
    then "EDHOC_M1"
    else if type == type_code m2
    then "EDHOC_M2"
    else if type == type_code m3
    then "EDHOC_M3"
    else if type == type_code ack
    then "EDHOC_ACK"
    else if type == type_code key_test
    then "KEY_TEST"
    else if type == type_code key_test_ack
    then "KEY_TEST_ACK"
    else "UNKNOWN"

-- `edhoc_transport_msg_t`
pub record Msg : Type 0 where
  pub src_mac : List ℕ
  pub type : ℕ
  pub flags : ℕ
  pub session_id : ℕ
  pub seq : ℕ
  pub frag_idx : ℕ
  pub frag_count : ℕ
  pub payload_len : ℕ
  pub payload : List ℕ

-- `edhoc_transport_hdr_t`
pub record Hdr : Type 0 where
  pub magic : ℕ
  pub version : ℕ
  pub type : ℕ
  pub flags : ℕ
  pub session_id : ℕ
  pub seq : ℕ
  pub frag_idx : ℕ
  pub frag_count : ℕ
  pub payload_len : ℕ

-- `sizeof(edhoc_transport_hdr_t)`
abbrev pub header_len : ℕ
header_len = 12

abbrev pub u8 : ℕ → ℕ
u8 n = n % 256

abbrev pub u16 : ℕ → ℕ
u16 n = n % 65536

-- the bytes of the struct in memory
unfoldable pub hdr_bytes : Hdr → List ℕ
hdr_bytes h =
    h.magic
    ∷ h.version
    ∷ h.type
    ∷ h.flags
    ∷ u8 h.session_id
    ∷ (h.session_id / 256)
    ∷ u8 h.seq
    ∷ (h.seq / 256)
    ∷ h.frag_idx
    ∷ h.frag_count
    ∷ u8 h.payload_len
    ∷ (h.payload_len / 256)
    ∷ []

-- `(const edhoc_transport_hdr_t *)data`; `none` if the array ends before the struct
unfoldable pub read_hdr : List ℕ → Option Hdr
read_hdr (b₀ ∷ b₁ ∷ b₂ ∷ b₃ ∷ b₄ ∷ b₅ ∷ b₆ ∷ b₇ ∷ b₈ ∷ b₉ ∷ b₁₀ ∷ b₁₁ ∷ rest) = some (record {
  magic = b₀;
  version = b₁;
  type = b₂;
  flags = b₃;
  session_id = b₄ + 256 * b₅;
  seq = b₆ + 256 * b₇;
  frag_idx = b₈;
  frag_count = b₉;
  payload_len = b₁₀ + 256 * b₁₁;
})
read_hdr _ = none

-- the header that `edhoc_transport_send` fills in; its parameters `session_id` and `seq` are
-- `uint16_t`, and the conversion of the arguments is made here
unfoldable pub send_hdr : MsgType → ℕ → ℕ → ℕ → Hdr
send_hdr type session_id seq payload_len = record {
  magic = edhoc_transport_magic;
  version = edhoc_transport_version;
  type = type_code type;
  flags = 0;
  session_id = u16 session_id;
  seq = u16 seq;
  frag_idx = 0;
  frag_count = 1;
  payload_len = u16 payload_len;
}

copy_payload : List ℕ → Option (List ℕ) → ℕ → Option (List ℕ)
copy_payload frame payload payload_len =
    if ltb 0 payload_len then memcpy frame header_len (pointee payload) payload_len else some frame

unfoldable pub edhoc_transport_send :
    {p : Platform} → Option (List ℕ) → MsgType → ℕ → ℕ → Option (List ℕ) → ℕ → M p EspErr
unfolding copy_payload send_hdr
edhoc_transport_send peer_mac type session_id seq payload payload_len =
    if is_null peer_mac || (ltb 0 payload_len && is_null payload)
    then return esp_err_invalid_arg
    else if ltb edhoc_transport_max_payload_len payload_len
    then return esp_err_invalid_size
    else if ltb espnow_transport_max_payload_len (header_len + payload_len)
    then return esp_err_invalid_size
    else do
      frame ← checked (
          memcpy (zeros espnow_transport_max_payload_len) 0
            (hdr_bytes (send_hdr type session_id seq payload_len)) header_len)
      full ← checked (copy_payload frame payload payload_len)
      espnow_transport_send peer_mac (some full) (header_len + payload_len)

-- `(size_t)n` on a 32-bit CPU
abbrev pub to_size_t : ℤ → ℕ
to_size_t (pos n) = n
to_size_t (negsuc n) = 2 ^ 32 - 1 - n

-- the copies into `out_msg` after the last guard
pub fill_msg : Packet → Hdr → Option Msg
fill_msg rx hdr = elim (memcpy (zeros esp_now_eth_alen) 0 rx.src_mac esp_now_eth_alen) [
  | none ↦ none
  | some mac ↦
      elim (if ltb 0 hdr.payload_len
        then memcpy (zeros edhoc_transport_max_payload_len) 0 (drop header_len rx.contents)
            hdr.payload_len
        else some (zeros edhoc_transport_max_payload_len)) [
          | none ↦ none
          | some payload ↦ some (record {
            src_mac = mac;
            type = hdr.type;
            flags = hdr.flags;
            session_id = hdr.session_id;
            seq = hdr.seq;
            frag_idx = hdr.frag_idx;
            frag_count = hdr.frag_count;
            payload_len = hdr.payload_len;
            payload = payload;
          })
        ]
]

-- the guards on the header, in the order of the code: `true` is a frame that is taken
pub hdr_accepted : Hdr → ℤ → Bool
hdr_accepted hdr data_len =
    if not (hdr.magic == edhoc_transport_magic) || not (hdr.version == edhoc_transport_version)
    then false
    else if hdr.frag_count == 0 || leb hdr.frag_count hdr.frag_idx
    then false
    else if ltb edhoc_transport_max_payload_len hdr.payload_len
    then false
    else if ltb (to_size_t data_len) (header_len + hdr.payload_len)
    then false
    else true

-- What the call returns, and the message that `out_msg` then points to; `none` is an access
-- outside an array.
parse_packet : Packet → Msg → Option (Bool × Option Msg)
unfolding fill_msg hdr_accepted
parse_packet rx out_msg =
    if int_lt rx.data_len header_len
    then some (false, some out_msg)
    else elim (read_hdr rx.contents) [
      | none ↦ none
      | some hdr ↦
          if hdr_accepted hdr rx.data_len
          then elim (fill_msg rx hdr) [ none ↦ none | some msg ↦ some (true, some msg) ]
          else some (false, some out_msg)
    ]

unfoldable pub edhoc_transport_parse_rx : Option Packet → Option Msg → Option (Bool × Option Msg)
unfolding parse_packet
edhoc_transport_parse_rx none out_msg = some (false, out_msg)
edhoc_transport_parse_rx (some rx) none = some (false, none)
edhoc_transport_parse_rx (some rx) (some out_msg) = parse_packet rx out_msg
