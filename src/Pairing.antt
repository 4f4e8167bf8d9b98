-- ===== src/Pairing.antt =====
-- main/main.c: the pairing state machine of one board: its states, payloads and the steps that its
-- handlers share. The role, a build-time switch in the source, is a field of the configuration.
-- Of the log lines only the dumps, which read the buffers, are modelled.
pub mod Effects
pub mod Key
pub mod Agreement
pub mod Invariant
pub mod Handler
pub mod App
use Prim.Native.Nat.{bit_xor}
use Prim.Native.String.{String}
use espnow_edhoc.Prelude.{
  ℕ, Bool, true, false, Option, none, some, List, [], ◌∷◌, ◌==◌, if◌then◌else◌, length, ltb,
}
use espnow_edhoc.Memory.{zeros, memcmp_eq, pointee, read_bytes}
use espnow_edhoc.Config.{Config}
use espnow_edhoc.Platform.{EspErr, esp_fail, esp_err_invalid_arg, Platform}
use espnow_edhoc.Firmware.{M, ◌>>=◌, ◌>>◌, return, checked}
use espnow_edhoc.Wire.{MsgType, ack, key_test, key_test_ack, type_code, Msg, edhoc_transport_send}
use espnow_edhoc.Exporter.{edhoc_exporter_log_lmk_summary}
use espnow_edhoc.KeyManager.{key_manager_enable_derived_espnow_encryption}
use espnow_edhoc.Session.{Status, is_status_ok, espnow_lmk_len}
use espnow_edhoc.Session.Messages.Export.{lakers_edhoc_export_espnow_lmk}

-- "LAKERS_EDHOC_COMPLETE"
abbrev pub edhoc_handshake_ack_payload : List ℕ
edhoc_handshake_ack_payload =
    b'L' ∷ b'A' ∷ b'K' ∷ b'E' ∷ b'R' ∷ b'S' ∷ b'_' ∷ b'E' ∷ b'D' ∷ b'H' ∷ b'O' ∷ b'C' ∷ b'_' ∷ b'C'
    ∷ b'O' ∷ b'M' ∷ b'P' ∷ b'L' ∷ b'E' ∷ b'T' ∷ b'E' ∷ []

-- "ENCRYPTED_KEY_TEST_FROM_INITIATOR"
abbrev pub key_test_payload : List ℕ
key_test_payload =
    b'E' ∷ b'N' ∷ b'C' ∷ b'R' ∷ b'Y' ∷ b'P' ∷ b'T' ∷ b'E' ∷ b'D' ∷ b'_' ∷ b'K' ∷ b'E' ∷ b'Y' ∷ b'_'
    ∷ b'T' ∷ b'E' ∷ b'S' ∷ b'T' ∷ b'_' ∷ b'F' ∷ b'R' ∷ b'O' ∷ b'M' ∷ b'_' ∷ b'I' ∷ b'N' ∷ b'I'
    ∷ b'T' ∷ b'I' ∷ b'A' ∷ b'T' ∷ b'O' ∷ b'R' ∷ []

-- "ENCRYPTED_KEY_TEST_ACK_FROM_RESPONDER"
abbrev pub key_test_ack_payload : List ℕ
key_test_ack_payload =
    b'E' ∷ b'N' ∷ b'C' ∷ b'R' ∷ b'Y' ∷ b'P' ∷ b'T' ∷ b'E' ∷ b'D' ∷ b'_' ∷ b'K' ∷ b'E' ∷ b'Y' ∷ b'_'
    ∷ b'T' ∷ b'E' ∷ b'S' ∷ b'T' ∷ b'_' ∷ b'A' ∷ b'C' ∷ b'K' ∷ b'_' ∷ b'F' ∷ b'R' ∷ b'O' ∷ b'M'
    ∷ b'_' ∷ b'R' ∷ b'E' ∷ b'S' ∷ b'P' ∷ b'O' ∷ b'N' ∷ b'D' ∷ b'E' ∷ b'R' ∷ []

-- `pairing_state_t`
pub data PairingState : Type 0 where
  idle wait_m1 wait_m2 wait_m3 wait_edhoc_ack wait_key_test wait_key_test_ack : PairingState
  complete failed : PairingState

-- its names in the log; the `default` is for numbers that are no constant
unfoldable pub pairing_state_str : PairingState → String
pairing_state_str idle = "IDLE"
pairing_state_str wait_m1 = "WAIT_M1"
pairing_state_str wait_m2 = "WAIT_M2"
pairing_state_str wait_m3 = "WAIT_M3"
pairing_state_str wait_edhoc_ack = "WAIT_EDHOC_ACK"
pairing_state_str wait_key_test = "WAIT_KEY_TEST"
pairing_state_str wait_key_test_ack = "WAIT_KEY_TEST_ACK"
pairing_state_str complete = "COMPLETE"
pairing_state_str failed = "FAILED"

-- `payload_len < 32 ? payload_len : 32`
abbrev pub preview_len : ℕ → ℕ
preview_len payload_len = if ltb payload_len 32 then payload_len else 32

-- The bytes that `log_edhoc_message` dumps; `none` is a read outside an array.
unfoldable pub log_edhoc_message : Option (List ℕ) → ℕ → Option (List ℕ)
log_edhoc_message payload payload_len =
    if ltb 0 (preview_len payload_len)
    then read_bytes (pointee payload) (preview_len payload_len)
    else some []

unfoldable pub send_edhoc_payload :
    {p : Platform} → Config → MsgType → ℕ → Option (List ℕ) → ℕ → M p EspErr
send_edhoc_payload cfg type seq payload payload_len = do
  _ ← checked (log_edhoc_message payload payload_len)
  edhoc_transport_send (some cfg.peer_mac) type cfg.edhoc_session_id seq payload payload_len

-- `payload_len != len || memcmp(payload, expected, len) != 0`, negated
unfoldable pub payload_is : Msg → List ℕ → Option Bool
payload_is msg expected =
    if msg.payload_len == length expected
    then memcmp_eq msg.payload expected (length expected)
    else some false

unfoldable pub verify_handshake_ack : Msg → Option Bool
unfolding payload_is
verify_handshake_ack msg = payload_is msg edhoc_handshake_ack_payload

unfoldable pub send_handshake_ack : {p : Platform} → Config → ℕ → M p EspErr
unfolding send_edhoc_payload
send_handshake_ack cfg seq =
    send_edhoc_payload cfg ack seq (some edhoc_handshake_ack_payload)
      (length edhoc_handshake_ack_payload)

-- `lmk[0] ^= 0x01`, in a build with `MILESTONE9_CORRUPT_LMK_FOR_TEST`
unfoldable pub corrupt_lmk : Bool → List ℕ → List ℕ
corrupt_lmk false lmk = lmk
corrupt_lmk true [] = []
corrupt_lmk true (b ∷ lmk) = bit_xor b 0x01 ∷ lmk

install_lmk : {p : Platform} → Config → Status × Option (List ℕ) → M p EspErr
unfolding corrupt_lmk
install_lmk {p} cfg (status, lmk) =
    if is_status_ok status
    then (do
      let key = corrupt_lmk cfg.milestone9_corrupt_lmk_for_test (pointee lmk)
      _ ← checked (edhoc_exporter_log_lmk_summary p.mbedtls (some key))
      key_manager_enable_derived_espnow_encryption (some cfg.peer_mac) (some key))
    else return esp_fail

unfoldable pub derive_and_install_lmk : {p : Platform} → Config → M p EspErr
unfolding install_lmk
derive_and_install_lmk cfg = do
  r ← lakers_edhoc_export_espnow_lmk (some (zeros espnow_lmk_len))
  install_lmk cfg r

-- the payload that `send_control_message` and `verify_control_payload` choose by the type
unfoldable pub control_payload : ℕ → Option (List ℕ)
control_payload type =
    if type == type_code key_test
    then some key_test_payload
    else if type == type_code key_test_ack
    then some key_test_ack_payload
    else none

unfoldable pub send_control_payload :
    {p : Platform} → Config → MsgType → ℕ → Option (List ℕ) → M p EspErr
send_control_payload cfg type seq none = return esp_err_invalid_arg
send_control_payload cfg type seq (some payload) =
    edhoc_transport_send (some cfg.peer_mac) type cfg.edhoc_session_id seq (some payload)
      (length payload)

unfoldable pub send_control_message : {p : Platform} → Config → MsgType → ℕ → M p EspErr
unfolding send_control_payload control_payload
send_control_message cfg type seq =
    send_control_payload cfg type seq (control_payload (type_code type))

unfoldable pub check_payload : Msg → Option (List ℕ) → Option Bool
unfolding payload_is
check_payload msg none = some false
check_payload msg (some expected) = payload_is msg expected

unfoldable pub verify_control_payload : Msg → Option Bool
unfolding control_payload check_payload
verify_control_payload msg = check_payload msg (control_payload msg.type)
