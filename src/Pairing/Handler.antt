-- ===== src/Pairing/Handler.antt =====
-- main/main.c: `handle_received_message`, a function for each message that a state waits for.
pub mod Steps
use espnow_edhoc.Prelude.{ℕ, ◌+◌, Bool, true, false, not, Option, none, some, ◌==◌, if◌then◌else◌}
use espnow_edhoc.Memory.{zeros}
use espnow_edhoc.Config.{Config, responder_encryption_switch_delay_ms, initiator_key_test_delay_ms}
use espnow_edhoc.Platform.{EspErr, is_ok, Platform}
use espnow_edhoc.Firmware.{M, ◌>>=◌, ◌>>◌, return, call, checked, esp_error_check}
use espnow_edhoc.Wire.{MsgType, m1, m2, m3, ack, key_test, key_test_ack, type_code, Msg}
use espnow_edhoc.Session.{Status, is_status_ok, Out}
use espnow_edhoc.Ffi.{lakers_edhoc_max_message_len}
use espnow_edhoc.Session.Messages.{
  lakers_edhoc_process_message_1, lakers_edhoc_process_message_2, lakers_edhoc_process_message_3,
}
use espnow_edhoc.Pairing.{
  log_edhoc_message, PairingState, wait_m1, wait_m2, wait_m3, wait_edhoc_ack, wait_key_test,
  wait_key_test_ack, complete, failed, send_edhoc_payload, verify_handshake_ack, send_handshake_ack,
  derive_and_install_lmk, send_control_message, verify_control_payload,
}

-- `fail_pairing(state, ...)`: the state that it leaves
abbrev pub fail_pairing : {p : Platform} → M p PairingState
fail_pairing = return failed

-- a message buffer on the stack, with its capacity and its length
abbrev pub message_buffer : Out
message_buffer = record {
  output = some (zeros lakers_edhoc_max_message_len);
  output_capacity = lakers_edhoc_max_message_len;
  output_length = some 0;
}

abbrev pub length_of : Option ℕ → ℕ
length_of none = 0
length_of (some n) = n

-- A message that Lakers made is sent, and the state moves on; else pairing fails.
unfoldable pub send_generated :
    {p : Platform} → Config → MsgType → ℕ → PairingState → Status × Out → M p PairingState
unfolding send_edhoc_payload
send_generated cfg type seq next (status, out) =
    if is_status_ok status
    then (do
      e ← send_edhoc_payload cfg type seq out.output (length_of out.output_length)
      esp_error_check e
      return next)
    else fail_pairing

-- message 2, in `PAIR_STATE_WAIT_M2`
unfoldable pub on_m2 : {p : Platform} → Config → Msg → M p PairingState
unfolding send_generated
on_m2 cfg msg = do
  _ ← checked (log_edhoc_message (some msg.payload) msg.payload_len)
  r ← lakers_edhoc_process_message_2 (some msg.payload) msg.payload_len message_buffer
  send_generated cfg m3 (msg.seq + 1) wait_edhoc_ack r

after_ack_key : {p : Platform} → Config → Msg → EspErr → M p PairingState
after_ack_key {p} cfg msg err =
    if is_ok err
    then (do
      _ ← call (p.idf.v_task_delay (p.idf.pd_ms_to_ticks initiator_key_test_delay_ms))
      e ← send_control_message cfg key_test (msg.seq + 1)
      esp_error_check e
      return wait_key_test_ack)
    else fail_pairing

after_ack_check : {p : Platform} → Config → Msg → Bool → M p PairingState
unfolding after_ack_key
after_ack_check cfg msg true = do e ← derive_and_install_lmk cfg; after_ack_key cfg msg e
after_ack_check cfg msg false = fail_pairing

-- the completion acknowledgement, in `PAIR_STATE_WAIT_EDHOC_ACK`
unfoldable pub on_ack : {p : Platform} → Config → Msg → M p PairingState
unfolding after_ack_check
on_ack cfg msg = do verified ← checked (verify_handshake_ack msg); after_ack_check cfg msg verified

-- the last message of the initiator, in `PAIR_STATE_WAIT_KEY_TEST_ACK`
unfoldable pub on_key_test_ack : {p : Platform} → Msg → M p PairingState
on_key_test_ack msg = do
  verified ← checked (verify_control_payload msg)
  if verified then return complete else fail_pairing

-- message 1, in `PAIR_STATE_WAIT_M1`
unfoldable pub on_m1 : {p : Platform} → Config → Msg → M p PairingState
unfolding send_generated
on_m1 cfg msg = do
  _ ← checked (log_edhoc_message (some msg.payload) msg.payload_len)
  r ← lakers_edhoc_process_message_1 (some msg.payload) msg.payload_len message_buffer
  send_generated cfg m2 (msg.seq + 1) wait_m3 r

after_m3 : {p : Platform} → Config → Msg → Status → M p PairingState
after_m3 {p} cfg msg status =
    if is_status_ok status
    then (do
      e₁ ← send_handshake_ack cfg (msg.seq + 1)
      esp_error_check e₁
      _ ← call (p.idf.v_task_delay (p.idf.pd_ms_to_ticks responder_encryption_switch_delay_ms))
      e₂ ← derive_and_install_lmk cfg
      if is_ok e₂ then return wait_key_test else fail_pairing)
    else fail_pairing

-- message 3, in `PAIR_STATE_WAIT_M3`
unfoldable pub on_m3 : {p : Platform} → Config → Msg → M p PairingState
unfolding after_m3
on_m3 cfg msg = do
  _ ← checked (log_edhoc_message (some msg.payload) msg.payload_len)
  status ← lakers_edhoc_process_message_3 (some msg.payload) msg.payload_len
  after_m3 cfg msg status

after_key_test : {p : Platform} → Config → Msg → Bool → M p PairingState
after_key_test cfg msg true = do
  e ← send_control_message cfg key_test_ack (msg.seq + 1)
  esp_error_check e
  return complete
after_key_test cfg msg false = fail_pairing

-- the encrypted test of the key, in `PAIR_STATE_WAIT_KEY_TEST`
unfoldable pub on_key_test : {p : Platform} → Config → Msg → M p PairingState
unfolding after_key_test
on_key_test cfg msg = do
  verified ← checked (verify_control_payload msg)
  after_key_test cfg msg verified

-- the body of `handle_received_message` in a build with `DEVICE_IS_INITIATOR`
unfoldable pub handle_as_initiator : {p : Platform} → Config → Msg → PairingState → M p PairingState
handle_as_initiator cfg msg wait_m2 =
    if msg.type == type_code m2 then on_m2 cfg msg else return wait_m2
handle_as_initiator cfg msg wait_edhoc_ack =
    if msg.type == type_code ack then on_ack cfg msg else return wait_edhoc_ack
handle_as_initiator cfg msg wait_key_test_ack =
    if msg.type == type_code key_test_ack then on_key_test_ack msg else return wait_key_test_ack
handle_as_initiator cfg msg state = return state

-- the same in a build without it
unfoldable pub handle_as_responder : {p : Platform} → Config → Msg → PairingState → M p PairingState
handle_as_responder cfg msg wait_m1 =
    if msg.type == type_code m1 then on_m1 cfg msg else return wait_m1
handle_as_responder cfg msg wait_m3 =
    if msg.type == type_code m3 then on_m3 cfg msg else return wait_m3
handle_as_responder cfg msg wait_key_test =
    if msg.type == type_code key_test then on_key_test cfg msg else return wait_key_test
handle_as_responder cfg msg state = return state

-- The pairing state is passed in, and what `*state` then holds is returned.
unfoldable pub handle_received_message :
    {p : Platform} → Config → Msg → PairingState → M p PairingState
handle_received_message cfg msg state =
    if not (msg.session_id == cfg.edhoc_session_id)
    then fail_pairing
    else if cfg.device_is_initiator
    then handle_as_initiator cfg msg state
    else handle_as_responder cfg msg state
