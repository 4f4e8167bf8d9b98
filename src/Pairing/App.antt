-- ===== src/Pairing/App.antt =====
-- main/main.c: `app_task`, one round of its loop.
pub mod Loop
pub mod Reachable
pub mod Failed
pub mod Timing
use espnow_edhoc.Prelude.{
  ℕ, ◌+◌, Bool, true, false, not, ◌&&◌, Option, some, leb, if◌then◌else◌, ◌-◌, ◌^◌, ◌%◌,
}
use espnow_edhoc.Memory.{zeros}
use espnow_edhoc.Packet.{Packet, pos}
use espnow_edhoc.Config.{Config, edhoc_start_delay_ms}
use espnow_edhoc.Platform.{Platform}
use espnow_edhoc.Firmware.{M, ◌>>=◌, ◌>>◌, return, call, checked, esp_error_check}
use espnow_edhoc.EspNow.{espnow_transport_recv}
use espnow_edhoc.Wire.{m1, Msg, edhoc_transport_parse_rx}
use espnow_edhoc.Session.{Status, is_status_ok, Out}
use espnow_edhoc.Session.Messages.{lakers_edhoc_make_message_1}
use espnow_edhoc.Pairing.{PairingState, idle, wait_m1, wait_m2, failed, send_edhoc_payload}
use espnow_edhoc.Pairing.Handler.{message_buffer, length_of, handle_received_message}

-- the locals of `app_task`
pub record App : Type 0 where
  pub state : PairingState
  pub initiator_started : Bool
  pub boot_tick : ℕ

-- the locals before the loop
unfoldable pub app_start : {p : Platform} → Config → M p App
app_start {p} cfg = do
  tick ← call p.idf.x_task_get_tick_count
  return (record {
    state = if cfg.device_is_initiator then idle else wait_m1;
    initiator_started = false;
    boot_tick = tick;
  })

send_m1 : {p : Platform} → Config → App → Status × Out → M p (Bool × App)
unfolding send_edhoc_payload
send_m1 cfg app (status, out) =
    if is_status_ok status
    then (do
      e ← send_edhoc_payload cfg m1 1 out.output (length_of out.output_length)
      esp_error_check e
      return (true, record app { state = wait_m2; initiator_started = true }))
    else return (false, record app { state = failed; initiator_started = true })

-- `TickType_t` is 32 bits wide, and so wraps the difference of two ticks.
elapsed : ℕ → ℕ → ℕ
elapsed now since = (now + 2 ^ 32 - since) % 2 ^ 32

-- The start of the handshake, at the head of the loop; `false` is its `continue`.
pub start_if_due : {p : Platform} → Config → App → M p (Bool × App)
unfolding send_m1 elapsed
start_if_due {p} cfg app =
    if cfg.device_is_initiator && not app.initiator_started
    then (do
      now ← call p.idf.x_task_get_tick_count
      if leb (p.idf.pd_ms_to_ticks edhoc_start_delay_ms) (elapsed now app.boot_tick)
          then (do r ← lakers_edhoc_make_message_1 message_buffer; send_m1 cfg app r)
          else return (true, app))
    else return (true, app)

-- `= {0}`
abbrev pub zero_packet : Packet
zero_packet = record { src_mac = zeros 6; contents = zeros 250; data_len = pos 0 }

abbrev pub zero_msg : Msg
zero_msg = record {
  src_mac = zeros 6;
  type = 0;
  flags = 0;
  session_id = 0;
  seq = 0;
  frag_idx = 0;
  frag_count = 0;
  payload_len = 0;
  payload = zeros 192;
}

handle_parsed : {p : Platform} → Config → App → Bool × Option Msg → M p App
handle_parsed cfg app (true, some msg) = do
  state ← handle_received_message cfg msg app.state
  return (record app { state = state })
handle_parsed cfg app _ = return app

handle_rx : {p : Platform} → Config → App → Bool × Option Packet → M p App
unfolding handle_parsed
handle_rx cfg app (true, rx) = do
  r ← checked (edhoc_transport_parse_rx rx (some zero_msg))
  handle_parsed cfg app r
handle_rx cfg app (false, rx) = return app

receive_once : {p : Platform} → Config → Bool × App → M p App
unfolding handle_rx
receive_once cfg (false, app) = return app
receive_once {p} cfg (true, app) = do
  r ← espnow_transport_recv (some zero_packet) (p.idf.pd_ms_to_ticks 100)
  handle_rx cfg app r

-- one round of the loop of `app_task`
unfoldable pub app_round : {p : Platform} → Config → App → M p App
unfolding start_if_due receive_once
app_round cfg app = do started ← start_if_due cfg app; receive_once cfg started
