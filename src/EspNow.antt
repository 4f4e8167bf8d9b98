-- ===== src/EspNow.antt =====
-- main/espnow_transport.c: the receive queue, the peer table and frames of at most 250 bytes over
-- ESP-NOW. Log lines are left out.
pub mod Receiving
pub mod Peers
pub mod Start
pub mod Traffic
use espnow_edhoc.Prelude.{
  ℕ, suc, Bool, true, false, ◌||◌, Option, none, some, List, ltb, ◌==◌, if◌then◌else◌,
}
use espnow_edhoc.Memory.{zeros, memcpy, read_bytes, is_null, pointee}
use espnow_edhoc.Packet.{
  ℤ, pos, Packet, espnow_transport_rx_queue_len, espnow_transport_max_payload_len, esp_now_eth_alen,
}
use espnow_edhoc.Platform.{
  EspErr, esp_ok, esp_err_no_mem, esp_err_invalid_arg, is_ok, PeerInfo, wifi_if_sta, Platform,
}
use espnow_edhoc.Firmware.{returned, fault, M, ◌>>=◌, ◌>>◌, return, call, checked, esp_error_check}

-- `ESP_NOW_KEY_LEN`
abbrev pub esp_now_key_len : ℕ
esp_now_key_len = 16

-- `ESP_RETURN_ON_ERROR(err, ...); rest`
abbrev pub esp_return_on_error : {p : Platform} → EspErr → M p EspErr → M p EspErr
esp_return_on_error err rest = if is_ok err then rest else return err

unfoldable pub wifi_init : {p : Platform} → ℕ → M p (Unit {0})
wifi_init {p} channel = do
  e₁ ← call p.idf.esp_netif_init
  esp_error_check e₁
  e₂ ← call p.idf.esp_event_loop_create_default
  esp_error_check e₂
  e₃ ← call p.idf.esp_wifi_init
  esp_error_check e₃
  e₄ ← call p.idf.esp_wifi_set_storage
  esp_error_check e₄
  e₅ ← call p.idf.esp_wifi_set_mode
  esp_error_check e₅
  e₆ ← call p.idf.esp_wifi_start
  esp_error_check e₆
  e₇ ← call (p.idf.esp_wifi_set_channel channel)
  esp_error_check e₇

set_channel : {p : Platform} → ℕ → M p (Unit {0})
set_channel channel fw = returned tt (record fw { s_channel = channel })

set_rx_queue : {p : Platform} → Option p.Queue → M p (Unit {0})
set_rx_queue q fw = returned tt (record fw { s_rx_queue = q })

-- the calls of ESP-NOW at the end of `espnow_transport_init`
espnow_init : {p : Platform} → M p EspErr
espnow_init {p} = do
  e₁ ← call p.idf.esp_now_init
  esp_return_on_error e₁ do
    e₂ ← call p.idf.esp_now_register_send_cb
    esp_return_on_error e₂ do
      e₃ ← call p.idf.esp_now_register_recv_cb
      esp_return_on_error e₃ do _ ← call p.idf.esp_now_get_version; return esp_ok

unfoldable pub espnow_transport_init : {p : Platform} → ℕ → M p EspErr
unfolding wifi_init set_channel set_rx_queue espnow_init
espnow_transport_init {p} channel = do
  set_channel channel
  wifi_init channel
  q ← call (p.idf.x_queue_create espnow_transport_rx_queue_len)
  set_rx_queue q
  if is_null q then return esp_err_no_mem else espnow_init

unfoldable pub espnow_transport_set_pmk : {p : Platform} → Option (List ℕ) → M p EspErr
espnow_transport_set_pmk none = return esp_err_invalid_arg
espnow_transport_set_pmk {p} (some pmk) = call (p.idf.esp_now_set_pmk pmk)

-- the last part of `espnow_transport_add_peer`: change the peer if the table has it
install_peer : {p : Platform} → List ℕ → PeerInfo → M p EspErr
install_peer {p} peer_mac peer = do
  exists ← call (p.idf.esp_now_is_peer_exist peer_mac)
  if exists then call (p.idf.esp_now_mod_peer peer) else call (p.idf.esp_now_add_peer peer)

-- the peer with the LMK copied in, if it is to be encrypted
add_peer_key : {p : Platform} → Bool → Option (List ℕ) → List ℕ → PeerInfo → M p EspErr
unfolding install_peer
add_peer_key false lmk peer_mac peer = install_peer peer_mac peer
add_peer_key true none peer_mac peer = return esp_err_invalid_arg
add_peer_key true (some lmk) peer_mac peer = do
  key ← checked (memcpy (zeros esp_now_key_len) 0 lmk esp_now_key_len)
  install_peer peer_mac (record peer { lmk = key })

unfoldable pub espnow_transport_add_peer :
    {p : Platform} → List ℕ → Bool → Option (List ℕ) → M p EspErr
unfolding add_peer_key
espnow_transport_add_peer peer_mac encrypted lmk fw =
    (do
      addr ← checked (memcpy (zeros esp_now_eth_alen) 0 peer_mac esp_now_eth_alen)
      add_peer_key encrypted lmk peer_mac (record {
        peer_addr = addr;
        lmk = zeros esp_now_key_len;
        channel = fw.s_channel;
        ifidx = wifi_if_sta;
        encrypt = encrypted;
      }))
      fw

unfoldable pub espnow_transport_send :
    {p : Platform} → Option (List ℕ) → Option (List ℕ) → ℕ → M p EspErr
espnow_transport_send {p} peer_mac buffer len =
    if is_null peer_mac
      || (is_null buffer || (len == 0 || ltb espnow_transport_max_payload_len len))
    then return esp_err_invalid_arg
    else do
      frame ← checked (read_bytes (pointee buffer) len)
      call (p.idf.esp_now_send (pointee peer_mac) frame)

-- `xQueueSend(s_rx_queue, &packet, 0)`, whose contract asks for a queue; a full queue drops it
queue_packet : {p : Platform} → Option p.Queue → Packet → M p (Unit {0})
queue_packet none packet = λ fw. fault
queue_packet {p} (some q) packet = do _ ← call (p.idf.x_queue_send q packet); return tt

-- the part of `espnow_recv_cb` below its first guard
accept_packet : {p : Platform} → List ℕ → List ℕ → ℕ → M p (Unit {0})
unfolding queue_packet
accept_packet src_addr bytes n = if ltb espnow_transport_max_payload_len n then return tt else λ fw.
    (do
      mac ← checked (memcpy (zeros esp_now_eth_alen) 0 src_addr esp_now_eth_alen)
      contents ← checked (memcpy (zeros espnow_transport_max_payload_len) 0 bytes n)
      queue_packet fw.s_rx_queue (record { src_mac = mac; contents = contents; data_len = pos n }))
      fw

-- `recv_info`, its `src_addr` and `data` are pointers that may be NULL
unfoldable pub espnow_recv_cb :
    {p : Platform} → Option (Option (List ℕ)) → Option (List ℕ) → ℤ → M p (Unit {0})
unfolding accept_packet
espnow_recv_cb (some (some src_addr)) (some bytes) (pos (suc n)) =
    accept_packet src_addr bytes (suc n)
espnow_recv_cb _ _ _ = return tt

received : Packet → Option Packet → Bool × Option Packet
received old none = (false, some old)
received old (some new) = (true, some new)

receive : {p : Platform} → Option Packet → Option p.Queue → ℕ → M p (Bool × Option Packet)
unfolding received
receive none q timeout = return (false, none)
receive (some old) none timeout = return (false, some old)
receive {p} (some old) (some q) timeout = do
  r ← call (p.idf.x_queue_receive q timeout)
  return (received old r)

-- What the call returns, and the packet that `packet` then points to.
unfoldable pub espnow_transport_recv :
    {p : Platform} → Option Packet → ℕ → M p (Bool × Option Packet)
unfolding receive
espnow_transport_recv packet timeout fw = receive packet fw.s_rx_queue timeout fw
