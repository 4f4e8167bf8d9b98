-- ===== src/Packet.antt =====
-- main/espnow_transport.h: the constants, and the item of the receive queue.
use espnow_edhoc.Prelude.{ℕ, ◌<◌, ◌≤◌, ◌≡◌, Bool, true, List, ltb, length, All}

-- a C `int` that may be negative: `negsuc n` is -(n + 1)
pub data ℤ : Type 0 where
  pos : ℕ → ℤ
  negsuc : ℕ → ℤ

abbrev pub espnow_transport_rx_queue_len : ℕ
espnow_transport_rx_queue_len = 10

abbrev pub espnow_transport_max_payload_len : ℕ
espnow_transport_max_payload_len = 250

abbrev pub esp_now_eth_alen : ℕ
esp_now_eth_alen = 6

-- `espnow_rx_packet_t`
pub record Packet : Type 0 where
  pub src_mac : List ℕ
  pub contents : List ℕ
  pub data_len : ℤ

-- `n < k` for an `int` n and a natural k
abbrev pub int_lt : ℤ → ℕ → Bool
int_lt (pos n) k = ltb n k
int_lt (negsuc n) k = true

abbrev pub HasLen : ℤ → Type 0
HasLen (pos n) = n ≤ espnow_transport_max_payload_len
HasLen (negsuc n) = Unit

abbrev pub IsByte : ℕ → Type 0
IsByte b = b < 256

-- A packet as the C type has it: arrays of their declared sizes, and a length within the array.
pub record IsPacket (rx : Packet) : Type 0 where
  pub mac_size : length rx.src_mac ≡ esp_now_eth_alen
  pub data_size : length rx.contents ≡ espnow_transport_max_payload_len
  pub len_fits : HasLen rx.data_len
  pub bytes : All IsByte rx.contents
