-- ===== src/Tests.antt =====
-- A small platform on which the theorems about the firmware are tried, and a board on it.
mod Boot
mod Link
mod Handshake
mod Pairing
mod Parts
mod Ends
mod Complete
mod Traffic
use espnow_edhoc.Prelude.{
  Option, ℕ, ◌+◌, Bool, true, false, some, List, [], ◌∷◌, arith, length, length-replicate,
  replicate,
}
use espnow_edhoc.Packet.{Packet}
use espnow_edhoc.Platform.{esp_ok, wifi_if_sta, EspIdf, Mbedtls, Lakers, Platform}
use espnow_edhoc.Firmware.{Firmware, Session}
use espnow_edhoc.Config.{Config}
use espnow_edhoc.Wire.{m1}
use espnow_edhoc.Wire.Sending.{sent_frame}
use espnow_edhoc.EspNow.Receiving.{packet_of}
use espnow_edhoc.Session.Protocol.{MessagesFit}

abbrev pub toy_mac : List ℕ
toy_mac = 2 ∷ 4 ∷ 6 ∷ 8 ∷ 10 ∷ 12 ∷ []

abbrev pub toy_payload : List ℕ
toy_payload = 7 ∷ 8 ∷ 9 ∷ []

-- the packet that the toy queue delivers: message 1 of the session 0x1234
abbrev pub toy_packet : Packet
toy_packet = packet_of toy_mac (sent_frame m1 0x1234 1 toy_payload 3) 15

-- ESP-IDF over a world of any type: every call succeeds, and takes the world to the next one
abbrev pub idf_on :
    {W : Type 0}
    → (W → W)
    → (W → ℕ)
    → (Packet → W → Bool × W)
    → (W → Option Packet × W)
    → EspIdf W (Unit {0})
idf_on next clock send receive = record {
  nvs_flash_init = λ w. (esp_ok, next w);
  nvs_flash_erase = λ w. (esp_ok, next w);
  esp_read_mac = λ w. ((esp_ok, toy_mac), w);
  esp_netif_init = λ w. (esp_ok, next w);
  esp_event_loop_create_default = λ w. (esp_ok, next w);
  esp_wifi_init = λ w. (esp_ok, next w);
  esp_wifi_set_storage = λ w. (esp_ok, next w);
  esp_wifi_set_mode = λ w. (esp_ok, next w);
  esp_wifi_start = λ w. (esp_ok, next w);
  esp_wifi_set_channel = λ channel w. (esp_ok, next w);
  esp_now_init = λ w. (esp_ok, next w);
  esp_now_register_send_cb = λ w. (esp_ok, next w);
  esp_now_register_recv_cb = λ w. (esp_ok, next w);
  esp_now_get_version = λ w. (esp_ok, next w);
  esp_now_set_pmk = λ key w. (esp_ok, next w);
  esp_now_is_peer_exist = λ mac w. (true, w);
  esp_now_mod_peer = λ peer w. (esp_ok, next w);
  esp_now_add_peer = λ peer w. (esp_ok, next w);
  esp_now_get_peer = λ mac w. (
    (
      esp_ok,
      record { peer_addr = mac; lmk = []; channel = 1; ifidx = wifi_if_sta; encrypt = true },
    ),
    w,
  );
  esp_now_send = λ mac frame w. (esp_ok, next w);
  x_queue_create = λ n w. (some tt, w);
  x_queue_send = λ q. send;
  x_queue_receive = λ q timeout. receive;
  pd_ms_to_ticks = λ ms. ms;
  v_task_delay = λ ticks w. (tt, next w);
  x_task_get_tick_count = λ w. (clock w, w);
  x_task_create = λ w. (true, w);
}

-- the Lakers library over a world of any type: every call succeeds
abbrev pub lakers_on : {W : Type 0} → (W → W) → Lakers W
lakers_on next = record {
  Method = ℕ;
  Suite = ℕ;
  Credential = ℕ;
  IdCred = ℕ;
  Initiator = ℕ;
  WaitM2 = ℕ;
  ProcessingM2 = ℕ;
  ProcessedM2 = ℕ;
  WaitM4 = ℕ;
  Responder = ℕ;
  ProcessedM1 = ℕ;
  WaitM3 = ℕ;
  ProcessingM3 = ℕ;
  ProcessedM3 = ℕ;
  Done = ℕ;
  Message1 = List ℕ;
  Message2 = List ℕ;
  Message3 = List ℕ;
  stat_stat = 3;
  cipher_suite_2 = 2;
  parse_ccs = λ bytes. some (length bytes);
  credential_check_or_fetch = λ expected id w. (some expected, w);
  initiator_new = λ method suite. method;
  set_identity = λ i key credential. i;
  responder_new = λ key credential. credential;
  message_1_from_slice = some;
  message_2_from_slice = some;
  message_3_from_slice = some;
  prepare_message_1 = λ i w. (some (i, 1 ∷ 2 ∷ []), next w);
  process_message_1 = λ r m w. (some (length m), w);
  prepare_message_2 = λ r w. (some (r, 3 ∷ 4 ∷ []), next w);
  parse_message_2 = λ s m w. (some (s, length m), w);
  verify_message_2 = λ s credential w. (some s, w);
  prepare_message_3 = λ s w. (some (s, 5 ∷ 6 ∷ []), next w);
  wait_m4_completed = λ s w. (some s, w);
  parse_message_3 = λ s m w. (some (s, length m), w);
  verify_message_3 = λ s credential w. (some s, w);
  processed_m3_completed = λ s w. (some s, w);
  edhoc_exporter = λ d label context n w. ((replicate n label, d), next w);
}

abbrev pub toy_mbedtls : Mbedtls
toy_mbedtls = record { MdInfo = Unit; md_info_sha256 = some tt; mbedtls_md = λ info key. (0, key) }

abbrev pub toy : Platform
toy = record {
  World = ℕ;
  Queue = Unit;
  mbedtls = toy_mbedtls;
  idf = idf_on (λ w. w + 1) (λ w. w) (λ packet w. (true, w + 1)) (λ w. (some toy_packet, w));
  lakers = lakers_on (λ w. w + 1);
}

pub toy-MessagesFit : MessagesFit toy
toy-MessagesFit = record {
  m1_fits = λ i w. omega arith;
  m2_fits = λ r w. omega arith;
  m3_fits = λ r w. omega arith;
  key_fits = λ d label context n w. length-replicate n label;
}

abbrev pub toy_config : Bool → Config
toy_config is_initiator = record {
  device_is_initiator = is_initiator;
  espnow_channel = 1;
  milestone9_corrupt_lmk_for_test = false;
  edhoc_session_id = 0x1234;
  peer_mac = toy_mac;
}

abbrev pub toy_board : Session toy → Firmware toy
toy_board s = record { world = 0; s_channel = 1; s_rx_queue = some tt; session = s }
