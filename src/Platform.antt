-- ===== src/Platform.antt =====
-- What the firmware calls and this repository does not contain: ESP-IDF (Wi-Fi, ESP-NOW, NVS),
-- FreeRTOS, and the Lakers library. Each call is a function over an abstract world, which stands
-- for the state of the driver, the kernel, the peripherals and the random number generator.
use espnow_edhoc.Prelude.{ℕ, Bool, true, false, Option, List}
use espnow_edhoc.Packet.{Packet}

-- `esp_err_t`: the codes that the source names, and all others
pub data EspErr : Type 0 where
  esp_ok esp_fail esp_err_no_mem esp_err_invalid_arg esp_err_invalid_size : EspErr
  esp_err_nvs_no_free_pages esp_err_nvs_new_version_found : EspErr
  esp_err_other : ℕ → EspErr

-- `err == ESP_OK`
abbrev pub is_ok : EspErr → Bool
is_ok esp_ok = true
is_ok _ = false

-- `wifi_interface_t`: the constant that the source names, and all others
pub data WifiInterface : Type 0 where
  wifi_if_sta : WifiInterface
  wifi_if_other : ℕ → WifiInterface

-- the fields of `esp_now_peer_info_t` that the source sets or reads
pub record PeerInfo : Type 0 where
  pub peer_addr : List ℕ
  pub lmk : List ℕ
  pub channel : ℕ
  pub ifidx : WifiInterface
  pub encrypt : Bool

-- ESP-IDF and FreeRTOS
pub record EspIdf (World Queue : Type 0) : Type 0 where
  pub nvs_flash_init : World → EspErr × World
  pub nvs_flash_erase : World → EspErr × World
  pub esp_read_mac : World → (EspErr × List ℕ) × World
  pub esp_netif_init : World → EspErr × World
  pub esp_event_loop_create_default : World → EspErr × World
  pub esp_wifi_init : World → EspErr × World
  pub esp_wifi_set_storage : World → EspErr × World
  pub esp_wifi_set_mode : World → EspErr × World
  pub esp_wifi_start : World → EspErr × World
  pub esp_wifi_set_channel : ℕ → World → EspErr × World
  pub esp_now_init : World → EspErr × World
  pub esp_now_register_send_cb : World → EspErr × World
  pub esp_now_register_recv_cb : World → EspErr × World
  pub esp_now_get_version : World → EspErr × World
  pub esp_now_set_pmk : List ℕ → World → EspErr × World
  pub esp_now_is_peer_exist : List ℕ → World → Bool × World
  pub esp_now_mod_peer : PeerInfo → World → EspErr × World
  pub esp_now_add_peer : PeerInfo → World → EspErr × World
  pub esp_now_get_peer : List ℕ → World → (EspErr × PeerInfo) × World
  pub esp_now_send : List ℕ → List ℕ → World → EspErr × World
  -- `none` is a NULL handle
  pub x_queue_create : ℕ → World → Option Queue × World
  pub x_queue_send : Queue → Packet → World → Bool × World
  -- `none` is a timeout
  pub x_queue_receive : Queue → ℕ → World → Option Packet × World
  pub pd_ms_to_ticks : ℕ → ℕ
  pub v_task_delay : ℕ → World → Unit {0} × World
  pub x_task_get_tick_count : World → ℕ × World
  pub x_task_create : World → Bool × World

-- The Lakers library. Its errors are never read by the source, so a `Result` is an `Option`.
pub record Lakers (World : Type 0) : Type 1 where
  pub Method : Type 0
  pub Suite : Type 0
  pub Credential : Type 0
  pub IdCred : Type 0
  pub Initiator : Type 0
  pub WaitM2 : Type 0
  pub ProcessingM2 : Type 0
  pub ProcessedM2 : Type 0
  pub WaitM4 : Type 0
  pub Responder : Type 0
  pub ProcessedM1 : Type 0
  pub WaitM3 : Type 0
  pub ProcessingM3 : Type 0
  pub ProcessedM3 : Type 0
  pub Done : Type 0
  pub Message1 : Type 0
  pub Message2 : Type 0
  pub Message3 : Type 0
  pub stat_stat : Method
  pub cipher_suite_2 : Suite
  pub parse_ccs : List ℕ → Option Credential
  pub credential_check_or_fetch : Credential → IdCred → World → Option Credential × World
  pub initiator_new : Method → Suite → Initiator
  pub set_identity : Initiator → List ℕ → Credential → Initiator
  pub responder_new : List ℕ → Credential → Responder
  pub message_1_from_slice : List ℕ → Option Message1
  pub message_2_from_slice : List ℕ → Option Message2
  pub message_3_from_slice : List ℕ → Option Message3
  pub prepare_message_1 : Initiator → World → Option (WaitM2 × List ℕ) × World
  pub process_message_1 : Responder → Message1 → World → Option ProcessedM1 × World
  pub prepare_message_2 : ProcessedM1 → World → Option (WaitM3 × List ℕ) × World
  pub parse_message_2 : WaitM2 → Message2 → World → Option (ProcessingM2 × IdCred) × World
  pub verify_message_2 : ProcessingM2 → Credential → World → Option ProcessedM2 × World
  pub prepare_message_3 : ProcessedM2 → World → Option (WaitM4 × List ℕ) × World
  pub wait_m4_completed : WaitM4 → World → Option Done × World
  pub parse_message_3 : WaitM3 → Message3 → World → Option (ProcessingM3 × IdCred) × World
  pub verify_message_3 : ProcessingM3 → Credential → World → Option ProcessedM3 × World
  pub processed_m3_completed : ProcessedM3 → World → Option Done × World
  -- label, context and length of the output, which is returned with the session's new state
  pub edhoc_exporter : Done → ℕ → List ℕ → ℕ → World → (List ℕ × Done) × World

-- the hash functions of mbedTLS
pub record Mbedtls : Type 1 where
  pub MdInfo : Type 0
  -- of `MBEDTLS_MD_SHA256`; `none` is NULL
  pub md_info_sha256 : Option MdInfo
  -- the error code, and what is written to `output`
  pub mbedtls_md : MdInfo → List ℕ → ℕ × List ℕ

-- `esp_fill_random` of ESP-IDF: the bytes that it writes for a length
pub record EspRandom (World : Type 0) : Type 0 where
  pub esp_fill_random : ℕ → World → List ℕ × World

pub record Platform : Type 1 where
  pub World : Type 0
  pub Queue : Type 0
  pub mbedtls : Mbedtls
  pub idf : EspIdf World Queue
  pub lakers : Lakers World
