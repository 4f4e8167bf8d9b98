-- ===== src/Boot.antt =====
-- main/main.c: `app_main`, from power-up to the start of the application task.
pub mod Ready
pub mod Start
pub mod Safety
pub mod Peer
use Prim.Native.Nat.{bit_and}
use espnow_edhoc.Prelude.{
  ℕ, Bool, true, false, ◌&&◌, ◌||◌, none, some, List, [], ◌∷◌, ◌==◌, if◌then◌else◌, get_or,
}
use espnow_edhoc.Config.{Config}
use espnow_edhoc.Platform.{
  EspErr, esp_ok, esp_err_no_mem, esp_err_nvs_no_free_pages, esp_err_nvs_new_version_found,
  Platform,
}
use espnow_edhoc.Firmware.{M, ◌>>=◌, ◌>>◌, return, abort, call, esp_error_check}
use espnow_edhoc.EspNow.{espnow_transport_init, espnow_transport_add_peer}
use espnow_edhoc.Session.{Status, is_status_ok}
use espnow_edhoc.Ffi.{
  lakers_edhoc_role_initiator, lakers_edhoc_role_responder, wrap_lakers_edhoc_session_init,
}

-- the loop over the six bytes of an address
unfoldable pub mac_is_all_value : List ℕ → ℕ → Bool
mac_is_all_value [] value = true
mac_is_all_value (b ∷ mac) value = b == value && mac_is_all_value mac value

unfoldable pub peer_mac_is_configured : List ℕ → Bool
unfolding mac_is_all_value
peer_mac_is_configured mac =
    if mac_is_all_value mac 0x00 || mac_is_all_value mac 0xFF
    then false
    else bit_and (get_or mac 0 0) 0x01 == 0

needs_erase : EspErr → Bool
needs_erase esp_err_nvs_no_free_pages = true
needs_erase esp_err_nvs_new_version_found = true
needs_erase _ = false

unfoldable pub nvs_init : {p : Platform} → M p EspErr
unfolding needs_erase
nvs_init {p} = do
  ret ← call p.idf.nvs_flash_init
  if needs_erase ret
      then (do e ← call p.idf.nvs_flash_erase; esp_error_check e; call p.idf.nvs_flash_init)
      else return ret

-- How `app_main` ends: with the task running, or in the endless loop of an unconfigured board.
pub data Boot : Type 0 where
  task_started peer_not_configured : Boot

start_app : {p : Platform} → Status → M p Boot
start_app {p} status =
    if is_status_ok status
    then (do
      created ← call p.idf.x_task_create
      esp_error_check (if created then esp_ok else esp_err_no_mem)
      return task_started)
    else abort

-- the part of `app_main` for a configured peer
pub start_session : {p : Platform} → Config → List ℕ → M p Boot
unfolding start_app
start_session cfg own_mac = do
  e ← espnow_transport_add_peer cfg.peer_mac false none
  esp_error_check e
  init_status ←
      wrap_lakers_edhoc_session_init
        (if cfg.device_is_initiator
          then lakers_edhoc_role_initiator
          else lakers_edhoc_role_responder)
        (some own_mac) (some cfg.peer_mac) cfg.espnow_channel
  start_app init_status

unfoldable pub app_main : {p : Platform} → Config → M p Boot
unfolding start_session
app_main {p} cfg = do
  e₁ ← nvs_init
  esp_error_check e₁
  r ← call p.idf.esp_read_mac
  esp_error_check r.0
  e₂ ← espnow_transport_init cfg.espnow_channel
  esp_error_check e₂
  if peer_mac_is_configured cfg.peer_mac then start_session cfg r.1 else return peer_not_configured
