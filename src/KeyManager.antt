-- ===== src/KeyManager.antt =====
-- main/key_manager.c: the PMK and the LMK of the peer.
pub mod Install
pub mod Static
use espnow_edhoc.Prelude.{true, ◌||◌, Option, some, List, ℕ, if◌then◌else◌}
use espnow_edhoc.Memory.{is_null, pointee}
use espnow_edhoc.Config.{espnow_static_pmk, espnow_static_lmk}
use espnow_edhoc.Platform.{EspErr, esp_ok, esp_fail, esp_err_invalid_arg, Platform}
use espnow_edhoc.Firmware.{M, ◌>>=◌, return, call}
use espnow_edhoc.EspNow.{espnow_transport_set_pmk, espnow_transport_add_peer, esp_return_on_error}

unfoldable pub key_manager_enable_static_espnow_encryption : {p : Platform} → List ℕ → M p EspErr
key_manager_enable_static_espnow_encryption peer_mac = do
  e₁ ← espnow_transport_set_pmk (some espnow_static_pmk)
  esp_return_on_error e₁ do
    e₂ ← espnow_transport_add_peer peer_mac true (some espnow_static_lmk)
    esp_return_on_error e₂ (return esp_ok)

-- the check of the peer table after the key is set
confirm_encrypt : {p : Platform} → List ℕ → M p EspErr
confirm_encrypt {p} peer_mac = do
  r ← call (p.idf.esp_now_get_peer peer_mac)
  esp_return_on_error r.0 (if r.1.encrypt then return esp_ok else return esp_fail)

unfoldable pub key_manager_enable_derived_espnow_encryption :
    {p : Platform} → Option (List ℕ) → Option (List ℕ) → M p EspErr
unfolding confirm_encrypt
key_manager_enable_derived_espnow_encryption peer_mac lmk =
    if is_null peer_mac || is_null lmk then return esp_err_invalid_arg else do
      e₁ ← espnow_transport_set_pmk (some espnow_static_pmk)
      esp_return_on_error e₁ do
        e₂ ← espnow_transport_add_peer (pointee peer_mac) true lmk
        esp_return_on_error e₂ (confirm_encrypt (pointee peer_mac))
