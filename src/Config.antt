-- ===== src/Config.antt =====
-- main/device_config.h: the settings of one board, and the constants that all boards share.
use espnow_edhoc.Prelude.{ℕ, Bool, true, false, List, [], ◌∷◌}

-- What the file tells the user to set on each board, `DEVICE_IS_INITIATOR` as a Boolean.
pub record Config : Type 0 where
  pub device_is_initiator : Bool
  pub espnow_channel : ℕ
  pub milestone9_corrupt_lmk_for_test : Bool
  pub edhoc_session_id : ℕ
  pub peer_mac : List ℕ

-- the values in the file
abbrev pub checked_in : Config
checked_in = record {
  device_is_initiator = true;
  espnow_channel = 1;
  milestone9_corrupt_lmk_for_test = false;
  edhoc_session_id = 0x1234;
  peer_mac = 0 ∷ 0 ∷ 0 ∷ 0 ∷ 0 ∷ 0 ∷ [];
}

abbrev pub edhoc_start_delay_ms : ℕ
edhoc_start_delay_ms = 2000

abbrev pub responder_encryption_switch_delay_ms : ℕ
responder_encryption_switch_delay_ms = 250

abbrev pub initiator_key_test_delay_ms : ℕ
initiator_key_test_delay_ms = 750

abbrev pub espnow_static_pmk : List ℕ
espnow_static_pmk =
    0x10 ∷ 0x11 ∷ 0x12 ∷ 0x13 ∷ 0x14 ∷ 0x15 ∷ 0x16 ∷ 0x17 ∷ 0x18 ∷ 0x19 ∷ 0x1A ∷ 0x1B ∷ 0x1C ∷ 0x1D
    ∷ 0x1E ∷ 0x1F ∷ []

abbrev pub espnow_static_lmk : List ℕ
espnow_static_lmk =
    0x20 ∷ 0x21 ∷ 0x22 ∷ 0x23 ∷ 0x24 ∷ 0x25 ∷ 0x26 ∷ 0x27 ∷ 0x28 ∷ 0x29 ∷ 0x2A ∷ 0x2B ∷ 0x2C ∷ 0x2D
    ∷ 0x2E ∷ 0x2F ∷ []
