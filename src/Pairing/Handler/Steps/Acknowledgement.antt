-- ===== src/Pairing/Handler/Steps/Acknowledgement.antt =====
-- main/main.c: the acknowledgement of message 3 at the initiator: the key, and the key test after it.
use espnow_edhoc.Prelude.{◌≡◌, ◌⊎◌, length, ◌+◌}
use espnow_edhoc.Config.{Config}
use espnow_edhoc.Platform.{esp_ok, Platform}
use espnow_edhoc.Firmware.{Firmware}
use espnow_edhoc.Wire.{key_test, Msg}
use espnow_edhoc.Wire.Sending.{sent_frame}
use espnow_edhoc.Pairing.{
  edhoc_handshake_ack_payload, key_test_payload, PairingState, wait_key_test_ack, failed,
}
use espnow_edhoc.Pairing.Key.{SamePhase, KeyInPlace}
use espnow_edhoc.Pairing.Effects.{HasPayload}

-- The acknowledgement held the payload of a completed handshake, the key of the session is
-- installed for the peer, and only then, after the delay, the driver took the key test.
pub record Tested {p : Platform} (cfg : Config) (msg : Msg) (fw fw' : Firmware p) : Type 0 where
  pub fw₁ : Firmware p
  pub acknowledged : HasPayload msg edhoc_handshake_ack_payload
  pub same : SamePhase fw fw₁
  pub key : KeyInPlace cfg fw fw₁.world
  pub session_kept : fw'.session ≡ fw₁.session
  pub sends :
      p.idf.esp_now_send cfg.peer_mac
        (sent_frame key_test cfg.edhoc_session_id
          (msg.seq + 1)
          key_test_payload
          (length key_test_payload))
        (p.idf.v_task_delay (p.idf.pd_ms_to_ticks 750) fw₁.world).1
      ≡ (esp_ok, fw'.world)

-- the two results of the handler
abbrev pub FailedOrTested :
    {p : Platform} → Config → Msg → Firmware p → PairingState → Firmware p → Type 0
FailedOrTested cfg msg fw state fw' =
    (state ≡ failed) ⊎ ((state ≡ wait_key_test_ack) × Tested cfg msg fw fw')
