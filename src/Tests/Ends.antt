-- ===== src/Tests/Ends.antt =====
-- The theorems on the two ends of a handshake, on a failed board and on the peer's address, at
-- inputs of the toy platform.
use espnow_edhoc.Prelude.{◌%◌, ◌≡◌, ◌≢◌, ◌↔◌, refl, true, false, arith, get_or, replicate}
use espnow_edhoc.Firmware.{InitiatorPhase, ResponderPhase, initiator, responder, Firmware}
use espnow_edhoc.Firmware.Contracts.{Returns}
use espnow_edhoc.EspNow.Receiving.{espnow_recv_cb_lem}
use espnow_edhoc.Boot.{peer_mac_is_configured}
use espnow_edhoc.Boot.Peer.{peer_mac_is_configured_lem}
use espnow_edhoc.Pairing.{failed, derive_and_install_lmk}
use espnow_edhoc.Pairing.Agreement.{KeysAgree, keys_agree}
use espnow_edhoc.Pairing.App.{App}
use espnow_edhoc.Pairing.App.Failed.{Reachable-failed}
use espnow_edhoc.Pairing.App.Reachable.{Reachable, starts, takes_frame}
use espnow_edhoc.Tests.{toy, toy_mac, toy_payload, toy_board, toy_config, toy-MessagesFit}
use espnow_edhoc.Tests.Link.{toy-QueueDelivers}

abbrev toy_initiator : Firmware toy
toy_initiator =
    toy_board (initiator (record { phase = InitiatorPhase.done 3; exporter_context = toy_payload }))

abbrev toy_responder : Firmware toy
toy_responder =
    toy_board (responder (record { phase = ResponderPhase.done 3; exporter_context = toy_payload }))

keys_agree_example : Returns (derive_and_install_lmk (toy_config true) toy_initiator) (λ e after.
    Returns (derive_and_install_lmk (toy_config false) toy_responder) (λ e' after'.
      KeysAgree
        (toy_config true)
        (toy_config false)
        toy_initiator
        toy_responder
        e
        e'
        after.world
        after'.world))
keys_agree_example =
    keys_agree toy-MessagesFit (toy_config true) (toy_config false) toy_initiator toy_responder refl
      (λ d d' is_done is_done' label context n w w'. refl) refl refl

abbrev toy_failed : App
toy_failed = record { state = failed; initiator_started = true; boot_tick = 0 }

toy_reached :
    Reachable
      (toy_config true)
      toy_failed
      toy_initiator
      toy_failed
      (record toy_initiator { world = 1 })
toy_reached =
    takes_frame toy_mac toy_payload 3 starts refl (omega arith)
      (espnow_recv_cb_lem toy_mac toy_payload 3 tt toy_initiator refl (omega arith) refl)

Reachable-failed_example : toy_failed ≡ toy_failed
Reachable-failed_example =
    Reachable-failed toy-QueueDelivers (toy_config true) toy_failed toy_initiator toy_failed
      (record toy_initiator { world = 1 }) refl refl toy_reached

peer_mac_is_configured_lem_example :
    (peer_mac_is_configured toy_mac ≡ true)
    ↔ ((toy_mac ≢ replicate 6 0x00) × (get_or toy_mac 0 0 % 2 ≡ 0))
peer_mac_is_configured_lem_example = peer_mac_is_configured_lem toy_mac refl
