-- ===== src/Tests/Pairing.antt =====
-- The theorems on the pairing, at inputs of the toy platform.
use espnow_edhoc.Prelude.{
  ◌⊎◌, inl, ℕ, ◌-◌, ◌≤◌, length-append, ◌≡◌, ◌↔◌, refl, Bool, true, false, some, List, ◌++◌, arith,
  length,
}
use espnow_edhoc.Memory.{zeros, length-zeros}
use espnow_edhoc.Platform.{is_ok}
use espnow_edhoc.Firmware.{InitiatorPhase, ResponderPhase, initiator, responder, Firmware, fault}
use espnow_edhoc.Firmware.Contracts.{Ensures, Returns}
use espnow_edhoc.Wire.{MsgType, m1, m2, m3, ack, key_test, type_code, Msg}
use espnow_edhoc.Session.Protocol.{r_done}
use espnow_edhoc.Pairing.{
  idle, wait_m1, wait_key_test, edhoc_handshake_ack_payload, key_test_payload, verify_handshake_ack,
  verify_control_payload, derive_and_install_lmk,
}
use espnow_edhoc.Pairing.Effects.{
  Sends, MsgFits, HasPayload, IsControlMessage, verify_handshake_ack_lem,
  verify_control_payload_lem,
}
use espnow_edhoc.Pairing.Key.{SamePhase, KeyInPlace, derive_and_install_lmk-KeyInPlace}
use espnow_edhoc.Pairing.Handler.{on_m2, on_m3, handle_received_message}
use espnow_edhoc.Pairing.Handler.Steps.{Reaches}
use espnow_edhoc.Pairing.Handler.Steps.MessageTwo.{Authentic, on_m2-Authentic}
use espnow_edhoc.Pairing.Handler.Steps.MessageThree.{AuthenticKeyed, on_m3-Authentic}
use espnow_edhoc.Pairing.Invariant.{
  Handled, handle_received_message-Handled, handle_received_message-Returns,
}
use espnow_edhoc.Pairing.App.{App, app_round}
use espnow_edhoc.Pairing.App.Loop.{Kept, app_round-Kept, app_round-Returns}
use espnow_edhoc.Pairing.App.Reachable.{
  Reachable, starts, takes_frame, Reachable-Kept, app_round-safe,
}
use espnow_edhoc.Tests.{toy, toy_mac, toy_payload, toy_board, toy_config, toy-MessagesFit}
use espnow_edhoc.EspNow.Receiving.{espnow_recv_cb_lem}
use espnow_edhoc.Tests.Link.{toy-QueueDelivers}

abbrev toy_responder : ResponderPhase toy → Firmware toy
toy_responder phase =
    toy_board (responder (record { phase = phase; exporter_context = toy_payload }))

abbrev toy_initiator : InitiatorPhase toy → Firmware toy
toy_initiator phase =
    toy_board (initiator (record { phase = phase; exporter_context = toy_payload }))

-- a received message with this payload
abbrev toy_msg : MsgType → List ℕ → Msg
toy_msg type payload = record {
  src_mac = toy_mac;
  type = type_code type;
  flags = 0;
  session_id = 0x1234;
  seq = 5;
  frag_idx = 0;
  frag_count = 1;
  payload_len = length payload;
  payload = payload ++ zeros (192 - length payload);
}

toy_msg-MsgFits :
    (type : MsgType) (payload : List ℕ) → length payload ≤ 192 → MsgFits (toy_msg type payload)
toy_msg-MsgFits type payload h = record {
  size = omega (
    arith,
    length-append payload (zeros (192 - length payload)),
    length-zeros (192 - length payload),
  );
  len_bound = h;
}

abbrev toy_waiting : App
toy_waiting = record { state = wait_m1; initiator_started = false; boot_tick = 0 }

abbrev toy_start : Firmware toy
toy_start = toy_responder (ResponderPhase.start 3)

verify_handshake_ack_lem_example :
    (b : Bool) × (verify_handshake_ack (toy_msg ack edhoc_handshake_ack_payload) ≡ some b)
    × ((b ≡ true)
        ↔ HasPayload (toy_msg ack edhoc_handshake_ack_payload) edhoc_handshake_ack_payload)
verify_handshake_ack_lem_example =
    verify_handshake_ack_lem (toy_msg ack edhoc_handshake_ack_payload)
      (toy_msg-MsgFits ack edhoc_handshake_ack_payload (omega arith))

verify_control_payload_lem_example :
    (b : Bool) × (verify_control_payload (toy_msg key_test key_test_payload) ≡ some b)
    × ((b ≡ true) ↔ IsControlMessage (toy_msg key_test key_test_payload))
verify_control_payload_lem_example =
    verify_control_payload_lem (toy_msg key_test key_test_payload)
      (toy_msg-MsgFits key_test key_test_payload (omega arith))

derive_and_install_lmk-KeyInPlace_example :
    Returns
      (derive_and_install_lmk (toy_config false) (toy_responder (ResponderPhase.done 3)))
      (λ e fw'.
        SamePhase (toy_responder (ResponderPhase.done 3)) fw'
        × ((is_ok e ≡ false)
            ⊎ KeyInPlace (toy_config false) (toy_responder (ResponderPhase.done 3)) fw'.world))
derive_and_install_lmk-KeyInPlace_example =
    derive_and_install_lmk-KeyInPlace toy-MessagesFit (toy_config false)
      (toy_responder (ResponderPhase.done 3)) refl

handle_received_message-Handled_example :
    Ensures
      (handle_received_message (toy_config false) (toy_msg m1 toy_payload) wait_m1 toy_start)
      (λ state' fw'.
        Handled (toy_config false) (toy_msg m1 toy_payload) wait_m1 toy_start state' fw')
handle_received_message-Handled_example =
    handle_received_message-Handled toy-MessagesFit (toy_config false) (toy_msg m1 toy_payload)
      wait_m1 toy_start (toy_msg-MsgFits m1 toy_payload (omega arith)) refl (refl, refl)

abbrev toy_waits_m3 : Firmware toy
toy_waits_m3 = toy_responder (ResponderPhase.wait_m3 3)

on_m3-Authentic_example :
    Ensures (on_m3 (toy_config false) (toy_msg m3 toy_payload) toy_waits_m3) (λ state fw'.
      Reaches wait_key_test r_done toy_waits_m3 state fw'
      × AuthenticKeyed (toy_config false) (toy_msg m3 toy_payload) toy_waits_m3 state fw')
on_m3-Authentic_example =
    on_m3-Authentic toy-MessagesFit (toy_config false) (toy_msg m3 toy_payload) toy_waits_m3
      (toy_msg-MsgFits m3 toy_payload (omega arith)) refl

abbrev toy_waits_m2 : Firmware toy
toy_waits_m2 = toy_initiator (InitiatorPhase.wait_m2 3)

on_m2-Authentic_example :
    Ensures
      (on_m2 (toy_config true) (toy_msg m2 toy_payload) toy_waits_m2)
      (λ state fw'. Authentic (toy_msg m2 toy_payload) toy_waits_m2 state fw')
on_m2-Authentic_example =
    on_m2-Authentic toy-MessagesFit (toy_config true) (toy_msg m2 toy_payload) toy_waits_m2
      (toy_msg-MsgFits m2 toy_payload (omega arith))

-- the toy driver takes every frame
toy-Sends : Sends toy ⊥
toy-Sends = record { accepts = λ mac frame w. inl refl }

handle_received_message-Returns_example :
    Returns
      (handle_received_message (toy_config false) (toy_msg m1 toy_payload) wait_m1 toy_start)
      (λ state' fw'.
        Handled (toy_config false) (toy_msg m1 toy_payload) wait_m1 toy_start state' fw')
handle_received_message-Returns_example =
    handle_received_message-Returns toy-Sends toy-MessagesFit (toy_config false)
      (toy_msg m1 toy_payload) wait_m1 toy_start (toy_msg-MsgFits m1 toy_payload (omega arith)) refl
      (refl, refl)

app_round-Returns_example :
    Returns
      (app_round (toy_config false) toy_waiting toy_start)
      (λ app' fw'. Kept (toy_config false) toy_start app' fw')
app_round-Returns_example =
    app_round-Returns toy-Sends toy-MessagesFit toy-QueueDelivers (toy_config false) toy_waiting
      toy_start refl (refl, refl)

app_round-Kept_example :
    Ensures
      (app_round (toy_config false) toy_waiting toy_start)
      (λ app' fw'. Kept (toy_config false) toy_start app' fw')
app_round-Kept_example =
    app_round-Kept toy-MessagesFit toy-QueueDelivers (toy_config false) toy_waiting toy_start refl
      (refl, refl)

-- the board after one frame
abbrev toy_later : Firmware toy
toy_later = record toy_start { world = 1 }

toy_reached : Reachable (toy_config false) toy_waiting toy_start toy_waiting toy_later
toy_reached =
    takes_frame toy_mac toy_payload 3 starts refl (omega arith)
      (espnow_recv_cb_lem toy_mac toy_payload 3 tt toy_start refl (omega arith) refl)

Reachable-Kept_example : Kept (toy_config false) toy_start toy_waiting toy_later
Reachable-Kept_example =
    Reachable-Kept toy-MessagesFit toy-QueueDelivers (toy_config false) tt toy_waiting toy_start
      toy_waiting toy_later refl refl (refl, refl) toy_reached

app_round-safe_example : ¬ (app_round (toy_config false) toy_waiting toy_later ≡ fault)
app_round-safe_example =
    app_round-safe toy-MessagesFit toy-QueueDelivers (toy_config false) tt toy_waiting toy_start
      toy_waiting toy_later refl refl (refl, refl) toy_reached

-- the counter has wrapped since the boot
abbrev toy_wrapped : App
toy_wrapped = record { state = idle; initiator_started = false; boot_tick = 4294966296 }

abbrev toy_at_2000 : Firmware toy
toy_at_2000 = record (toy_initiator (InitiatorPhase.start 3)) { world = 2000 }

abbrev toy_finished : Firmware toy
toy_finished = toy_initiator (InitiatorPhase.done 3)
