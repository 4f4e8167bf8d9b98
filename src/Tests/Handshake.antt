-- ===== src/Tests/Handshake.antt =====
-- The theorems on the Lakers session, at inputs of the toy platform.
use espnow_edhoc.Prelude.{ℕ, ◌≡◌, refl, some, List, [], ◌∷◌, arith}
use espnow_edhoc.Memory.{zeros, length-zeros}
use espnow_edhoc.Firmware.{
  InitiatorPhase, ResponderPhase, Session, empty, initiator, responder, Firmware,
}
use espnow_edhoc.Firmware.Contracts.{Returns}
use espnow_edhoc.Session.{role_initiator, role_responder, build_exporter_context, create_session}
use espnow_edhoc.Session.Protocol.{i_start, i_wait_m2, i_done, r_start, r_wait_m3, Answers}
use espnow_edhoc.Session.Context.{
  context_bytes, StartsWith, build_exporter_context_lem, build_exporter_context-injective,
  create_session_agree,
}
use espnow_edhoc.Session.Messages.{
  lakers_edhoc_make_message_1, lakers_edhoc_process_message_1, lakers_edhoc_process_message_2,
  lakers_edhoc_process_message_3,
}
use espnow_edhoc.Session.Messages.Authentic.Initiator.{
  OnlyAuthentic2, lakers_edhoc_process_message_2_lem,
}
use espnow_edhoc.Session.Messages.Authentic.MessageOne.{OnlyMade1, lakers_edhoc_make_message_1_lem}
use espnow_edhoc.Session.Messages.Authentic.Answering.{
  OnlyAnswered1, lakers_edhoc_process_message_1_lem,
}
use espnow_edhoc.Session.Messages.Responder.{Completes, process_message_3-Completes}
use espnow_edhoc.Session.Messages.Export.{
  lakers_edhoc_export_espnow_lmk, exported, lakers_edhoc_export_espnow_lmk_lem,
}
use espnow_edhoc.Pairing.Handler.{message_buffer}
use espnow_edhoc.Pairing.Handler.Steps.{message_buffer-HasRoom}
use espnow_edhoc.Tests.{toy, toy_mac, toy_payload, toy_board, toy-MessagesFit}

abbrev toy_other_mac : List ℕ
toy_other_mac = 20 ∷ 4 ∷ 6 ∷ 8 ∷ 10 ∷ 12 ∷ []

abbrev toy_channel : ℕ
toy_channel = 6

abbrev toy_initiator : InitiatorPhase toy → Session toy
toy_initiator phase = initiator (record { phase = phase; exporter_context = toy_payload })

abbrev toy_responder : ResponderPhase toy → Session toy
toy_responder phase = responder (record { phase = phase; exporter_context = toy_payload })

abbrev toy_fresh_initiator : Firmware toy
toy_fresh_initiator = toy_board (toy_initiator (InitiatorPhase.start 3))

abbrev toy_waiting_initiator : Firmware toy
toy_waiting_initiator = toy_board (toy_initiator (InitiatorPhase.wait_m2 3))

abbrev toy_fresh_responder : Firmware toy
toy_fresh_responder = toy_board (toy_responder (ResponderPhase.start 3))

lakers_edhoc_make_message_1_lem_example :
    Returns (lakers_edhoc_make_message_1 message_buffer toy_fresh_initiator) (λ a fw'.
      Answers i_start i_wait_m2 role_initiator toy_fresh_initiator a.0 a.1 fw'
      × OnlyMade1 message_buffer toy_fresh_initiator a fw')
lakers_edhoc_make_message_1_lem_example =
    lakers_edhoc_make_message_1_lem toy-MessagesFit message_buffer toy_fresh_initiator
      message_buffer-HasRoom

lakers_edhoc_process_message_2_lem_example :
    Returns
      (lakers_edhoc_process_message_2 (some toy_payload) 3 message_buffer toy_waiting_initiator)
      (λ a fw'.
        Answers i_wait_m2 i_done role_initiator toy_waiting_initiator a.0 a.1 fw'
        × OnlyAuthentic2 toy_payload message_buffer toy_waiting_initiator a fw')
lakers_edhoc_process_message_2_lem_example =
    lakers_edhoc_process_message_2_lem toy-MessagesFit (some toy_payload) 3 message_buffer
      toy_waiting_initiator (omega arith) message_buffer-HasRoom

lakers_edhoc_process_message_1_lem_example :
    Returns
      (lakers_edhoc_process_message_1 (some toy_payload) 3 message_buffer toy_fresh_responder)
      (λ a fw'.
        Answers r_start r_wait_m3 role_responder toy_fresh_responder a.0 a.1 fw'
        × OnlyAnswered1 toy_payload message_buffer toy_fresh_responder a fw')
lakers_edhoc_process_message_1_lem_example =
    lakers_edhoc_process_message_1_lem toy-MessagesFit (some toy_payload) 3 message_buffer
      toy_fresh_responder (omega arith) message_buffer-HasRoom

process_message_3-Completes_example :
    Returns
      (lakers_edhoc_process_message_3
        (some toy_payload)
        3
        (toy_board (toy_responder (ResponderPhase.wait_m3 3))))
      (λ status fw'. Completes (toy_board (toy_responder (ResponderPhase.wait_m3 3))) status fw')
process_message_3-Completes_example =
    process_message_3-Completes (some toy_payload) 3
      (toy_board (toy_responder (ResponderPhase.wait_m3 3))) (omega arith)

lakers_edhoc_export_espnow_lmk_lem_example :
    lakers_edhoc_export_espnow_lmk
      (some (zeros 16))
      (toy_board (toy_responder (ResponderPhase.done 3)))
    ≡ exported
        (zeros 16)
        (toy_responder (ResponderPhase.done 3))
        (toy_board (toy_responder (ResponderPhase.done 3)))
        (some 3)
lakers_edhoc_export_espnow_lmk_lem_example =
    lakers_edhoc_export_espnow_lmk_lem (zeros 16)
      (toy_board (toy_responder (ResponderPhase.done 3))) (omega (arith, length-zeros 16))

build_exporter_context_lem_example :
    build_exporter_context toy_mac toy_other_mac 6 ≡ some (context_bytes toy_mac toy_other_mac 6)
build_exporter_context_lem_example = build_exporter_context_lem toy_mac toy_other_mac 6 refl refl

build_exporter_context-injective_example :
    (toy_mac ≡ toy_mac) × (toy_other_mac ≡ toy_other_mac) × (toy_channel ≡ toy_channel)
build_exporter_context-injective_example =
    build_exporter_context-injective toy_mac toy_other_mac toy_mac toy_other_mac toy_channel
      toy_channel refl refl refl refl refl

create_session_agree_example :
    Returns
      (create_session {p = toy} role_initiator toy_mac toy_other_mac 6 (toy_board empty))
      (λ r _. StartsWith i_start (context_bytes toy_mac toy_other_mac 6) r)
    × Returns
        (create_session {p = toy} role_responder toy_other_mac toy_mac 6 (toy_board empty))
        (λ r _. StartsWith r_start (context_bytes toy_mac toy_other_mac 6) r)
create_session_agree_example =
    create_session_agree toy_mac toy_other_mac 6 (toy_board empty) (toy_board empty) refl refl
      (omega arith) (omega arith)
