-- ===== src/Pairing/Invariant.antt =====
-- main/main.c: the state of the pairing and the session of the Lakers library keep in step.
use espnow_edhoc.Prelude.{
  ℕ, ◌≡◌, refl, sym, ◌∙◌, ap, Bool, true, false, ◌⊎◌, inl, inr, length, ◌==◌, ==_iff, Bool-cases,
  if◌then◌else◌,
}
use espnow_edhoc.Config.{Config}
use espnow_edhoc.Platform.{Platform}
use espnow_edhoc.Firmware.{Firmware, Outcome, return}
use espnow_edhoc.Firmware.Contracts.{
  Ensures, Upto, Upto-mono, Upto-Ensures, Upto-Returns, Returns, SameStatics,
}
use espnow_edhoc.Wire.{m1, m2, m3, ack, key_test, key_test_ack, type_code, Msg}
use espnow_edhoc.Session.Protocol.{
  Phase, i_start, i_wait_m2, i_done, r_start, r_wait_m3, r_done, view, context_of, MessagesFit,
}
use espnow_edhoc.Pairing.{
  PairingState, idle, wait_m1, wait_m2, wait_m3, wait_edhoc_ack, wait_key_test, wait_key_test_ack,
  complete, failed,
}
use espnow_edhoc.Pairing.Effects.{MsgFits, Sends, may_abort}
use espnow_edhoc.Pairing.Handler.{
  on_m1, on_m2, on_m3, on_ack, on_key_test, on_key_test_ack, handle_as_initiator,
  handle_as_responder, handle_received_message,
}
use espnow_edhoc.Pairing.Handler.Steps.{Reaches}
use espnow_edhoc.Pairing.Handler.Steps.MessageThree.{on_m3-Keyed}
use espnow_edhoc.Pairing.Handler.Steps.Initiator.{
  on_m2-Reaches, on_ack-Reaches, on_key_test_ack-Reaches,
}
use espnow_edhoc.Pairing.Handler.Steps.Responder.{on_m1-Reaches, on_key_test-Reaches}

-- the phase of a finished handshake
abbrev pub done_phase : Bool → Phase
done_phase true = i_done
done_phase false = r_done

-- The phase that the session has in each state of the pairing, by the role of the board.
abbrev pub InStep : PairingState → Bool → Phase → Type 0
InStep idle is_initiator phase = (is_initiator ≡ true) × (phase ≡ i_start)
InStep wait_m2 is_initiator phase = (is_initiator ≡ true) × (phase ≡ i_wait_m2)
InStep wait_edhoc_ack is_initiator phase = (is_initiator ≡ true) × (phase ≡ i_done)
InStep wait_key_test_ack is_initiator phase = (is_initiator ≡ true) × (phase ≡ i_done)
InStep wait_m1 is_initiator phase = (is_initiator ≡ false) × (phase ≡ r_start)
InStep wait_m3 is_initiator phase = (is_initiator ≡ false) × (phase ≡ r_wait_m3)
InStep wait_key_test is_initiator phase = (is_initiator ≡ false) × (phase ≡ r_done)
InStep complete is_initiator phase = phase ≡ done_phase is_initiator
InStep failed is_initiator phase = Unit

-- The transitions on a message of a type, for an initiator (`true`) and a responder.
pub data Moves : Bool → ℕ → PairingState → PairingState → Type 0 where
  stays :
      {is_initiator : Bool} {type : ℕ} {state : PairingState} → Moves is_initiator type state state
  takes_m1 : Moves false (type_code m1) wait_m1 wait_m3
  takes_m2 : Moves true (type_code m2) wait_m2 wait_edhoc_ack
  takes_m3 : Moves false (type_code m3) wait_m3 wait_key_test
  takes_ack : Moves true (type_code ack) wait_edhoc_ack wait_key_test_ack
  takes_key_test : Moves false (type_code key_test) wait_key_test complete
  takes_key_test_ack : Moves true (type_code key_test_ack) wait_key_test_ack complete

-- What a board is after a message: failed; or, if the message is of its session, a step further or
-- where it was, with the exporter context it had.
abbrev pub Handled :
    {p : Platform} → Config → Msg → PairingState → Firmware p → PairingState → Firmware p → Type 0
Handled cfg msg state fw state' fw' =
    SameStatics fw fw'
    × InStep state' cfg.device_is_initiator (view fw'.session)
    × ((state' ≡ failed)
        ⊎ ((msg.session_id ≡ cfg.edhoc_session_id)
            × Moves cfg.device_is_initiator msg.type state state'
            × (context_of fw'.session ≡ context_of fw.session)))

module _ {p : Platform} (cfg : Config) (msg : Msg) (state : PairingState) (fw : Firmware p)
    (session : msg.session_id ≡ cfg.edhoc_session_id) where
  reached :
      (next : PairingState) (to : Phase) (state' : PairingState) (fw' : Firmware p)
      → InStep next cfg.device_is_initiator to
      → Moves cfg.device_is_initiator msg.type state next
      → Reaches next to fw state' fw'
      → Handled cfg msg state fw state' fw'
  reached next to state' fw' step move (same, r) = elim r [
    | inl e ↦ rw e (same, tt, inl refl)
    | inr (e, v, k) ↦ rw (e, v) (same, step, inr (session, move, k))
  ]

  unmoved :
      InStep state cfg.device_is_initiator (view fw.session) → Handled cfg msg state fw state fw
  unmoved step = ((refl, refl), step, inr (session, stays, refl))

-- A state that waits for a message of one type: the handler of that type, or nothing.
awaiting :
    {p : Platform} (X : Type 0) (cfg : Config) (msg : Msg) (state next : PairingState) (to : Phase)
    (code : ℕ) (fw : Firmware p) (m : Firmware p → Outcome p PairingState)
    → msg.session_id ≡ cfg.edhoc_session_id
    → InStep state cfg.device_is_initiator (view fw.session)
    → InStep next cfg.device_is_initiator to
    → (msg.type ≡ code → Moves cfg.device_is_initiator msg.type state next)
    → Upto X (m fw) (λ state' fw'. Reaches next to fw state' fw')
    → Upto X
        ((if msg.type == code then m else return state) fw)
        (λ state' fw'. Handled cfg msg state fw state' fw')
awaiting X cfg msg state next to code fw m session step step' move h =
    elim (Bool-cases (msg.type == code)) [
      | inl t ↦ rw t (
          Upto-mono X (m fw) _ _ h (λ state' fw'.
            reached cfg msg state fw session next to state' fw' step' (move ((==_iff _ _).0 t))))
      | inr other ↦ rw other (unmoved cfg msg state fw session step)
    ]

module _ {p : Platform} {X : Type 0} (sends : Sends p X) (laws : MessagesFit p) (cfg : Config)
    (msg : Msg) (fits : MsgFits msg) (mac : length cfg.peer_mac ≡ 6)
    (session : msg.session_id ≡ cfg.edhoc_session_id) (fw : Firmware p) where
  initiator-Handled :
      (state : PairingState)
      → cfg.device_is_initiator ≡ true
      → InStep state cfg.device_is_initiator (view fw.session)
      → Upto X
          (handle_as_initiator cfg msg state fw)
          (λ state' fw'. Handled cfg msg state fw state' fw')
  unfolding handle_as_initiator
  initiator-Handled wait_m2 role step =
      awaiting X cfg msg wait_m2 wait_edhoc_ack i_done (type_code m2) fw (on_m2 cfg msg) session
        step (role, refl) (λ t. rw (role, t) takes_m2) (on_m2-Reaches sends laws cfg msg fw fits)
  initiator-Handled wait_edhoc_ack role step =
      awaiting X cfg msg wait_edhoc_ack wait_key_test_ack (view fw.session) (type_code ack) fw
        (on_ack cfg msg) session step step (λ t. rw (role, t) takes_ack)
        (on_ack-Reaches sends laws cfg msg fw fits mac)
  initiator-Handled wait_key_test_ack role step =
      awaiting X cfg msg wait_key_test_ack complete (view fw.session) (type_code key_test_ack) fw
        (on_key_test_ack msg) session step (step.1 ∙ sym (ap done_phase role))
        (λ t. rw (role, t) takes_key_test_ack) (on_key_test_ack-Reaches sends msg fw fits)
  initiator-Handled state role step = unmoved cfg msg state fw session step

  responder-Handled :
      (state : PairingState)
      → cfg.device_is_initiator ≡ false
      → InStep state cfg.device_is_initiator (view fw.session)
      → Upto X
          (handle_as_responder cfg msg state fw)
          (λ state' fw'. Handled cfg msg state fw state' fw')
  unfolding handle_as_responder
  responder-Handled wait_m1 role step =
      awaiting X cfg msg wait_m1 wait_m3 r_wait_m3 (type_code m1) fw (on_m1 cfg msg) session step
        (role, refl) (λ t. rw (role, t) takes_m1) (on_m1-Reaches sends laws cfg msg fw fits)
  responder-Handled wait_m3 role step =
      awaiting X cfg msg wait_m3 wait_key_test r_done (type_code m3) fw (on_m3 cfg msg) session step
        (role, refl) (λ t. rw (role, t) takes_m3)
        (Upto-mono X (on_m3 cfg msg fw) _ _ (on_m3-Keyed sends laws cfg msg fw fits mac)
          (λ state' fw' h. h.0))
  responder-Handled wait_key_test role step =
      awaiting X cfg msg wait_key_test complete (view fw.session) (type_code key_test) fw
        (on_key_test cfg msg) session step (step.1 ∙ sym (ap done_phase role))
        (λ t. rw (role, t) takes_key_test) (on_key_test-Reaches sends cfg msg fw fits)
  responder-Handled state role step = unmoved cfg msg state fw session step

  role-Handled :
      (state : PairingState) (is_initiator : Bool)
      → cfg.device_is_initiator ≡ is_initiator
      → InStep state cfg.device_is_initiator (view fw.session)
      → Upto X
          ((if is_initiator
              then handle_as_initiator cfg msg state
              else handle_as_responder cfg msg state)
            fw)
          (λ state' fw'. Handled cfg msg state fw state' fw')
  role-Handled state true role step = initiator-Handled state role step
  role-Handled state false role step = responder-Handled state role step

-- a message, with any driver
pub handle_received_message-Upto :
    {p : Platform} {X : Type 0} (sends : Sends p X) (laws : MessagesFit p) (cfg : Config)
    (msg : Msg) (state : PairingState) (fw : Firmware p)
    → MsgFits msg
    → length cfg.peer_mac ≡ 6
    → InStep state cfg.device_is_initiator (view fw.session)
    → Upto X
        (handle_received_message cfg msg state fw)
        (λ state' fw'. Handled cfg msg state fw state' fw')
unfolding handle_received_message
handle_received_message-Upto sends laws cfg msg state fw fits mac step =
    elim (Bool-cases (msg.session_id == cfg.edhoc_session_id)) [
      | inl same ↦
          rw same
            (role-Handled sends laws cfg msg fits mac ((==_iff _ _).0 same) fw state _ refl step)
      | inr other ↦ rw other ((refl, refl), tt, inl refl)
    ]

-- On a message that fits its buffer, a board in step with its session makes no faulty access; if
-- it does not abort it is in step again, and it has failed, or the message is of its session and
-- the state stays or takes the transition of its role for that message type, with the exporter
-- context kept.
pub handle_received_message-Handled :
    {p : Platform} (laws : MessagesFit p) (cfg : Config) (msg : Msg) (state : PairingState)
    (fw : Firmware p)
    → MsgFits msg
    → length cfg.peer_mac ≡ 6
    → InStep state cfg.device_is_initiator (view fw.session)
    → Ensures
        (handle_received_message cfg msg state fw)
        (λ state' fw'. Handled cfg msg state fw state' fw')
handle_received_message-Handled {p} laws cfg msg state fw fits mac step =
    Upto-Ensures Unit (handle_received_message cfg msg state fw) _
      (handle_received_message-Upto (may_abort p) laws cfg msg state fw fits mac step)

-- If the driver accepts every frame that it is given, the handling of a message that fits its
-- buffer returns on a board in step with its session, with the result that the invariant
-- describes: in step again, and failed, or one step further or where it was.
pub handle_received_message-Returns :
    {p : Platform} (sends : Sends p ⊥) (laws : MessagesFit p) (cfg : Config) (msg : Msg)
    (state : PairingState) (fw : Firmware p)
    → MsgFits msg
    → length cfg.peer_mac ≡ 6
    → InStep state cfg.device_is_initiator (view fw.session)
    → Returns
        (handle_received_message cfg msg state fw)
        (λ state' fw'. Handled cfg msg state fw state' fw')
handle_received_message-Returns sends laws cfg msg state fw fits mac step =
    Upto-Returns (handle_received_message cfg msg state fw) _
      (handle_received_message-Upto sends laws cfg msg state fw fits mac step)
