-- ===== src/Pairing/App/Loop.antt =====
-- main/main.c: the loop of `app_task`, and the frames that the driver delivers between its rounds.
use espnow_edhoc.Prelude.{
  ◌≡◌, refl, ◌∙◌, ap, Bool, true, false, not, ◌&&◌, inl, inr, Option, none, some, arith, length,
  Bool-cases, if◌then◌else◌,
}
use espnow_edhoc.Packet.{Packet}
use espnow_edhoc.Config.{Config}
use espnow_edhoc.Platform.{Platform}
use espnow_edhoc.Firmware.{◌>>=◌, return, Firmware}
use espnow_edhoc.Firmware.Contracts.{
  Ensures, Upto, Upto-bind, Upto-mono, Upto-check, Upto-Ensures, Upto-Returns, Returns,
  Returns-bind_Upto, SameStatics, OnlyWorld,
}
use espnow_edhoc.Wire.{m1, Msg}
use espnow_edhoc.Wire.Receiving.{edhoc_transport_parse_rx_sound}
use espnow_edhoc.EspNow.{espnow_transport_recv}
use espnow_edhoc.EspNow.Receiving.{QueueDelivers, IfPacket, espnow_transport_recv_lem}
use espnow_edhoc.Session.{Status, Out, role_initiator}
use espnow_edhoc.Session.Protocol.{
  refusal-not_ok, i_start, i_wait_m2, view, MessagesFit, Answers, succeeds, fails, refuses,
}
use espnow_edhoc.Session.Messages.{lakers_edhoc_make_message_1}
use espnow_edhoc.Session.Messages.Initiator.{make_message_1-Answers}
use espnow_edhoc.Pairing.{send_edhoc_payload}
use espnow_edhoc.Pairing.Effects.{MsgFits, Sends, may_abort, Sent}
use espnow_edhoc.Pairing.Handler.{message_buffer, length_of, handle_received_message}
use espnow_edhoc.Pairing.Handler.Steps.{left_message, message-Sent, message_buffer-HasRoom}
use espnow_edhoc.Pairing.Invariant.{InStep, handle_received_message-Upto}
use espnow_edhoc.Pairing.App.{
  App, app_round, send_m1, start_if_due, receive_once, handle_rx, handle_parsed, zero_packet,
  zero_msg,
}

-- the state is in step with the session, and the statics are those of `fw`
abbrev pub Kept : {p : Platform} → Config → Firmware p → App → Firmware p → Type 0
Kept cfg fw app' fw' =
    SameStatics fw fw' × InStep app'.state cfg.device_is_initiator (view fw'.session)

module _ {p : Platform} {X : Type 0} (sends : Sends p X) (laws : MessagesFit p) (cfg : Config) where
  send_m1-Kept :
      (app : App) (status : Status) (out : Out) (fw fw₁ : Firmware p)
      → cfg.device_is_initiator ≡ true
      → Answers i_start i_wait_m2 role_initiator fw status out fw₁
      → Upto X (send_m1 cfg app (status, out) fw₁) (λ r fw'. Kept cfg fw r.1 fw')
  unfolding send_m1
  send_m1-Kept app status out fw fw₁ role a = elim a.follows [
    | succeeds ok _ v k ↦ rw ok (
        Returns-bind_Upto X
          (send_edhoc_payload cfg m1 1 out.output (length_of out.output_length) fw₁) _
          (λ e fw₂. Sent X fw₁ e fw₂) (λ r fw'. Kept cfg fw r.1 fw')
          (message-Sent sends cfg m1 1 out.output out.output_length fw₁
            (left_message status out.output out.output_length ok a.message))
          (λ e fw₂ h.
            Upto-check X e _ fw₂ _ h.1
              ((h.0.1.0 ∙ a.same.0, h.0.1.1 ∙ a.same.1), (role, ap view h.0.0 ∙ v))))
    | fails e _ _ ↦ rw e (a.same, tt)
    | refuses e _ ↦ rw (refusal-not_ok status e) (a.same, tt)
  ]

  started-Kept :
      (app : App) (due : Bool) (fw fw₁ : Firmware p)
      → cfg.device_is_initiator ≡ true
      → OnlyWorld fw fw₁
      → InStep app.state cfg.device_is_initiator (view fw.session)
      → Upto X
          ((if due
              then (do r ← lakers_edhoc_make_message_1 message_buffer; send_m1 cfg app r)
              else return (true, app))
            fw₁)
          (λ r fw'. Kept cfg fw r.1 fw')
  started-Kept app false fw fw₁ role only step = (only.1, rw only.0 step)
  started-Kept app true fw fw₁ role only step =
      Returns-bind_Upto X (lakers_edhoc_make_message_1 message_buffer fw₁) (send_m1 cfg app)
        (λ a fw'. Answers i_start i_wait_m2 role_initiator fw₁ a.0 a.1 fw')
        (λ r fw'. Kept cfg fw r.1 fw')
        (make_message_1-Answers laws message_buffer fw₁ message_buffer-HasRoom)
        (λ a fw₂ h.
          Upto-mono X (send_m1 cfg app a fw₂) _ _ (send_m1-Kept app a.0 a.1 fw₁ fw₂ role h)
            (λ r fw' k. ((k.0.0 ∙ only.1.0, k.0.1 ∙ only.1.1), k.1)))

  start_if_due-Kept :
      (app : App) (fw : Firmware p)
      → InStep app.state cfg.device_is_initiator (view fw.session)
      → Upto X (start_if_due cfg app fw) (λ r fw'. Kept cfg fw r.1 fw')
  unfolding start_if_due
  start_if_due-Kept app fw step =
      elim (Bool-cases (cfg.device_is_initiator && not app.initiator_started)) [
        | inl waiting ↦
            rw waiting (started-Kept app _ fw _ (ground arith) (refl, (refl, refl)) step)
        | inr running ↦ rw running ((refl, refl), step)
      ]

  handle_parsed-Kept :
      (app : App) (msg : Msg) (fw : Firmware p)
      → MsgFits msg
      → length cfg.peer_mac ≡ 6
      → InStep app.state cfg.device_is_initiator (view fw.session)
      → Upto X (handle_parsed cfg app (true, some msg) fw) (λ app' fw'. Kept cfg fw app' fw')
  unfolding handle_parsed
  handle_parsed-Kept app msg fw fits mac step =
      Upto-bind X (handle_received_message cfg msg app.state fw)
        (λ state. return (record app { state = state })) _ _
        (handle_received_message-Upto sends laws cfg msg app.state fw fits mac step)
        (λ state fw' h. (h.0, h.1))

  handle_rx-Kept :
      (app : App) (r : Bool × Option Packet) (fw fw₁ : Firmware p)
      → length cfg.peer_mac ≡ 6
      → OnlyWorld fw fw₁
      → IfPacket r
      → InStep app.state cfg.device_is_initiator (view fw.session)
      → Upto X (handle_rx cfg app r fw₁) (λ app' fw'. Kept cfg fw app' fw')
  unfolding handle_rx handle_parsed
  handle_rx-Kept app (false, rx) fw fw₁ mac only h step = (only.1, rw only.0 step)
  handle_rx-Kept app (true, none) fw fw₁ mac only h step = absurd h
  handle_rx-Kept app (true, some rx) fw fw₁ mac only h step =
      elim (edhoc_transport_parse_rx_sound rx zero_msg h) [
        | inl e ↦ rw e (only.1, rw only.0 step)
        | inr (msg, e, m) ↦ rw e (
            Upto-mono X (handle_parsed cfg app (true, some msg) fw₁) _ _
              (handle_parsed-Kept app msg fw₁ (record { size = m.size; len_bound = m.len_bound })
                mac (rw only.0 step))
              (λ app' fw' k. ((k.0.0 ∙ only.1.0, k.0.1 ∙ only.1.1), k.1)))
      ]

  receive_once-Kept :
      (queue : QueueDelivers p) (r : Bool × App) (fw : Firmware p)
      → length cfg.peer_mac ≡ 6
      → InStep r.1.state cfg.device_is_initiator (view fw.session)
      → Upto X (receive_once cfg r fw) (λ app' fw'. Kept cfg fw app' fw')
  unfolding receive_once
  receive_once-Kept queue (false, app) fw mac step = ((refl, refl), step)
  receive_once-Kept queue (true, app) fw mac step =
      Returns-bind_Upto X (espnow_transport_recv (some zero_packet) (p.idf.pd_ms_to_ticks 100) fw)
        (handle_rx cfg app) (λ r fw₁. OnlyWorld fw fw₁ × IfPacket r)
        (λ app' fw'. Kept cfg fw app' fw') (espnow_transport_recv_lem queue zero_packet _ fw)
        (λ r fw₁ h. handle_rx-Kept app r fw fw₁ mac h.0 h.1 step)

-- a round, with any driver
pub app_round-Upto :
    {p : Platform} {X : Type 0} (sends : Sends p X) (laws : MessagesFit p) (queue : QueueDelivers p)
    (cfg : Config) (app : App) (fw : Firmware p)
    → length cfg.peer_mac ≡ 6
    → InStep app.state cfg.device_is_initiator (view fw.session)
    → Upto X (app_round cfg app fw) (λ app' fw'. Kept cfg fw app' fw')
unfolding app_round
app_round-Upto {X = X} sends laws queue cfg app fw mac step =
    Upto-bind X (start_if_due cfg app fw) (receive_once cfg) (λ r fw₁. Kept cfg fw r.1 fw₁) _
      (start_if_due-Kept sends laws cfg app fw step)
      (λ r fw₁ k.
        Upto-mono X (receive_once cfg r fw₁) _ _
          (receive_once-Kept sends laws cfg queue r fw₁ mac k.1)
          (λ app' fw' h. ((h.0.0 ∙ k.0.0, h.0.1 ∙ k.0.1), h.1)))

-- A round of the loop makes no faulty memory access and keeps the state in step with the session.
pub app_round-Kept :
    {p : Platform} (laws : MessagesFit p) (queue : QueueDelivers p) (cfg : Config) (app : App)
    (fw : Firmware p)
    → length cfg.peer_mac ≡ 6
    → InStep app.state cfg.device_is_initiator (view fw.session)
    → Ensures (app_round cfg app fw) (λ app' fw'. Kept cfg fw app' fw')
app_round-Kept {p} laws queue cfg app fw mac step =
    Upto-Ensures Unit (app_round cfg app fw) _
      (app_round-Upto (may_abort p) laws queue cfg app fw mac step)

-- If the driver accepts every frame that it is given, a round of the loop of a board in step with
-- its session returns: it neither aborts nor faults, and the board is in step again. The peer
-- address has six bytes, the queue delivers packets of the declared sizes, and messages of the
-- Lakers library hold at most 192 bytes.
pub app_round-Returns :
    {p : Platform} (sends : Sends p ⊥) (laws : MessagesFit p) (queue : QueueDelivers p)
    (cfg : Config) (app : App) (fw : Firmware p)
    → length cfg.peer_mac ≡ 6
    → InStep app.state cfg.device_is_initiator (view fw.session)
    → Returns (app_round cfg app fw) (λ app' fw'. Kept cfg fw app' fw')
app_round-Returns sends laws queue cfg app fw mac step =
    Upto-Returns (app_round cfg app fw) _ (app_round-Upto sends laws queue cfg app fw mac step)
