-- ===== src/Pairing/App/Failed.antt =====
-- main/main.c: a board whose pairing has failed.
use espnow_edhoc.Prelude.{
  ◌≡◌, refl, ◌∙◌, ap, Bool, true, false, not, ◌&&◌, inl, inr, Option, none, some, ◌==◌, Bool-cases,
}
use espnow_edhoc.Packet.{Packet}
use espnow_edhoc.Config.{Config}
use espnow_edhoc.Platform.{Platform}
use espnow_edhoc.Firmware.{Firmware, returned}
use espnow_edhoc.Firmware.Contracts.{Returns, Returns-bind, Returns-returned, OnlyWorld}
use espnow_edhoc.Wire.{Msg}
use espnow_edhoc.Wire.Receiving.{edhoc_transport_parse_rx_sound}
use espnow_edhoc.EspNow.{espnow_transport_recv}
use espnow_edhoc.EspNow.Receiving.{QueueDelivers, IfPacket, espnow_transport_recv_lem}
use espnow_edhoc.Pairing.{failed}
use espnow_edhoc.Pairing.Handler.{handle_as_initiator, handle_as_responder, handle_received_message}
use espnow_edhoc.Pairing.App.{
  App, app_round, start_if_due, receive_once, handle_rx, handle_parsed, zero_packet, zero_msg,
}
use espnow_edhoc.Pairing.App.Reachable.{Reachable, starts, runs_round, takes_frame}

handled_failed :
    {p : Platform} (cfg : Config) (msg : Msg) (fw : Firmware p)
    → handle_received_message cfg msg failed fw ≡ returned failed fw
unfolding handle_received_message handle_as_initiator handle_as_responder
handled_failed cfg msg fw = elim (Bool-cases (msg.session_id == cfg.edhoc_session_id)) [
  | inr other ↦ rw other refl
  | inl same ↦ rw same (elim (Bool-cases cfg.device_is_initiator) [
    | inl initiator ↦ rw initiator refl
    | inr responder ↦ rw responder refl
  ])
]

-- the board as it was
abbrev Unmoved : {p : Platform} → App → Firmware p → App → Firmware p → Type 0
Unmoved app fw app' fw' = (app' ≡ app) × OnlyWorld fw fw'

module _ {p : Platform} (delivers : QueueDelivers p) (cfg : Config) (app : App)
    (has_failed : app.state ≡ failed)
    (not_due : (cfg.device_is_initiator && not app.initiator_started) ≡ false) where
  handle_parsed-Unmoved :
      (msg : Msg) (fw : Firmware p)
      → Returns (handle_parsed cfg app (true, some msg) fw) (λ app' fw'. Unmoved app fw app' fw')
  unfolding handle_parsed
  handle_parsed-Unmoved msg fw =
      rw (has_failed, handled_failed cfg msg fw) (rw (← has_failed) refl, (refl, (refl, refl)))

  handle_rx-Unmoved :
      (r : Bool × Option Packet) (fw : Firmware p)
      → IfPacket r
      → Returns (handle_rx cfg app r fw) (λ app' fw'. Unmoved app fw app' fw')
  unfolding handle_rx handle_parsed
  handle_rx-Unmoved (false, rx) fw h = (refl, (refl, (refl, refl)))
  handle_rx-Unmoved (true, none) fw h = absurd h
  handle_rx-Unmoved (true, some rx) fw h = elim (edhoc_transport_parse_rx_sound rx zero_msg h) [
    | inl e ↦ rw e (refl, (refl, (refl, refl)))
    | inr (msg, e, m) ↦ rw e (handle_parsed-Unmoved msg fw)
  ]

  -- A round
  app_round-Unmoved :
      (fw : Firmware p) → Returns (app_round cfg app fw) (λ app' fw'. Unmoved app fw app' fw')
  unfolding app_round start_if_due receive_once
  app_round-Unmoved fw = rw not_due (
      Returns-bind (espnow_transport_recv (some zero_packet) (p.idf.pd_ms_to_ticks 100) fw)
        (handle_rx cfg app) _ _ (espnow_transport_recv_lem delivers zero_packet _ fw)
        (λ r fw₁ h. rw (← h.0.0, ← h.0.1.0, ← h.0.1.1) (handle_rx-Unmoved r fw₁ h.1)))

-- A board whose pairing has failed, and that is a responder or has started as initiator, keeps its
-- locals, the failed state with them, whatever rounds and frames follow; the queue delivers
-- packets of the declared sizes.
pub Reachable-failed :
    {p : Platform} (delivers : QueueDelivers p) (cfg : Config) (app₀ : App) (fw₀ : Firmware p)
    (app : App) (fw : Firmware p)
    → app₀.state ≡ failed
    → (cfg.device_is_initiator && not app₀.initiator_started) ≡ false
    → Reachable cfg app₀ fw₀ app fw
    → app ≡ app₀
Reachable-failed delivers cfg app₀ fw₀ app fw has_failed not_due starts = refl
Reachable-failed delivers cfg app₀ fw₀ app fw has_failed not_due
      (runs_round {app = old} {fw = fw₁} r e) =
    let before = Reachable-failed delivers cfg app₀ fw₀ old fw₁ has_failed not_due r in
    let after =
      Returns-returned _ app fw _
        (app_round-Unmoved delivers cfg old (ap (λ a. a.state) before ∙ has_failed)
          (ap (λ a. cfg.device_is_initiator && not a.initiator_started) before ∙ not_due) fw₁)
        e in
    after.0 ∙ before
Reachable-failed delivers cfg app₀ fw₀ app fw has_failed not_due
      (takes_frame {fw = fw₁} src bytes n r len fits e) =
    Reachable-failed delivers cfg app₀ fw₀ app fw₁ has_failed not_due r
