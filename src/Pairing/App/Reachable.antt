-- ===== src/Pairing/App/Reachable.antt =====
-- main/main.c: what the loop of `app_task` comes to, with the frames that arrive between its rounds.
use espnow_edhoc.Prelude.{
  subst, ◌==◌, ◌||◌, ltb, ℕ, ◌≤◌, ◌≡◌, refl, ◌∙◌, true, false, some, List, length, if◌then◌else◌,
}
use espnow_edhoc.Packet.{pos}
use espnow_edhoc.Config.{Config}
use espnow_edhoc.Platform.{Platform}
use espnow_edhoc.Firmware.{Firmware, returned, fault}
use espnow_edhoc.Firmware.Contracts.{Ensures, OnlyWorld, Ensures-returned}
use espnow_edhoc.EspNow.{espnow_recv_cb}
use espnow_edhoc.EspNow.Receiving.{QueueDelivers, packet_of, espnow_recv_cb_lem}
use espnow_edhoc.Session.Protocol.{view, MessagesFit}
use espnow_edhoc.Pairing.Invariant.{InStep}
use espnow_edhoc.Pairing.App.{App, app_round}
use espnow_edhoc.Pairing.App.Loop.{Kept, app_round-Kept}

-- What a board comes to, from a start: rounds of its loop, and frames that the driver hands to the
-- receive callback between them. The callback's arguments are as ESP-NOW documents them.
pub data Reachable {p : Platform} (cfg : Config) (app₀ : App) (fw₀ : Firmware p)
    : App → Firmware p → Type 0 where
  starts : Reachable cfg app₀ fw₀ app₀ fw₀
  runs_round :
      {app app' : App} {fw fw' : Firmware p}
      → Reachable cfg app₀ fw₀ app fw
      → app_round cfg app fw ≡ returned app' fw'
      → Reachable cfg app₀ fw₀ app' fw'
  takes_frame :
      {app : App} {fw fw' : Firmware p} (src bytes : List ℕ) (n : ℕ)
      → Reachable cfg app₀ fw₀ app fw
      → length src ≡ 6
      → n ≤ length bytes
      → espnow_recv_cb (some (some src)) (some bytes) (pos n) fw ≡ returned tt fw'
      → Reachable cfg app₀ fw₀ app fw'

frame-OnlyWorld :
    {p : Platform} (src bytes : List ℕ) (n : ℕ) (q : p.Queue) (fw : Firmware p)
    → length src ≡ 6
    → n ≤ length bytes
    → fw.s_rx_queue ≡ some q
    → Ensures (espnow_recv_cb (some (some src)) (some bytes) (pos n) fw) (λ _ fw'. OnlyWorld fw fw')
frame-OnlyWorld {p} src bytes n q fw mac fits queue =
    rw (espnow_recv_cb_lem src bytes n q fw mac fits queue)
      (elim (n == 0 || ltb 250 n)
        as (λ b.
          Ensures
            (if b
              then returned tt fw
              else returned tt
                  (record fw { world = (p.idf.x_queue_send q (packet_of src bytes n) fw.world).1 }))
            (λ _ fw'. OnlyWorld fw fw')) [
              | true ↦ (refl, (refl, refl))
              | false ↦ (refl, (refl, refl))
            ])

-- Under the same conditions the pairing state of the board stays in step with the phase of its
-- Lakers session, or is the failed one, in every state that it comes to, and its channel and queue
-- stay those of the start.
pub Reachable-Kept :
    {p : Platform} (laws : MessagesFit p) (delivers : QueueDelivers p) (cfg : Config) (q : p.Queue)
    (app₀ : App) (fw₀ : Firmware p) (app : App) (fw : Firmware p)
    → length cfg.peer_mac ≡ 6
    → fw₀.s_rx_queue ≡ some q
    → InStep app₀.state cfg.device_is_initiator (view fw₀.session)
    → Reachable cfg app₀ fw₀ app fw
    → Kept cfg fw₀ app fw
Reachable-Kept laws delivers cfg q app₀ fw₀ app fw mac queue step starts = ((refl, refl), step)
Reachable-Kept laws delivers cfg q app₀ fw₀ app fw mac queue step
      (runs_round {app = old} {fw = fw₁} r e) =
    let before = Reachable-Kept laws delivers cfg q app₀ fw₀ old fw₁ mac queue step r in
    let after =
      Ensures-returned _ app fw _ (app_round-Kept laws delivers cfg old fw₁ mac before.1) e in
    ((after.0.0 ∙ before.0.0, after.0.1 ∙ before.0.1), after.1)
Reachable-Kept laws delivers cfg q app₀ fw₀ app fw mac queue step
      (takes_frame {fw = fw₁} src bytes n r len fits e) =
    let before = Reachable-Kept laws delivers cfg q app₀ fw₀ app fw₁ mac queue step r in
    let after =
      Ensures-returned _ tt fw _ (frame-OnlyWorld src bytes n q fw₁ len fits (before.0.1 ∙ queue))
        e in
    ((after.1.0 ∙ before.0.0, after.1.1 ∙ before.0.1), rw after.0 before.1)

-- In every state that a board comes to from a start in step with its session, by rounds of its
-- loop and by frames of the driver, the next round of the loop makes no memory access outside an
-- array; the peer address has six bytes, the receive queue exists and delivers packets of the
-- declared sizes, and messages of the Lakers library hold at most 192 bytes.
pub app_round-safe :
    {p : Platform} (laws : MessagesFit p) (delivers : QueueDelivers p) (cfg : Config) (q : p.Queue)
    (app₀ : App) (fw₀ : Firmware p) (app : App) (fw : Firmware p)
    → length cfg.peer_mac ≡ 6
    → fw₀.s_rx_queue ≡ some q
    → InStep app₀.state cfg.device_is_initiator (view fw₀.session)
    → Reachable cfg app₀ fw₀ app fw
    → ¬ (app_round cfg app fw ≡ fault)
app_round-safe laws delivers cfg q app₀ fw₀ app fw mac queue step reachable e =
    subst (λ o. Ensures o (λ app' fw'. Kept cfg fw app' fw')) e
      (app_round-Kept laws delivers cfg app fw mac
        (Reachable-Kept laws delivers cfg q app₀ fw₀ app fw mac queue step reachable).1)
