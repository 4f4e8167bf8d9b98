-- ===== src/Boot/Safety.antt =====
-- main/main.c from power-up on: app_main, then the application task with its loop.
use espnow_edhoc.Prelude.{
  ◌≡◌, refl, ◌∙◌, Bool, true, false, inl, inr, Option, none, some, length, if◌then◌else◌,
}
use espnow_edhoc.Memory.{is_null}
use espnow_edhoc.Config.{Config}
use espnow_edhoc.Platform.{Platform}
use espnow_edhoc.Firmware.{Firmware, returned, fault}
use espnow_edhoc.Firmware.Contracts.{Ensures-returned, Returns, Returns-returned, OnlyWorld}
use espnow_edhoc.EspNow.Receiving.{QueueDelivers}
use espnow_edhoc.Session.Protocol.{MessagesFit, view}
use espnow_edhoc.Session.Start.{start_phase}
use espnow_edhoc.Boot.{task_started, app_main}
use espnow_edhoc.Boot.Start.{ReadsMac, app_main-Booted}
use espnow_edhoc.Pairing.{idle, wait_m1}
use espnow_edhoc.Pairing.Invariant.{InStep}
use espnow_edhoc.Pairing.App.{App, app_start, app_round}
use espnow_edhoc.Pairing.App.Reachable.{Reachable, app_round-safe}

first_state-InStep :
    (is_initiator : Bool)
    → InStep (if is_initiator then idle else wait_m1) is_initiator (start_phase is_initiator)
first_state-InStep true = (refl, refl)
first_state-InStep false = (refl, refl)

-- the locals of the task's start fit a session that the boot has left
app_start-InStep :
    {p : Platform} (cfg : Config) (fw : Firmware p)
    → view fw.session ≡ start_phase cfg.device_is_initiator
    → Returns
        (app_start cfg fw)
        (λ app fw'. OnlyWorld fw fw' × InStep app.state cfg.device_is_initiator (view fw'.session))
unfolding app_start
app_start-InStep cfg fw phase =
    ((refl, (refl, refl)), rw phase (first_state-InStep cfg.device_is_initiator))

some_of : {A : Type 0} (o : Option A) → is_null o ≡ false → (a : A) × (o ≡ some a)
some_of none e = cc
some_of (some a) e = (a, refl)

-- From power-up on: if app_main ends with the task running, then in every state that the
-- application task comes to from its start, by rounds of its loop and by frames of the driver, the
-- next round makes no memory access outside an array. The peer address and the address that the
-- board reads have six bytes, the queue delivers packets of the declared sizes, messages of the
-- Lakers library hold at most 192 bytes and its exporter fills the slice.
pub boot-safe :
    {p : Platform} (laws : MessagesFit p) (delivers : QueueDelivers p) (reads : ReadsMac p)
    (cfg : Config) (fw fw₁ fw₂ fw₃ : Firmware p) (app₀ app : App)
    → length cfg.peer_mac ≡ 6
    → app_main cfg fw ≡ returned task_started fw₁
    → app_start cfg fw₁ ≡ returned app₀ fw₂
    → Reachable cfg app₀ fw₂ app fw₃
    → ¬ (app_round cfg app fw₃ ≡ fault)
boot-safe laws delivers reads cfg fw fw₁ fw₂ fw₃ app₀ app mac boots starts reachable =
    elim (Ensures-returned _ task_started fw₁ _ (app_main-Booted reads cfg fw mac) boots) [
      | inl (other, _) ↦ λ _. cc
      | inr started ↦
          let (only, step) =
            Returns-returned _ app₀ fw₂ _ (app_start-InStep cfg fw₁ started.ready.phase) starts in
          let (q, queue) = some_of fw₁.s_rx_queue started.ready.queue in
          app_round-safe laws delivers cfg q app₀ fw₂ app fw₃ mac (only.1.1 ∙ queue) step reachable
    ]
