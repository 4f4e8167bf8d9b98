-- ===== src/Boot/Ready.antt =====
-- app_main of main/main.c for a configured peer: the session, and the start of the task.
use espnow_edhoc.Prelude.{
  ℕ, ◌≡◌, refl, ◌∙◌, ap, Bool, true, false, inl, inr, none, some, List, length, Bool-cases,
  if◌then◌else◌,
}
use espnow_edhoc.Memory.{memcpy_whole, is_null}
use espnow_edhoc.Config.{Config}
use espnow_edhoc.Platform.{Platform}
use espnow_edhoc.Firmware.{Firmware, M}
use espnow_edhoc.Firmware.Contracts.{
  Ensures, Ensures-check, Returns, Returns-bind_Ensures, OnlyWorld,
}
use espnow_edhoc.EspNow.{espnow_transport_add_peer}
use espnow_edhoc.Session.{Status, is_status_ok}
use espnow_edhoc.Session.Protocol.{view, context_of}
use espnow_edhoc.Session.Start.{role_of, start_phase, context_for, Starts, session_init-Starts}
use espnow_edhoc.EspNow.Peers.{add_plain_peer-OnlyWorld}
use espnow_edhoc.Ffi.{
  lakers_edhoc_role_initiator, lakers_edhoc_role_responder, wrap_lakers_edhoc_session_init,
}
use espnow_edhoc.Boot.{Boot, task_started, start_app, start_session}

-- What the application task finds: the transport's queue, the board's channel, and a fresh session
-- of the board's role with this exporter context.
pub record TaskReady {p : Platform} (cfg : Config) (context : List ℕ) (fw' : Firmware p)
    : Type 0 where
  pub queue : is_null fw'.s_rx_queue ≡ false
  pub channel : fw'.s_channel ≡ cfg.espnow_channel
  pub phase : view fw'.session ≡ start_phase cfg.device_is_initiator
  pub context_eq : context_of fw'.session ≡ context

-- the transport after its initialisation, with the session as it was
abbrev pub TransportReady : {p : Platform} → Config → Firmware p → Type 0
TransportReady cfg fw' = (is_null fw'.s_rx_queue ≡ false) × (fw'.s_channel ≡ cfg.espnow_channel)

wrap-Starts :
    {p : Platform} (is_initiator : Bool) (own peer : List ℕ) (channel : ℕ) (fw : Firmware p)
    → length own ≡ 6
    → length peer ≡ 6
    → Returns
        (wrap_lakers_edhoc_session_init (role_of is_initiator) (some own) (some peer) channel fw)
        (λ status fw'.
          Starts is_initiator (context_for is_initiator own peer channel) fw status fw')
unfolding wrap_lakers_edhoc_session_init
wrap-Starts {p} is_initiator own peer channel fw ho hp =
    rw (memcpy_whole own 6 ho, memcpy_whole peer 6 hp)
      (elim (Bool-cases (p.idf.x_task_create fw.world).0) [
        | inl made ↦ rw made (
            session_init-Starts is_initiator own peer channel
              (record fw { world = (p.idf.x_task_create fw.world).1 }) ho hp)
        | inr failed ↦ rw failed ((refl, refl), inl (refl, refl))
      ])

wrapped : {p : Platform} → Config → List ℕ → Bool → M p Status
wrapped cfg own is_initiator =
    wrap_lakers_edhoc_session_init
      (if is_initiator then lakers_edhoc_role_initiator else lakers_edhoc_role_responder) (some own)
      (some cfg.peer_mac) cfg.espnow_channel

wrapped-Starts :
    {p : Platform} (cfg : Config) (own : List ℕ) (is_initiator : Bool) (fw : Firmware p)
    → length own ≡ 6
    → length cfg.peer_mac ≡ 6
    → Returns (wrapped cfg own is_initiator fw) (λ status fw'.
      Starts is_initiator
        (context_for is_initiator own cfg.peer_mac cfg.espnow_channel)
        fw
        status
        fw')
unfolding wrapped
wrapped-Starts cfg own true fw ho hp = wrap-Starts true own cfg.peer_mac cfg.espnow_channel fw ho hp
wrapped-Starts cfg own false fw ho hp =
    wrap-Starts false own cfg.peer_mac cfg.espnow_channel fw ho hp

-- the task is started and finds what it needs
abbrev pub Ready : {p : Platform} → Config → List ℕ → Boot → Firmware p → Type 0
Ready cfg own boot fw' =
    (boot ≡ task_started)
    × TaskReady cfg (context_for cfg.device_is_initiator own cfg.peer_mac cfg.espnow_channel) fw'

module _ {p : Platform} (cfg : Config) (own : List ℕ) (ho : length own ≡ 6)
    (hp : length cfg.peer_mac ≡ 6) where
  start_app-Ready :
      (status : Status) (fw fw' : Firmware p)
      → TransportReady cfg fw
      → Starts cfg.device_is_initiator
          (context_for cfg.device_is_initiator own cfg.peer_mac cfg.espnow_channel)
          fw
          status
          fw'
      → Ensures (start_app status fw') (λ boot fw''. Ready cfg own boot fw'')
  unfolding start_app
  start_app-Ready status fw fw' ready starts = elim starts.1 [
    | inl (bad, _) ↦ rw bad tt
    | inr (phase, context) ↦ elim (Bool-cases (is_status_ok status)) [
      | inr bad ↦ rw bad tt
      | inl ok ↦ rw ok (elim (Bool-cases (p.idf.x_task_create fw'.world).0) [
        | inr failed ↦ rw failed tt
        | inl made ↦ rw made (
          refl,
          record {
            queue = ap is_null starts.0.1 ∙ ready.0;
            channel = starts.0.0 ∙ ready.1;
            phase = phase;
            context_eq = context;
          },
        )
      ])
    ]
  ]

  pub start_session-Ready :
      (fw : Firmware p)
      → TransportReady cfg fw
      → Ensures (start_session cfg own fw) (λ boot fw'. Ready cfg own boot fw')
  unfolding start_session wrapped
  start_session-Ready fw ready =
      Returns-bind_Ensures (espnow_transport_add_peer cfg.peer_mac false none fw) _
        (λ _ fw₁. OnlyWorld fw fw₁) (λ boot fw'. Ready cfg own boot fw')
        (add_plain_peer-OnlyWorld cfg.peer_mac fw hp)
        (λ e fw₁ h. Ensures-check e _ fw₁ _ (
          Returns-bind_Ensures (wrapped cfg own cfg.device_is_initiator fw₁) start_app _ _
            (wrapped-Starts cfg own cfg.device_is_initiator fw₁ ho hp)
            (λ status fw₂ starts.
              start_app-Ready status fw₁ fw₂ (ap is_null h.1.1 ∙ ready.0, h.1.0 ∙ ready.1) starts)))
