-- ===== src/Boot/Start.antt =====
-- app_main of main/main.c: what it leaves for the application task.
use espnow_edhoc.Prelude.{
  ℕ, ◌≡◌, ◌≢◌, ◌%◌, get_or, replicate, refl, true, false, ◌⊎◌, inl, inr, List, length, arith,
  Bool-cases, if◌then◌else◌,
}
use espnow_edhoc.Memory.{is_null}
use espnow_edhoc.Config.{Config}
use espnow_edhoc.Platform.{EspErr, Platform, is_ok}
use espnow_edhoc.Firmware.{Firmware, return, returned}
use espnow_edhoc.Firmware.Contracts.{
  Ensures, Ensures-self, Ensures-mono, Ensures-bind, Ensures-check_ok, OnlyWorld,
}
use espnow_edhoc.EspNow.{espnow_transport_init}
use espnow_edhoc.Session.Start.{context_for}
use espnow_edhoc.EspNow.Start.{transport_init_lem}
use espnow_edhoc.Boot.Peer.{peer_mac_is_configured_lem}
use espnow_edhoc.Boot.Ready.{TaskReady, TransportReady, start_session-Ready}
use espnow_edhoc.Boot.{
  Boot, peer_not_configured, task_started, start_session, nvs_init, needs_erase, app_main,
  peer_mac_is_configured,
}

nvs_init-OnlyWorld :
    {p : Platform} (fw : Firmware p) → Ensures (nvs_init fw) (λ _ fw'. OnlyWorld fw fw')
unfolding nvs_init
nvs_init-OnlyWorld {p} fw = elim (Bool-cases (needs_erase (p.idf.nvs_flash_init fw.world).0)) [
  | inl full ↦
      rw full
        (elim (Bool-cases (is_ok (p.idf.nvs_flash_erase (p.idf.nvs_flash_init fw.world).1).0)) [
          | inl erased ↦ rw erased (refl, (refl, refl))
          | inr bad ↦ rw bad tt
        ])
  | inr ready ↦ rw ready (refl, (refl, refl))
]

-- the board's own address has six bytes
pub record ReadsMac (p : Platform) : Type 0 where
  pub size : (w : p.World) → length (p.idf.esp_read_mac w).0.1 ≡ 6

-- the peer's address is one that `main.c` takes for configured: not zeros, and of no group
abbrev pub NamesPeer : List ℕ → Type 0
NamesPeer mac = (mac ≢ replicate 6 0x00) × (get_or mac 0 0 % 2 ≡ 0)

-- The task runs: the flash was initialised and the address of this board read, both with success,
-- and the exporter context of the session is that of the address that was read.
pub record Started {p : Platform} (cfg : Config) (fw : Firmware p) (boot : Boot) (fw' : Firmware p)
    : Type 0 where
  pub flash_result : EspErr
  pub fw₁ : Firmware p
  pub is_started : boot ≡ task_started
  pub named : NamesPeer cfg.peer_mac
  pub flash : nvs_init fw ≡ returned flash_result fw₁
  pub flash_ok : is_ok flash_result ≡ true
  pub read_ok : is_ok (p.idf.esp_read_mac fw₁.world).0.0 ≡ true
  pub ready :
      TaskReady cfg
        (context_for cfg.device_is_initiator
          (p.idf.esp_read_mac fw₁.world).0.1
          cfg.peer_mac
          cfg.espnow_channel)
        fw'

-- the two ends of a boot
abbrev pub Booted : {p : Platform} → Config → Firmware p → Boot → Firmware p → Type 0
Booted cfg fw boot fw' =
    ((boot ≡ peer_not_configured) × (¬ NamesPeer cfg.peer_mac)) ⊎ Started cfg fw boot fw'

pub app_main-Booted :
    {p : Platform} (reads : ReadsMac p) (cfg : Config) (fw : Firmware p)
    → length cfg.peer_mac ≡ 6
    → Ensures (app_main cfg fw) (λ boot fw'. Booted cfg fw boot fw')
unfolding app_main
app_main-Booted {p} reads cfg fw hp =
    Ensures-bind (nvs_init fw) _ _ (λ boot fw'. Booted cfg fw boot fw')
      (Ensures-self (nvs_init fw) _ (nvs_init-OnlyWorld fw))
      (λ e₁ fw₁ flash. Ensures-check_ok e₁ _ fw₁ _ (λ flash_ok.
        Ensures-check_ok (p.idf.esp_read_mac fw₁.world).0.0 _ (mac_read fw₁) _ (λ read_ok.
          Ensures-bind (espnow_transport_init cfg.espnow_channel (mac_read fw₁)) _ _ _
            (transport_init_lem cfg.espnow_channel (mac_read fw₁))
            (λ e₂ fw₂ h.
              Ensures-check_ok e₂ _ fw₂ _
                (λ ok. configured e₁ fw₁ fw₂ flash.1 flash_ok read_ok (ready e₂ fw₂ ok h.1 h.2))))))
  where
    mac_read : Firmware p → Firmware p
    mac_read fw₁ = record fw₁ { world = (p.idf.esp_read_mac fw₁.world).1 }

    ready :
        (e : EspErr) (fw₂ : Firmware p)
        → is_ok e ≡ true
        → fw₂.s_channel ≡ cfg.espnow_channel
        → (is_ok e ≡ false) ⊎ (is_null fw₂.s_rx_queue ≡ false)
        → TransportReady cfg fw₂
    ready e fw₂ ok channel (inl bad) = absurd (ground arith)
    ready e fw₂ ok channel (inr queue) = (queue, channel)

    configured :
        (e₁ : EspErr) (fw₁ fw₂ : Firmware p)
        → nvs_init fw ≡ returned e₁ fw₁
        → is_ok e₁ ≡ true
        → is_ok (p.idf.esp_read_mac fw₁.world).0.0 ≡ true
        → TransportReady cfg fw₂
        → Ensures
            ((if peer_mac_is_configured cfg.peer_mac
                then start_session cfg (p.idf.esp_read_mac fw₁.world).0.1
                else return peer_not_configured)
              fw₂)
            (λ boot fw'. Booted cfg fw boot fw')
    configured e₁ fw₁ fw₂ flash flash_ok read_ok r =
        elim (Bool-cases (peer_mac_is_configured cfg.peer_mac)) [
          | inl set ↦ rw set (
              let own = (p.idf.esp_read_mac fw₁.world).0.1 in
              Ensures-mono (start_session cfg own fw₂) _ (λ boot fw'. Booted cfg fw boot fw')
                (start_session-Ready cfg own (reads.size fw₁.world) hp fw₂ r)
                (λ boot fw' h. inr (record {
                  flash_result = e₁;
                  fw₁ = fw₁;
                  is_started = h.0;
                  named = (peer_mac_is_configured_lem cfg.peer_mac hp).0 set;
                  flash = flash;
                  flash_ok = flash_ok;
                  read_ok = read_ok;
                  ready = h.1;
                })))
          | inr unset ↦ rw unset (
              inl (
                refl,
                (λ named.
                    let set : peer_mac_is_configured cfg.peer_mac ≡ true =
                      (peer_mac_is_configured_lem cfg.peer_mac hp).1 named in
                    cc),
              ))
        ]
