-- ===== src/KeyManager/Static.antt =====
-- key_manager_enable_static_espnow_encryption of main/key_manager.c: the fixed key, without EDHOC.
use espnow_edhoc.Prelude.{ℕ, ◌≡◌, refl, true, ◌↔◌, List, length, Bool-cases, inl, inr}
use espnow_edhoc.Config.{espnow_static_pmk, espnow_static_lmk}
use espnow_edhoc.Platform.{is_ok, Platform}
use espnow_edhoc.Firmware.{Firmware}
use espnow_edhoc.Firmware.Contracts.{Returns, OnlyWorld}
use espnow_edhoc.EspNow.{espnow_transport_set_pmk}
use espnow_edhoc.EspNow.Peers.{encrypted_peer, put_peer, add_peer_lem}
use espnow_edhoc.KeyManager.{key_manager_enable_static_espnow_encryption}

-- the driver takes the fixed master key, and then the entry of the peer with the fixed key
abbrev pub TakesStatic : (p : Platform) → List ℕ → ℕ → p.World → Type 0
TakesStatic p mac channel w =
    let set = p.idf.esp_now_set_pmk espnow_static_pmk w in
    (is_ok set.0 ≡ true)
    × (is_ok (put_peer p mac (encrypted_peer mac espnow_static_lmk channel) set.1).0 ≡ true)

-- For an address of six bytes the installation of the fixed key returns and changes the state of
-- the platform alone; it reports success exactly if the driver takes the fixed master key and then
-- the entry of the peer with the fixed key and encryption.
pub enable_static_iff :
    {p : Platform} (mac : List ℕ) (fw : Firmware p)
    → length mac ≡ 6
    → Returns
        (key_manager_enable_static_espnow_encryption mac fw)
        (λ e fw'. OnlyWorld fw fw' × ((is_ok e ≡ true) ↔ TakesStatic p mac fw.s_channel fw.world))
unfolding key_manager_enable_static_espnow_encryption espnow_transport_set_pmk
enable_static_iff {p} mac fw hm =
    let set = p.idf.esp_now_set_pmk espnow_static_pmk fw.world in
    let fw₁ : Firmware p = record fw { world = set.1 } in
    let put = put_peer p mac (encrypted_peer mac espnow_static_lmk fw.s_channel) set.1 in
    let same : OnlyWorld fw fw = (refl, (refl, refl)) in
    elim (Bool-cases (is_ok set.0)) [
      | inr bad ↦ rw bad (same, ((λ e. cc), (λ t. cc)))
      | inl ok₁ ↦
          rw (ok₁, add_peer_lem mac espnow_static_lmk fw₁ hm refl)
            (elim (Bool-cases (is_ok put.0)) [
              | inr bad ↦ rw bad (same, ((λ e. cc), (λ t. cc)))
              | inl ok₂ ↦ rw ok₂ (same, ((λ e. (refl, refl)), (λ t. refl)))
            ])
    ]
