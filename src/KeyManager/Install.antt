-- ===== src/KeyManager/Install.antt =====
-- key_manager_enable_derived_espnow_encryption of main/key_manager.c: what success means.
use espnow_edhoc.Prelude.{
  ◌⊎◌, ℕ, ◌≡◌, refl, true, false, some, List, arith, length, Bool-cases, inl, inr,
}
use espnow_edhoc.Config.{espnow_static_pmk}
use espnow_edhoc.Platform.{EspErr, esp_ok, is_ok, Platform}
use espnow_edhoc.Firmware.{Firmware}
use espnow_edhoc.Firmware.Contracts.{Returns, OnlyWorld}
use espnow_edhoc.EspNow.{espnow_transport_set_pmk}
use espnow_edhoc.EspNow.Peers.{encrypted_peer, put_peer, add_peer_lem}
use espnow_edhoc.KeyManager.{key_manager_enable_derived_espnow_encryption}

-- The driver took the PMK, then the peer's entry with this key and encryption on, and then reported
-- the entry as encrypted: the calls between the worlds `w` and `w'`.
pub record Installed (p : Platform) (mac key : List ℕ) (channel : ℕ) (w w' : p.World) : Type 0 where
  pub pmk_set : (p.idf.esp_now_set_pmk espnow_static_pmk w).0 ≡ esp_ok
  pub peer_set :
      (put_peer p mac
        (encrypted_peer mac key channel)
        (p.idf.esp_now_set_pmk espnow_static_pmk w).1).0
      ≡ esp_ok
  pub confirmed :
      let g =
        p.idf.esp_now_get_peer mac
          (put_peer p mac
            (encrypted_peer mac key channel)
            (p.idf.esp_now_set_pmk espnow_static_pmk w).1).1 in
      (g.0.0 ≡ esp_ok) × (g.0.1.encrypt ≡ true) × (w' ≡ g.1)

pub is_ok→eq : (e : EspErr) → is_ok e ≡ true → e ≡ esp_ok
is_ok→eq e h = ground arith

-- For an address of six bytes and a key of 16 the call returns and changes the state of the
-- platform alone; it reports success only if the driver took the master key and the entry of the
-- peer with this key and encryption, and then reported the entry as encrypted.
pub enable_derived-Installed :
    {p : Platform} (mac key : List ℕ) (fw : Firmware p)
    → length mac ≡ 6
    → length key ≡ 16
    → Returns (key_manager_enable_derived_espnow_encryption (some mac) (some key) fw) (λ e fw'.
      OnlyWorld fw fw' × ((is_ok e ≡ false) ⊎ Installed p mac key fw.s_channel fw.world fw'.world))
unfolding key_manager_enable_derived_espnow_encryption espnow_transport_set_pmk
enable_derived-Installed {p} mac key fw hm hk =
    let w₁ : p.World = (p.idf.esp_now_set_pmk espnow_static_pmk fw.world).1 in
    let fw₁ : Firmware p = record fw { world = w₁ } in
    let put = put_peer p mac (encrypted_peer mac key fw.s_channel) w₁ in
    let got = p.idf.esp_now_get_peer mac put.1 in
    let same : OnlyWorld fw fw = (refl, (refl, refl)) in
    elim (Bool-cases (is_ok (p.idf.esp_now_set_pmk espnow_static_pmk fw.world).0)) [
      | inr bad ↦ rw bad (same, inl bad)
      | inl ok₁ ↦
          rw (ok₁, add_peer_lem mac key fw₁ hm hk)
            (elim (Bool-cases (is_ok put.0)) [
              | inr bad ↦ rw bad (same, inl bad)
              | inl ok₂ ↦ rw ok₂ (elim (Bool-cases (is_ok got.0.0)) [
                | inr bad ↦ rw bad (same, inl bad)
                | inl ok₃ ↦ rw ok₃ (elim (Bool-cases got.0.1.encrypt) [
                  | inr plain ↦ rw plain (same, inl refl)
                  | inl encrypted ↦ rw encrypted (
                    same,
                    inr (record {
                      pmk_set = is_ok→eq _ ok₁;
                      peer_set = is_ok→eq _ ok₂;
                      confirmed = (is_ok→eq _ ok₃, encrypted, refl);
                    }),
                  )
                ])
              ])
            ])
    ]
