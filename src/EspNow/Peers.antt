-- ===== src/EspNow/Peers.antt =====
-- espnow_transport_add_peer of main/espnow_transport.c: the entry that it gives the driver.
use espnow_edhoc.Prelude.{
  none, inl, inr, Bool-cases, ℕ, ◌≡◌, refl, Bool, true, false, some, List, length, if◌then◌else◌,
}
use espnow_edhoc.Memory.{memcpy_whole}
use espnow_edhoc.Platform.{EspErr, PeerInfo, wifi_if_sta, Platform}
use espnow_edhoc.Firmware.{Firmware, call}
use espnow_edhoc.Firmware.Contracts.{Returns, OnlyWorld}
use espnow_edhoc.EspNow.{espnow_transport_add_peer, add_peer_key, install_peer}

-- the entry of a peer with a key
abbrev pub encrypted_peer : List ℕ → List ℕ → ℕ → PeerInfo
encrypted_peer mac key channel = record {
  peer_addr = mac;
  lmk = key;
  channel = channel;
  ifidx = wifi_if_sta;
  encrypt = true;
}

-- an entry is changed if the table has the address, and added if not
abbrev pub put_peer : (p : Platform) → List ℕ → PeerInfo → p.World → EspErr × p.World
put_peer p mac peer w =
    let e = p.idf.esp_now_is_peer_exist mac w in
    if e.0 then p.idf.esp_now_mod_peer peer e.1 else p.idf.esp_now_add_peer peer e.1

call-if :
    {p : Platform} {A : Type 0} (b : Bool) (g h : p.World → A × p.World) (fw : Firmware p)
    → (if b then call g else call h) fw ≡ call (λ w. if b then g w else h w) fw
call-if true g h fw = refl
call-if false g h fw = refl

-- For an address of six bytes and a key of 16, one entry with this address and key, the current
-- channel, the station interface and encryption on is given to the driver, as a change if the peer
-- exists and as an addition if not.
pub add_peer_lem :
    {p : Platform} (mac key : List ℕ) (fw : Firmware p)
    → length mac ≡ 6
    → length key ≡ 16
    → espnow_transport_add_peer mac true (some key) fw
      ≡ call (put_peer p mac (encrypted_peer mac key fw.s_channel)) fw
unfolding espnow_transport_add_peer
add_peer_lem {p} mac key fw hm hk =
    rw (memcpy_whole mac 6 hm, memcpy_whole key 16 hk)
      (call-if (p.idf.esp_now_is_peer_exist mac fw.world).0 _ _ _)

-- Without a key the entry is put too, and only the platform's state changes.
pub add_plain_peer-OnlyWorld :
    {p : Platform} (mac : List ℕ) (fw : Firmware p)
    → length mac ≡ 6
    → Returns (espnow_transport_add_peer mac false none fw) (λ _ fw'. OnlyWorld fw fw')
unfolding espnow_transport_add_peer add_peer_key install_peer
add_plain_peer-OnlyWorld {p} mac fw hm =
    rw (memcpy_whole mac 6 hm) (elim (Bool-cases (p.idf.esp_now_is_peer_exist mac fw.world).0) [
      | inl known ↦ rw known (refl, (refl, refl))
      | inr new ↦ rw new (refl, (refl, refl))
    ])
