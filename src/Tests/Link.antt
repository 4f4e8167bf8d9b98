-- ===== src/Tests/Link.antt =====
-- The theorems on frames, packets, peers and keys, at inputs of the toy platform.
use espnow_edhoc.Prelude.{false, ◌↔◌, ◌≡◌, refl, true, false, ◌⊎◌, inr, some, arith, All}
use espnow_edhoc.Memory.{zeros, length-zeros}
use espnow_edhoc.Packet.{pos, IsPacket, IsByte}
use espnow_edhoc.Platform.{is_ok}
use espnow_edhoc.Firmware.{returned, call, empty}
use espnow_edhoc.Firmware.Contracts.{Returns, OnlyWorld}
use espnow_edhoc.EspNow.{espnow_recv_cb, espnow_transport_add_peer}
use espnow_edhoc.EspNow.Peers.{encrypted_peer, put_peer, add_peer_lem}
use espnow_edhoc.EspNow.Receiving.{espnow_recv_cb_lem, QueueDelivers}
use espnow_edhoc.KeyManager.{
  key_manager_enable_derived_espnow_encryption, key_manager_enable_static_espnow_encryption,
}
use espnow_edhoc.KeyManager.Static.{TakesStatic, enable_static_iff}
use espnow_edhoc.KeyManager.Install.{Installed, enable_derived-Installed}
use espnow_edhoc.Wire.{m1, Msg, edhoc_transport_send, edhoc_transport_parse_rx}
use espnow_edhoc.Wire.Sending.{sent_frame, edhoc_transport_send_lem}
use espnow_edhoc.Wire.Parsing.{IsMsgOf}
use espnow_edhoc.Wire.Receiving.{edhoc_transport_parse_rx_sound, edhoc_transport_parse_rx_complete}
use espnow_edhoc.Wire.RoundTrip.{sent_msg, sent_msg-IsMsgOf, sent_frame-IsPacket, parse_rx-send}
use espnow_edhoc.Pairing.App.{zero_msg}
use espnow_edhoc.Tests.{toy, toy_mac, toy_payload, toy_packet, toy_board}

toy_payload-bytes : All IsByte toy_payload
toy_payload-bytes = omega arith

pub toy_packet-IsPacket : IsPacket toy_packet
toy_packet-IsPacket =
    sent_frame-IsPacket toy_mac m1 0x1234 1 toy_payload 3 refl (omega arith) (omega arith)
      toy_payload-bytes

pub toy-QueueDelivers : QueueDelivers toy
toy-QueueDelivers = record { packets = λ q timeout w. toy_packet-IsPacket }

abbrev toy_msg : Msg
toy_msg = sent_msg toy_mac m1 0x1234 1 toy_payload 3

parse_rx-send_example :
    edhoc_transport_parse_rx (some toy_packet) (some zero_msg) ≡ some (true, some toy_msg)
parse_rx-send_example =
    parse_rx-send toy_mac m1 0x1234 1 toy_payload 3 refl (omega arith) (omega arith)
      toy_payload-bytes zero_msg

edhoc_transport_parse_rx_sound_example :
    (edhoc_transport_parse_rx (some toy_packet) (some zero_msg) ≡ some (false, some zero_msg))
    ⊎ ((msg : Msg) × (edhoc_transport_parse_rx (some toy_packet) (some zero_msg)
          ≡ some (true, some msg))
        × IsMsgOf toy_packet msg)
edhoc_transport_parse_rx_sound_example =
    edhoc_transport_parse_rx_sound toy_packet zero_msg toy_packet-IsPacket

edhoc_transport_parse_rx_complete_example :
    edhoc_transport_parse_rx (some toy_packet) (some zero_msg) ≡ some (true, some toy_msg)
edhoc_transport_parse_rx_complete_example =
    edhoc_transport_parse_rx_complete toy_packet toy_packet-IsPacket toy_msg
      (sent_msg-IsMsgOf toy_mac m1 0x1234 1 toy_payload 3 refl (omega arith) (omega arith)) zero_msg

edhoc_transport_send_lem_example :
    edhoc_transport_send (some toy_mac) m1 0x1234 1 (some toy_payload) 3 (toy_board empty)
    ≡ call (toy.idf.esp_now_send toy_mac (sent_frame m1 0x1234 1 toy_payload 3)) (toy_board empty)
edhoc_transport_send_lem_example =
    edhoc_transport_send_lem (some toy_mac) m1 0x1234 1 (some toy_payload) 3 (toy_board empty)
      (inr (omega arith))

espnow_recv_cb_lem_example :
    espnow_recv_cb (some (some toy_mac)) (some toy_payload) (pos 3) (toy_board empty)
    ≡ returned tt (record (toy_board empty) { world = 1 })
espnow_recv_cb_lem_example =
    espnow_recv_cb_lem toy_mac toy_payload 3 tt (toy_board empty) refl (omega arith) refl

add_peer_lem_example :
    espnow_transport_add_peer toy_mac true (some (zeros 16)) (toy_board empty)
    ≡ call (put_peer toy toy_mac (encrypted_peer toy_mac (zeros 16) 1)) (toy_board empty)
add_peer_lem_example = add_peer_lem toy_mac (zeros 16) (toy_board empty) refl (length-zeros 16)

enable_derived-Installed_example :
    Returns
      (key_manager_enable_derived_espnow_encryption
        (some toy_mac)
        (some (zeros 16))
        (toy_board empty))
      (λ e fw'.
        OnlyWorld (toy_board empty) fw'
        × ((is_ok e ≡ false) ⊎ Installed toy toy_mac (zeros 16) 1 0 fw'.world))
enable_derived-Installed_example =
    enable_derived-Installed toy_mac (zeros 16) (toy_board empty) refl (length-zeros 16)

enable_static_iff_example :
    Returns
      (key_manager_enable_static_espnow_encryption toy_mac (toy_board empty))
      (λ e fw'. OnlyWorld (toy_board empty) fw' × ((is_ok e ≡ true) ↔ TakesStatic toy toy_mac 1 0))
enable_static_iff_example = enable_static_iff toy_mac (toy_board empty) refl
