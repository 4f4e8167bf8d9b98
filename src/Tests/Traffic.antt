-- ===== src/Tests/Traffic.antt =====
-- The theorems on the receive queue, on a toy platform whose state is the queue.
use espnow_edhoc.Prelude.{◌≡◌, refl, some, List, [], ◌∷◌, ◌++◌, arith, length, ltb, drop, All}
use espnow_edhoc.Packet.{Packet}
use espnow_edhoc.Platform.{Platform}
use espnow_edhoc.Firmware.{Firmware, empty}
use espnow_edhoc.Firmware.Contracts.{Returns, OnlyWorld}
use espnow_edhoc.EspNow.Traffic.{
  Event, IsFrame, arrives, receives, first, put, QueueContract, serve, play, play-serve, arrivals,
  somes, play-lossless,
}
use espnow_edhoc.Pairing.App.{zero_packet}
use espnow_edhoc.Tests.{toy_mac, toy_payload, toy_mbedtls, idf_on, lakers_on}

abbrev fifo : Platform
fifo = record {
  World = List Packet;
  Queue = Unit;
  mbedtls = toy_mbedtls;
  idf =
      idf_on (λ w. w) length (λ packet w. (ltb (length w) 10, put 10 packet w))
        (λ w. (first w, drop 1 w));
  lakers = lakers_on (λ w. w);
}

abbrev fifo_contract : QueueContract fifo tt 10
fifo_contract = record {
  contents = λ w. w;
  sends = λ packet w. refl;
  gives = λ timeout w. refl;
  removes = λ timeout w. refl;
}

abbrev fifo_board : Firmware fifo
fifo_board = record { world = []; s_channel = 1; s_rx_queue = some tt; session = empty }

-- a frame, a receive, an empty frame, a frame, and two receives
abbrev toy_events : List Event
toy_events =
    arrives toy_mac toy_payload
    ∷ receives 100
    ∷ arrives toy_mac []
    ∷ arrives toy_mac toy_mac
    ∷ receives 100
    ∷ receives 100
    ∷ []

toy_frames : All IsFrame toy_events
toy_frames = (refl, (tt, (refl, (refl, (tt, (tt, tt))))))

play-serve_example :
    Returns
      (play zero_packet toy_events fifo_board)
      (λ out fw'. OnlyWorld fifo_board fw' × ((out, fw'.world) ≡ serve 10 toy_events []))
play-serve_example = play-serve fifo_contract zero_packet toy_events fifo_board refl toy_frames

play-lossless_example :
    Returns
      (play zero_packet toy_events fifo_board)
      (λ out fw'. somes out ++ fw'.world ≡ arrivals toy_events)
play-lossless_example =
    play-lossless fifo_contract zero_packet toy_events fifo_board refl toy_frames (omega arith)
