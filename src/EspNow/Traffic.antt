-- ===== src/EspNow/Traffic.antt =====
-- main/espnow_transport.c: the receive callback and espnow_transport_recv together, over a queue of
-- FreeRTOS. Frames arrive and packets are received in any order; the specification is a queue of
-- bounded length.
use espnow_edhoc.Prelude.{
  ℕ, ◌+◌, ◌≤◌, ◌≡◌, refl, sym, ◌∙◌, ap, Bool, true, false, ◌||◌, Option, none, some, List, [], ◌∷◌,
  ◌++◌, arith, length, length-append, drop, ltb, ◌==◌, if◌then◌else◌, All, Bool-cases, inl, inr,
}
use mathlib.Core.List.{append-nil, append_assoc}
use espnow_edhoc.Packet.{Packet, pos}
use espnow_edhoc.Platform.{Platform}
use espnow_edhoc.Firmware.{M, ◌>>=◌, ◌>>◌, return, Firmware}
use espnow_edhoc.Firmware.Contracts.{Returns, Returns-bind, Returns-mono, OnlyWorld}
use espnow_edhoc.EspNow.{received, receive, espnow_recv_cb, espnow_transport_recv}
use espnow_edhoc.EspNow.Receiving.{packet_of, espnow_recv_cb_lem}

-- the packet at the head
abbrev pub first : List Packet → Option Packet
first [] = none
first (x ∷ xs) = some x

-- a packet at the end of a queue of this size, or nowhere if the queue is full
abbrev pub put : ℕ → Packet → List Packet → List Packet
put size packet queue = if ltb (length queue) size then queue ++ (packet ∷ []) else queue

-- What FreeRTOS documents of a queue of a size: items are copied in at the end while there is room,
-- and copied out from the head; a receive from an empty one times out.
pub record QueueContract (p : Platform) (q : p.Queue) (size : ℕ) : Type 0 where
  pub contents : p.World → List Packet
  pub sends :
      (packet : Packet) (w : p.World)
      → contents (p.idf.x_queue_send q packet w).1 ≡ put size packet (contents w)
  pub gives :
      (timeout : ℕ) (w : p.World) → (p.idf.x_queue_receive q timeout w).0 ≡ first (contents w)
  pub removes :
      (timeout : ℕ) (w : p.World)
      → contents (p.idf.x_queue_receive q timeout w).1 ≡ drop 1 (contents w)

pub data Event : Type 0 where
  -- a frame of these bytes from this address
  arrives : List ℕ → List ℕ → Event
  -- a call of `espnow_transport_recv` with this timeout
  receives : ℕ → Event

abbrev pub IsFrame : Event → Type 0
IsFrame (arrives src bytes) = length src ≡ 6
IsFrame (receives timeout) = Unit

-- the frames that the callback takes, as packets
abbrev pub packets_of : List ℕ → List ℕ → List Packet
packets_of src bytes =
    if length bytes == 0 || ltb 250 (length bytes)
    then []
    else packet_of src bytes (length bytes) ∷ []

abbrev pub put_all : ℕ → List Packet → List Packet → List Packet
put_all size [] queue = queue
put_all size (packet ∷ packets) queue = put_all size packets (put size packet queue)

-- The specification: what the receives give, and what is left.
abbrev pub serve : ℕ → List Event → List Packet → List (Option Packet) × List Packet
serve size [] queue = ([], queue)
serve size (arrives src bytes ∷ events) queue =
    serve size events (put_all size (packets_of src bytes) queue)
serve size (receives timeout ∷ events) queue =
    (first queue ∷ (serve size events (drop 1 queue)).0, (serve size events (drop 1 queue)).1)

-- what a receive fills in, if it succeeds
abbrev pub delivered : Bool × Option Packet → Option Packet
delivered (true, rx) = rx
delivered (false, rx) = none

-- the code on a list of events; `blank` is the packet that the caller has
unfoldable pub play : {p : Platform} → Packet → List Event → M p (List (Option Packet))
play blank [] = return []
play blank (arrives src bytes ∷ events) = do
  espnow_recv_cb (some (some src)) (some bytes) (pos (length bytes))
  play blank events
play blank (receives timeout ∷ events) = do
  r ← espnow_transport_recv (some blank) timeout
  rest ← play blank events
  return (delivered r ∷ rest)

module _ {p : Platform} {q : p.Queue} {size : ℕ} (contract : QueueContract p q size) where
  -- a frame goes to the end of the queue
  frame-put :
      (src bytes : List ℕ) (fw : Firmware p)
      → length src ≡ 6
      → fw.s_rx_queue ≡ some q
      → Returns (espnow_recv_cb (some (some src)) (some bytes) (pos (length bytes)) fw) (λ _ fw'.
        OnlyWorld fw fw'
        × (contract.contents fw'.world
            ≡ put_all size (packets_of src bytes) (contract.contents fw.world)))
  frame-put src bytes fw mac queue =
      rw (espnow_recv_cb_lem src bytes (length bytes) q fw mac (omega arith) queue)
        (elim (Bool-cases (length bytes == 0 || ltb 250 (length bytes))) [
          | inl dropped ↦ rw dropped ((refl, (refl, refl)), refl)
          | inr kept ↦
              rw kept
                ((refl, (refl, refl)), contract.sends (packet_of src bytes (length bytes)) fw.world)
        ])

  delivered-received : (blank : Packet) (r : Option Packet) → delivered (received blank r) ≡ r
  unfolding received
  delivered-received blank none = refl
  delivered-received blank (some rx) = refl

  -- a receive takes the head
  recv-first :
      (blank : Packet) (timeout : ℕ) (fw : Firmware p)
      → fw.s_rx_queue ≡ some q
      → Returns (espnow_transport_recv (some blank) timeout fw) (λ r fw'.
        OnlyWorld fw fw'
        × (delivered r ≡ first (contract.contents fw.world))
        × (contract.contents fw'.world ≡ drop 1 (contract.contents fw.world)))
  unfolding espnow_transport_recv receive
  recv-first blank timeout fw queue = rw queue (
    (refl, (refl, refl)),
    delivered-received blank _ ∙ contract.gives timeout fw.world,
    contract.removes timeout fw.world,
  )

  -- If the queue keeps to the contract of FreeRTOS, any list of arriving frames and receive calls,
  -- with addresses of six bytes, returns, gives what a queue of that size gives that takes the
  -- frames of 1 to 250 bytes at its end while it has room, and leaves what that queue holds.
  pub play-serve :
      (blank : Packet) (events : List Event) (fw : Firmware p)
      → fw.s_rx_queue ≡ some q
      → All IsFrame events
      → Returns (play blank events fw) (λ out fw'.
        OnlyWorld fw fw'
        × ((out, contract.contents fw'.world) ≡ serve size events (contract.contents fw.world)))
  unfolding play
  play-serve blank [] fw queue frames = ((refl, (refl, refl)), refl)
  play-serve blank (arrives src bytes ∷ events) fw queue frames =
      Returns-bind (espnow_recv_cb (some (some src)) (some bytes) (pos (length bytes)) fw)
        (λ _. play blank events) _ _ (frame-put src bytes fw frames.0 queue)
        (λ _ fw₁ h.
          rw (← h.0.0, ← h.0.1.0, ← h.0.1.1, ← h.1)
            (play-serve blank events fw₁ (h.0.1.1 ∙ queue) frames.1))
  play-serve blank (receives timeout ∷ events) fw queue frames =
      Returns-bind (espnow_transport_recv (some blank) timeout fw)
        (λ r. do rest ← play blank events; return (delivered r ∷ rest)) _ _
        (recv-first blank timeout fw queue)
        (λ r fw₁ h.
          rw (← h.0.0, ← h.0.1.0, ← h.0.1.1, ← h.1, ← h.2)
            (Returns-bind (play blank events fw₁) (λ rest. return (delivered r ∷ rest)) _ _
              (play-serve blank events fw₁ (h.0.1.1 ∙ queue) frames.1)
              (λ rest fw₂ k. (k.0, ap (λ t. (delivered r ∷ t.0, t.1)) k.1))))

-- the frames of the events, in their order
abbrev pub arrivals : List Event → List Packet
arrivals [] = []
arrivals (arrives src bytes ∷ events) = packets_of src bytes ++ arrivals events
arrivals (receives timeout ∷ events) = arrivals events

-- the packets that were received, in their order
abbrev pub somes : List (Option Packet) → List Packet
somes [] = []
somes (none ∷ out) = somes out
somes (some packet ∷ out) = packet ∷ somes out

put_all-room :
    (size : ℕ) (packets queue : List Packet)
    → length queue + length packets ≤ size
    → put_all size packets queue ≡ queue ++ packets
put_all-room size [] queue h = sym (append-nil queue)
put_all-room size (packet ∷ packets) queue h =
    let room : ltb (length queue) size ≡ true = ground arith in
    rw room (
      put_all-room size packets (queue ++ (packet ∷ []))
        (omega (arith, length-append queue (packet ∷ [])))
      ∙ append_assoc queue (packet ∷ []) packets)

-- While there is room for all frames, none is lost and their order is kept.
serve_all :
    (size : ℕ) (events : List Event) (queue : List Packet)
    → length queue + length (arrivals events) ≤ size
    → somes (serve size events queue).0 ++ (serve size events queue).1 ≡ queue ++ arrivals events
serve_all size [] queue h = sym (append-nil queue)
serve_all size (arrives src bytes ∷ events) queue h =
    let packets = packets_of src bytes in
    let total = length-append packets (arrivals events) in
    ap (λ r. somes (serve size events r).0 ++ (serve size events r).1)
      (put_all-room size packets queue (omega (arith, total)))
    ∙ serve_all size events (queue ++ packets) (omega (arith, total, length-append queue packets))
    ∙ append_assoc queue packets (arrivals events)
serve_all size (receives timeout ∷ events) [] h = serve_all size events [] h
serve_all size (receives timeout ∷ events) (x ∷ queue) h =
    ap (λ xs. x ∷ xs) (serve_all size events queue (omega arith))

-- Under the same conditions, while the queue has room for all frames of 1 to 250 bytes that
-- arrive, what is received and then what is left are what the queue held and these frames, in
-- their order: none is lost, repeated or overtaken.
pub play-lossless :
    {p : Platform} {q : p.Queue} {size : ℕ} (contract : QueueContract p q size) (blank : Packet)
    (events : List Event) (fw : Firmware p)
    → fw.s_rx_queue ≡ some q
    → All IsFrame events
    → length (contract.contents fw.world) + length (arrivals events) ≤ size
    → Returns (play blank events fw) (λ out fw'.
      somes out ++ contract.contents fw'.world ≡ contract.contents fw.world ++ arrivals events)
play-lossless {size = size} contract blank events fw queue frames room =
    Returns-mono (play blank events fw) _ _ (play-serve contract blank events fw queue frames)
      (λ out fw' h.
        ap (λ t. somes t.0 ++ t.1) h.1 ∙ serve_all size events (contract.contents fw.world) room)
