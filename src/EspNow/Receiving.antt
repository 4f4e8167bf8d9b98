-- ===== src/EspNow/Receiving.antt =====
-- espnow_recv_cb of main/espnow_transport.c: what it puts on the queue.
use espnow_edhoc.Prelude.{
  ℕ, zero, suc, ◌-◌, ◌≤◌, ◌≡◌, refl, ◌∙◌, Bool, true, false, ◌||◌, Option, none, some, List, ◌++◌,
  arith, length, take, length-append, length-take, ltb, ◌==◌, if◌then◌else◌, Bool-cases, inl, inr,
  All, All-append, All-take, All-replicate,
}
use espnow_edhoc.Memory.{zeros, memcpy_whole, memcpy-zeros, length-zeros}
use espnow_edhoc.Packet.{pos, Packet, IsPacket, IsByte}
use espnow_edhoc.Platform.{Platform}
use espnow_edhoc.Firmware.{Firmware, returned}
use espnow_edhoc.Firmware.Contracts.{Returns, OnlyWorld}
use espnow_edhoc.EspNow.{received, receive, espnow_transport_recv, espnow_recv_cb, accept_packet}

-- the packet for `n` bytes from a sender
abbrev pub packet_of : List ℕ → List ℕ → ℕ → Packet
packet_of src bytes n = record {
  src_mac = src;
  contents = take n bytes ++ zeros (250 - n);
  data_len = pos n;
}

pub packet_of-IsPacket :
    (src bytes : List ℕ) (n : ℕ)
    → length src ≡ 6
    → n ≤ 250
    → n ≤ length bytes
    → All IsByte bytes
    → IsPacket (packet_of src bytes n)
unfolding zeros
packet_of-IsPacket src bytes n mac le fits small = record {
  mac_size = mac;
  data_size = omega (
    arith,
    length-append (take n bytes) (zeros (250 - n)),
    length-take n bytes,
    length-zeros (250 - n),
  );
  len_fits = le;
  bytes =
      All-append IsByte (take n bytes) (zeros (250 - n)) (All-take IsByte n bytes small)
        (All-replicate IsByte (250 - n) 0 (omega arith));
}

-- The copies stay inside the packet's arrays.
accept_packet_lem :
    {p : Platform} (src bytes : List ℕ) (n : ℕ) (q : p.Queue) (fw : Firmware p)
    → length src ≡ 6
    → n ≤ length bytes
    → fw.s_rx_queue ≡ some q
    → ltb 250 n ≡ false
    → accept_packet src bytes n fw
      ≡ returned tt
          (record fw { world = (p.idf.x_queue_send q (packet_of src bytes n) fw.world).1 })
unfolding accept_packet
accept_packet_lem src bytes n q fw mac fits queue small =
    rw (small, memcpy_whole src 6 mac, memcpy-zeros bytes 250 n (ground arith) fits, queue) refl

accept_large :
    {p : Platform} (src bytes : List ℕ) (n : ℕ) (fw : Firmware p)
    → ltb 250 n ≡ true
    → accept_packet src bytes n fw ≡ returned tt fw
unfolding accept_packet
accept_large src bytes n fw large = rw large refl

suc-ne_zero : (n : ℕ) → (suc n == 0) ≡ false
suc-ne_zero n = ground arith

-- On a frame of the driver, with an address of six bytes and a queue, an empty frame and one over
-- 250 bytes are dropped, and any other is handed to the queue as one packet padded with zeros.
pub espnow_recv_cb_lem :
    {p : Platform} (src bytes : List ℕ) (n : ℕ) (q : p.Queue) (fw : Firmware p)
    → length src ≡ 6
    → n ≤ length bytes
    → fw.s_rx_queue ≡ some q
    → espnow_recv_cb (some (some src)) (some bytes) (pos n) fw ≡ (
        if n == 0 || ltb 250 n
        then returned tt fw
        else returned tt
            (record fw { world = (p.idf.x_queue_send q (packet_of src bytes n) fw.world).1 }))
unfolding espnow_recv_cb
espnow_recv_cb_lem src bytes zero q fw mac fits queue = refl
espnow_recv_cb_lem src bytes (suc n) q fw mac fits queue = elim (Bool-cases (ltb 250 (suc n))) [
  | inl large ↦ accept_large src bytes (suc n) fw large ∙ rw (suc-ne_zero n, large) refl
  | inr small ↦
      accept_packet_lem src bytes (suc n) q fw mac fits queue small ∙ rw (suc-ne_zero n, small) refl
]

abbrev pub IsDelivery : Option Packet → Type 0
IsDelivery none = Unit
IsDelivery (some rx) = IsPacket rx

-- What `xQueueReceive` gives back is a packet that was put on the queue: an array of bytes of its
-- declared size with a length within it.
pub record QueueDelivers (p : Platform) : Type 0 where
  pub packets :
      (q : p.Queue) (timeout : ℕ) (w : p.World) → IsDelivery (p.idf.x_queue_receive q timeout w).0

-- a receive that reports success has filled in a packet
abbrev pub IfPacket : Bool × Option Packet → Type 0
IfPacket (false, rx) = Unit
IfPacket (true, none) = ⊥
IfPacket (true, some rx) = IsPacket rx

received_lem : (old : Packet) (r : Option Packet) → IsDelivery r → IfPacket (received old r)
unfolding received
received_lem old none h = tt
received_lem old (some rx) h = h

receive_lem :
    {p : Platform} (delivers : QueueDelivers p) (old : Packet) (q : Option p.Queue) (timeout : ℕ)
    (fw : Firmware p)
    → Returns (receive (some old) q timeout fw) (λ r fw'. OnlyWorld fw fw' × IfPacket r)
unfolding receive
receive_lem delivers old none timeout fw = ((refl, (refl, refl)), tt)
receive_lem delivers old (some q) timeout fw =
    ((refl, (refl, refl)), received_lem old _ (delivers.packets q timeout fw.world))

-- A receive into a packet returns, changes the state of the platform alone, and reports success
-- only with a packet of the declared sizes, if the queue delivers only such packets.
pub espnow_transport_recv_lem :
    {p : Platform} (delivers : QueueDelivers p) (old : Packet) (timeout : ℕ) (fw : Firmware p)
    → Returns (espnow_transport_recv (some old) timeout fw) (λ r fw'. OnlyWorld fw fw' × IfPacket r)
unfolding espnow_transport_recv
espnow_transport_recv_lem delivers old timeout fw =
    receive_lem delivers old fw.s_rx_queue timeout fw
