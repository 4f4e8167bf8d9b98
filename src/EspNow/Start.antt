-- ===== src/EspNow/Start.antt =====
-- espnow_transport_init of main/espnow_transport.c: what it leaves.
use espnow_edhoc.Prelude.{ℕ, ◌≡◌, ◌∙◌, ap, refl, false, ◌⊎◌, inl, inr, Bool-cases}
use espnow_edhoc.Memory.{is_null}
use espnow_edhoc.Platform.{EspErr, is_ok, Platform}
use espnow_edhoc.Firmware.{Firmware, M, ◌>>=◌, ◌>>◌, call, esp_error_check}
use espnow_edhoc.Firmware.Contracts.{Ensures, Ensures-bind, Ensures-mono, Ensures-check, OnlyWorld}
use espnow_edhoc.EspNow.{
  wifi_init, set_channel, set_rx_queue, espnow_init, espnow_transport_init, esp_return_on_error,
}

-- a call of the platform that must succeed, and one whose error is returned
module _ {p : Platform} {B : Type 0} (g : p.World → EspErr × p.World) (fw : Firmware p)
    (Q : B → Firmware p → Type 0) where
  must_succeed :
      (k : M p B)
      → ((w : p.World) → Ensures (k (record fw { world = w })) Q)
      → Ensures ((do e ← call g; esp_error_check e; k) fw) Q
  must_succeed k rest =
      let r = g fw.world in Ensures-check r.0 k (record fw { world = r.1 }) Q (rest r.1)

may_fail :
    {p : Platform} (g : p.World → EspErr × p.World) (k : M p EspErr) (fw : Firmware p)
    (Q : Firmware p → Type 0)
    → ((w : p.World) → Q (record fw { world = w }))
    → ((w : p.World) → Ensures (k (record fw { world = w })) (λ _. Q))
    → Ensures ((do e ← call g; esp_return_on_error e k) fw) (λ _. Q)
may_fail g k fw Q failure rest = elim (Bool-cases (is_ok (g fw.world).0)) [
  | inr bad ↦ rw bad (failure _)
  | inl ok ↦ rw ok (rest _)
]

wifi_init-OnlyWorld :
    {p : Platform} (channel : ℕ) (fw : Firmware p)
    → Ensures (wifi_init channel fw) (λ _ fw'. OnlyWorld fw fw')
unfolding wifi_init
wifi_init-OnlyWorld {p} channel fw = must_succeed p.idf.esp_netif_init fw Q _ λ w₁.
    must_succeed p.idf.esp_event_loop_create_default (at w₁) Q _ λ w₂.
      must_succeed p.idf.esp_wifi_init (at w₂) Q _ λ w₃.
        must_succeed p.idf.esp_wifi_set_storage (at w₃) Q _ λ w₄.
          must_succeed p.idf.esp_wifi_set_mode (at w₄) Q _ λ w₅.
            must_succeed p.idf.esp_wifi_start (at w₅) Q _
              λ w₆. last (p.idf.esp_wifi_set_channel channel w₆)
  where
    Q : Unit {0} → Firmware p → Type 0
    Q _ fw' = OnlyWorld fw fw'

    at : p.World → Firmware p
    at w = record fw { world = w }

    last : (r : EspErr × p.World) → Ensures (esp_error_check r.0 (at r.1)) Q
    last r = elim (Bool-cases (is_ok r.0)) [
      | inl ok ↦ rw ok (refl, (refl, refl))
      | inr bad ↦ rw bad tt
    ]

espnow_init-OnlyWorld :
    {p : Platform} (fw : Firmware p) → Ensures (espnow_init fw) (λ _ fw'. OnlyWorld fw fw')
unfolding espnow_init
espnow_init-OnlyWorld {p} fw =
    may_fail p.idf.esp_now_init _ fw Q (λ w. same)
      λ w₁.
        may_fail p.idf.esp_now_register_send_cb _ (at w₁) Q (λ w. same)
          λ w₂. may_fail p.idf.esp_now_register_recv_cb _ (at w₂) Q (λ w. same) λ w₃. same
  where
    Q : Firmware p → Type 0
    Q fw' = OnlyWorld fw fw'

    at : p.World → Firmware p
    at w = record fw { world = w }

    same : OnlyWorld fw fw
    same = (refl, (refl, refl))

-- The initialisation fails without a queue; its success leaves one, and the channel, and neither
-- touches the session.
pub transport_init_lem :
    {p : Platform} (channel : ℕ) (fw : Firmware p)
    → Ensures (espnow_transport_init channel fw) (λ e fw'.
      (fw'.session ≡ fw.session)
      × (fw'.s_channel ≡ channel)
      × ((is_ok e ≡ false) ⊎ (is_null fw'.s_rx_queue ≡ false)))
unfolding espnow_transport_init set_channel set_rx_queue
transport_init_lem {p} channel fw =
    Ensures-bind (wifi_init channel (record fw { s_channel = channel })) _
      (λ _ fw'. OnlyWorld (record fw { s_channel = channel }) fw') _
      (wifi_init-OnlyWorld channel (record fw { s_channel = channel }))
      (λ _ fw₁ h. elim (Bool-cases (is_null (p.idf.x_queue_create 10 fw₁.world).0)) [
        | inl none_made ↦ rw none_made (h.0, h.1.0, inl refl)
        | inr made ↦ rw made (
            Ensures-mono (espnow_init (with_queue fw₁)) _ _ (espnow_init-OnlyWorld (with_queue fw₁))
              (λ e fw' k. (k.0 ∙ h.0, k.1.0 ∙ h.1.0, inr (ap is_null k.1.1 ∙ made))))
      ])
  where
    with_queue : Firmware p → Firmware p
    with_queue fw₁ =
        let q = p.idf.x_queue_create 10 fw₁.world in record fw₁ { world = q.1; s_rx_queue = q.0 }
