-- ===== src/Pairing/Key.antt =====
-- derive_and_install_lmk of main/main.c: the key that both ends export becomes the peer's LMK.
use mathlib.Core.List.{append-nil}
use espnow_edhoc.Prelude.{
  ◌⊎◌, inl, inr, ℕ, ◌≡◌, refl, ◌∙◌, ap, Bool, true, false, Option, none, some, List, [], ◌∷◌, arith,
  length, drop, ◌+◌, ◌-◌, ◌*◌, ◌/◌, ◌%◌,
}
use espnow_edhoc.Memory.{zeros, length-zeros, drop-zeros, zeros-nil}
use espnow_edhoc.Prelude.Bits.{bit_xor_one}
use espnow_edhoc.Config.{Config}
use espnow_edhoc.Platform.{is_ok, Platform}
use espnow_edhoc.Firmware.{
  bind_outcome, Session, initiator, responder, InitiatorPhase, ResponderPhase, empty, Firmware,
}
use espnow_edhoc.Firmware.Contracts.{Returns, Returns-mono, SameStatics, OnlyWorld}
use espnow_edhoc.Session.{espnow_lmk_len, exporter_label_espnow_lmk}
use espnow_edhoc.Session.Protocol.{initiator_view, responder_view, view, context_of, MessagesFit}
use espnow_edhoc.Session.Messages.Export.{
  done_of, initiator_done, responder_done, put_done, exported, lakers_edhoc_export_espnow_lmk_lem,
}
use espnow_edhoc.Exporter.Summary.{log_lmk_summary_total}
use espnow_edhoc.KeyManager.{key_manager_enable_derived_espnow_encryption}
use espnow_edhoc.KeyManager.Install.{Installed, enable_derived-Installed}
use espnow_edhoc.Pairing.{corrupt_lmk, install_lmk, derive_and_install_lmk}

length-corrupt_lmk : (flag : Bool) (lmk : List ℕ) → length (corrupt_lmk flag lmk) ≡ length lmk
unfolding corrupt_lmk
length-corrupt_lmk false lmk = refl
length-corrupt_lmk true [] = refl
length-corrupt_lmk true (b ∷ lmk) = refl

-- the handshake stands where it stood
pub record SamePhase {p : Platform} (fw fw' : Firmware p) : Type 0 where
  pub phase : view fw'.session ≡ view fw.session
  pub context : context_of fw'.session ≡ context_of fw.session
  pub same : SameStatics fw fw'

initiator_done-view :
    {p : Platform} (phase : InitiatorPhase p) (context : List ℕ) (d d' : p.lakers.Done)
    → initiator_done phase ≡ some d
    → view {p = p}
        (initiator (record { phase = InitiatorPhase.done d'; exporter_context = context }))
      ≡ initiator_view phase
initiator_done-view (InitiatorPhase.done d₀) context d d' e = refl
initiator_done-view _ context d d' e = cc

responder_done-view :
    {p : Platform} (phase : ResponderPhase p) (context : List ℕ) (d d' : p.lakers.Done)
    → responder_done phase ≡ some d
    → view {p = p}
        (responder (record { phase = ResponderPhase.done d'; exporter_context = context }))
      ≡ responder_view phase
responder_done-view (ResponderPhase.done d₀) context d d' e = refl
responder_done-view _ context d d' e = cc

put_done_same :
    {p : Platform} (s : Session p) (d d' : p.lakers.Done)
    → done_of s ≡ some d
    → (view (put_done s d') ≡ view s) × (context_of (put_done s d') ≡ context_of s)
put_done_same (initiator s) d d' e = (initiator_done-view s.phase s.exporter_context d d' e, refl)
put_done_same (responder s) d d' e = (responder_done-view s.phase s.exporter_context d d' e, refl)
put_done_same empty d d' e = cc

-- The key that a build is to install: the exported one, or, in the test build, the exported one
-- with the last bit of its first byte turned over.
abbrev pub key_to_install : Bool → List ℕ → List ℕ
key_to_install true (b ∷ rest) = (b / 2 * 2 + (1 - b % 2)) ∷ rest
key_to_install _ exported = exported

corrupt_lmk_lem : (flag : Bool) (lmk : List ℕ) → corrupt_lmk flag lmk ≡ key_to_install flag lmk
unfolding corrupt_lmk
corrupt_lmk_lem false lmk = refl
corrupt_lmk_lem true [] = refl
corrupt_lmk_lem true (b ∷ lmk) = ap (λ c. c ∷ lmk) (bit_xor_one b)

-- The key that a finished session exports is installed, as the build is to install it; `r` is what
-- the exporter gives.
abbrev pub KeyInPlace : {p : Platform} → Config → Firmware p → p.World → Type 0
KeyInPlace {p} cfg fw w' =
    (d : p.lakers.Done) × (done_of fw.session ≡ some d)
    × (let r = p.lakers.edhoc_exporter d 0xF0 (context_of fw.session) 16 fw.world in
        Installed p cfg.peer_mac (key_to_install cfg.milestone9_corrupt_lmk_for_test r.0.0)
          fw.s_channel r.1 w')

install_lem :
    {p : Platform} (laws : MessagesFit p) (cfg : Config) (fw : Firmware p)
    (o : Option p.lakers.Done)
    → length cfg.peer_mac ≡ 6
    → done_of fw.session ≡ o
    → Returns
        (bind_outcome (exported (zeros 16) fw.session fw o) (install_lmk cfg))
        (λ e fw'. SamePhase fw fw' × ((is_ok e ≡ false) ⊎ KeyInPlace cfg fw fw'.world))
unfolding install_lmk
install_lem laws cfg fw none mac none_done =
    (record { phase = refl; context = refl; same = (refl, refl) }, inl refl)
install_lem {p} laws cfg fw (some d) mac is_done =
    let r =
      p.lakers.edhoc_exporter d exporter_label_espnow_lmk (context_of fw.session) espnow_lmk_len
        fw.world in
    let key = corrupt_lmk cfg.milestone9_corrupt_lmk_for_test r.0.0 in
    let fw₁ : Firmware p = record fw { world = r.1; session = put_done fw.session r.0.1 } in
    let kept = put_done_same fw.session d r.0.1 is_done in
    let no_rest : drop 16 (zeros 16) ≡ [] = drop-zeros 16 16 ∙ zeros-nil in
    let key_len : length key ≡ 16 =
      length-corrupt_lmk cfg.milestone9_corrupt_lmk_for_test r.0.0
      ∙ laws.key_fits d exporter_label_espnow_lmk (context_of fw.session) espnow_lmk_len fw.world in
    rw (no_rest, append-nil, (log_lmk_summary_total p.mbedtls key (omega (arith, key_len))).1)
      (Returns-mono
        (key_manager_enable_derived_espnow_encryption (some cfg.peer_mac) (some key) fw₁)
        (λ e fw'.
          OnlyWorld fw₁ fw'
          × ((is_ok e ≡ false) ⊎ Installed p cfg.peer_mac key fw.s_channel r.1 fw'.world))
        _ (enable_derived-Installed cfg.peer_mac key fw₁ mac key_len)
        (λ e fw' h. (
          record {
            phase = ap view h.0.0 ∙ kept.0;
            context = ap context_of h.0.0 ∙ kept.1;
            same = h.0.1;
          },
          elim h.1 [
            | inl bad ↦ inl bad
            | inr i ↦
                inr (d, is_done, rw (← corrupt_lmk_lem cfg.milestone9_corrupt_lmk_for_test r.0.0) i)
          ],
        )))

-- The call returns and leaves phase, exporter context and statics as they were; it reports success
-- only if the handshake is finished and the key exported from it for its own context is installed
-- for the peer, as it is, or, in the test build, with the last bit of its first byte turned over.
-- The peer address has six bytes and the exporter fills the slice.
pub derive_and_install_lmk-KeyInPlace :
    {p : Platform} (laws : MessagesFit p) (cfg : Config) (fw : Firmware p)
    → length cfg.peer_mac ≡ 6
    → Returns
        (derive_and_install_lmk cfg fw)
        (λ e fw'. SamePhase fw fw' × ((is_ok e ≡ false) ⊎ KeyInPlace cfg fw fw'.world))
unfolding derive_and_install_lmk
derive_and_install_lmk-KeyInPlace laws cfg fw mac =
    rw
      (lakers_edhoc_export_espnow_lmk_lem (zeros 16) fw
        (omega (arith, length-zeros espnow_lmk_len)))
      (install_lem laws cfg fw (done_of fw.session) mac refl)
