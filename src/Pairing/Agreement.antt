-- ===== src/Pairing/Agreement.antt =====
-- derive_and_install_lmk of main/main.c on the two boards of one handshake, of which
-- either may be the test build that changes its key.
use espnow_edhoc.Prelude.{
  ◌⊎◌, inl, inr, ℕ, ◌≡◌, ◌≢◌, refl, sym, ◌∙◌, ap, Bool, true, false, some, List, [], ◌∷◌, arith,
  length, ◌↔◌, get_or,
}
use espnow_edhoc.Config.{Config}
use espnow_edhoc.Platform.{EspErr, is_ok, Platform}
use espnow_edhoc.Firmware.{Firmware}
use espnow_edhoc.Firmware.Contracts.{Returns, Returns-mono}
use espnow_edhoc.Session.{espnow_lmk_len, exporter_label_espnow_lmk}
use espnow_edhoc.Session.Protocol.{ExportAlike, context_of, MessagesFit}
use espnow_edhoc.Session.Messages.Export.{done_of}
use espnow_edhoc.KeyManager.Install.{Installed}
use espnow_edhoc.Pairing.{derive_and_install_lmk}
use espnow_edhoc.Pairing.Key.{key_to_install, KeyInPlace, derive_and_install_lmk-KeyInPlace}

turned_over : (lmk : List ℕ) → length lmk ≡ 16 → key_to_install true lmk ≢ lmk
turned_over [] size e = absurd (omega (arith, size))
turned_over (b ∷ lmk) size e = absurd (omega (arith, ap (λ xs. get_or xs 0 0) e))

-- The change is seen in the key.
key_to_install_iff :
    (flag flag' : Bool) (lmk : List ℕ)
    → length lmk ≡ 16
    → (key_to_install flag lmk ≡ key_to_install flag' lmk) ↔ (flag ≡ flag')
key_to_install_iff true true lmk size = ((λ e. refl), (λ e. refl))
key_to_install_iff false false lmk size = ((λ e. refl), (λ e. refl))
key_to_install_iff true false lmk size = ((λ e. absurd (turned_over lmk size e)), (λ e. cc))
key_to_install_iff false true lmk size = ((λ e. absurd (turned_over lmk size (sym e))), (λ e. cc))

-- One of the installations has failed, or both boards have installed a key for the other, and the
-- keys are the same exactly if both or none of the boards is the test build.
abbrev pub KeysAgree :
    {p : Platform}
    → Config
    → Config
    → Firmware p
    → Firmware p
    → EspErr
    → EspErr
    → p.World
    → p.World
    → Type 0
KeysAgree {p} cfg cfg' fw fw' e e' after after' =
    (is_ok e ≡ false)
    ⊎ ((is_ok e' ≡ false)
        ⊎ ((key : List ℕ) × (key' : List ℕ) × (w : p.World) × (w' : p.World) × Installed p
              cfg.peer_mac key fw.s_channel w after
            × Installed p cfg'.peer_mac key' fw'.s_channel w' after'
            × ((key ≡ key')
                ↔ (cfg.milestone9_corrupt_lmk_for_test ≡ cfg'.milestone9_corrupt_lmk_for_test))))

module _ {p : Platform} (laws : MessagesFit p) (cfg cfg' : Config) (fw fw' : Firmware p)
    (one_context : context_of fw.session ≡ context_of fw'.session)
    (one_handshake : (d d' : p.lakers.Done)
      → done_of fw.session ≡ some d
      → done_of fw'.session ≡ some d'
      → ExportAlike p d d') where
  exported_agree :
      (e e' : EspErr) (after after' : p.World)
      → ((is_ok e ≡ false) ⊎ KeyInPlace cfg fw after)
      → ((is_ok e' ≡ false) ⊎ KeyInPlace cfg' fw' after')
      → KeysAgree cfg cfg' fw fw' e e' after after'
  exported_agree e e' after after' (inl bad) k' = inl bad
  exported_agree e e' after after' (inr k) (inl bad) = inr (inl bad)
  exported_agree e e' after after' (inr (d, is_done, i)) (inr (d', is_done', i')) =
      let r =
        p.lakers.edhoc_exporter d exporter_label_espnow_lmk (context_of fw.session) espnow_lmk_len
          fw.world in
      let r' =
        p.lakers.edhoc_exporter d' exporter_label_espnow_lmk (context_of fw'.session) espnow_lmk_len
          fw'.world in
      let same : r.0.0 ≡ r'.0.0 =
        ap
          (λ c. (p.lakers.edhoc_exporter d exporter_label_espnow_lmk c espnow_lmk_len fw.world).0.0)
          one_context
        ∙ one_handshake d d' is_done is_done' exporter_label_espnow_lmk (context_of fw'.session)
            espnow_lmk_len fw.world fw'.world in
      inr (
        inr (
          key_to_install cfg.milestone9_corrupt_lmk_for_test r.0.0,
          key_to_install cfg'.milestone9_corrupt_lmk_for_test r'.0.0,
          r.1,
          r'.1,
          i,
          i',
          rw (← same) (
              key_to_install_iff _ _ r.0.0 (
                laws.key_fits d exporter_label_espnow_lmk (context_of fw.session) espnow_lmk_len
                  fw.world)),
        ))

  -- For two boards whose sessions have one exporter context and, where finished, export the same
  -- bytes, the installation of the key returns on both; if both report success each has installed
  -- a key for its peer, and the two keys are the same exactly if both or none of the builds
  -- changes the key for the test. The peer addresses have six bytes and the exporter fills the
  -- slice.
  pub keys_agree :
      length cfg.peer_mac ≡ 6
      → length cfg'.peer_mac ≡ 6
      → Returns (derive_and_install_lmk cfg fw) (λ e after.
        Returns
          (derive_and_install_lmk cfg' fw')
          (λ e' after'. KeysAgree cfg cfg' fw fw' e e' after.world after'.world))
  keys_agree mac mac' =
      Returns-mono (derive_and_install_lmk cfg fw) _ _
        (derive_and_install_lmk-KeyInPlace laws cfg fw mac)
        (λ e after h.
          Returns-mono (derive_and_install_lmk cfg' fw') _ _
            (derive_and_install_lmk-KeyInPlace laws cfg' fw' mac')
            (λ e' after' h'. exported_agree e e' after.world after'.world h.1 h'.1))
