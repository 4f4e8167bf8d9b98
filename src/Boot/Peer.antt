-- ===== src/Boot/Peer.antt =====
-- peer_mac_is_configured of main/main.c: which addresses a board takes for its peer's.
use espnow_edhoc.Prelude.{
  ℕ, ◌%◌, ◌≡◌, ◌≢◌, refl, sym, ◌∙◌, ap, true, inl, inr, List, [], ◌∷◌, arith, length, get_or, drop,
  replicate, ==_iff, ◌↔◌, Bool-cases,
}
use espnow_edhoc.Prelude.Bits.{bit_and_one}
use espnow_edhoc.Boot.{mac_is_all_value, peer_mac_is_configured}

mac_is_all_value_iff :
    (mac : List ℕ) (value : ℕ)
    → (mac_is_all_value mac value ≡ true) ↔ (mac ≡ replicate (length mac) value)
unfolding mac_is_all_value
mac_is_all_value_iff [] value = ((λ e. refl), (λ e. refl))
mac_is_all_value_iff (b ∷ mac) value =
    let rest = mac_is_all_value_iff mac value in
    (
      (λ e.
          let head : b ≡ value = (==_iff b value).0 (ground arith) in
          let tail : mac ≡ replicate (length mac) value = rest.0 (ground arith) in
          ap (λ x. x ∷ mac) head ∙ ap (λ xs. value ∷ xs) tail),
      (λ e.
          let head : b ≡ value = ap (λ xs. get_or xs 0 0) e in
          let tail : mac ≡ replicate (length mac) value = ap (drop 1) e in
          rw ((==_iff b value).1 head, rest.1 tail) refl),
    )

-- An address of six bytes counts as configured exactly if it is not all zeros and the lowest bit
-- of its first byte is clear; so the broadcast address and all group addresses are refused.
pub peer_mac_is_configured_lem :
    (mac : List ℕ)
    → length mac ≡ 6
    → (peer_mac_is_configured mac ≡ true) ↔ ((mac ≢ replicate 6 0x00) × (get_or mac 0 0 % 2 ≡ 0))
unfolding peer_mac_is_configured
peer_mac_is_configured_lem mac size =
    let zeros = mac_is_all_value_iff mac 0x00 in
    let ones = mac_is_all_value_iff mac 0xFF in
    let six : (v : ℕ) → replicate (length mac) v ≡ replicate 6 v =
      λ v. ap (λ n. replicate n v) size in
    let low = bit_and_one (get_or mac 0 0) in
    elim (Bool-cases (mac_is_all_value mac 0x00)) [
      | inl z ↦ rw z ((λ e. cc), (λ h. absurd (h.0 (zeros.0 z ∙ six 0x00))))
      | inr not_zeros ↦ elim (Bool-cases (mac_is_all_value mac 0xFF)) [
        | inl o ↦
            let head : get_or mac 0 0 ≡ 0xFF = ap (λ xs. get_or xs 0 0) (ones.0 o ∙ six 0xFF) in
            rw (not_zeros, o) ((λ e. cc), (λ h. absurd (omega (arith, head, h.1))))
        | inr not_ones ↦
            rw (not_zeros, not_ones)
              (
                (λ e. (
                  (λ m.
                      let all : mac_is_all_value mac 0x00 ≡ true = zeros.1 (m ∙ sym (six 0x00)) in
                      cc),
                  omega (arith, low, (==_iff _ _).0 e),
                )),
                (λ h. (==_iff _ _).1 (omega (arith, low, h.1))),
              )
      ]
    ]
