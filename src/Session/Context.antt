-- ===== src/Session/Context.antt =====
-- build_exporter_context and create_session of components/lakers_ffi/rust/src/lib.rs: the context
-- that ties the exported key to the two addresses and the channel.
use espnow_edhoc.Prelude.{
  ℕ, ◌+◌, ◌-◌, ◌≤◌, ◌<◌, ◌≡◌, refl, sym, ◌∙◌, Option, none, some, List, [], ◌∷◌, ◌++◌, arith,
  length, take-all, length-append, append-injective, ◌==◌, ==_refl, ◌||◌, ltb, false,
}
use mathlib.Core.List.{append_assoc}
use espnow_edhoc.Memory.{zeros, memcpy_append, zeros-nil}
use espnow_edhoc.Platform.{Platform}
use espnow_edhoc.Firmware.{Session, Firmware}
use espnow_edhoc.Firmware.Contracts.{Returns}
use espnow_edhoc.Session.Protocol.{Phase, i_start, r_start, view, context_of}
use espnow_edhoc.Session.Credentials.{cred_i, cred_r}
use espnow_edhoc.Session.{
  status_credential_error, Res, okay, error, role_initiator, role_responder, new_initiator,
  new_responder, create_initiator, create_responder, create_session, build_exporter_context,
  copy_from_slice, exporter_purpose,
}

-- the context as the README has it
abbrev pub context_bytes : List ℕ → List ℕ → ℕ → List ℕ
context_bytes initiator_mac responder_mac channel =
    exporter_purpose ++ (initiator_mac ++ (responder_mac ++ channel ∷ []))

-- one copy behind what is there
copy_next :
    (pre src : List ℕ) (lo n m : ℕ)
    → length pre ≡ lo
    → length src ≡ n
    → n ≤ m
    → copy_from_slice lo (lo + n) src (pre ++ zeros m) ≡ some ((pre ++ src) ++ zeros (m - n))
unfolding copy_from_slice
copy_next pre src lo n m e l h =
    let width : lo + n - lo ≡ n = omega arith in
    rw (width, l, ==_refl n)
      (memcpy_append pre src lo m n e h (omega arith)
        ∙ rw (take-all n src (omega arith), append_assoc) refl)

-- For addresses of six bytes no copy panics, and the context is the purpose string, the address of
-- the initiator, the address of the responder and the channel.
pub build_exporter_context_lem :
    (initiator_mac responder_mac : List ℕ) (channel : ℕ)
    → length initiator_mac ≡ 6
    → length responder_mac ≡ 6
    → build_exporter_context initiator_mac responder_mac channel
      ≡ some (context_bytes initiator_mac responder_mac channel)
unfolding build_exporter_context
build_exporter_context_lem i r channel hi hr =
    let c₂ : List ℕ = exporter_purpose ++ i in
    let c₃ : List ℕ = c₂ ++ r in
    let l₂ : length c₂ ≡ 20 = omega (arith, length-append exporter_purpose i) in
    let l₃ : length c₃ ≡ 26 = omega (arith, length-append c₂ r) in
    let e₁ = memcpy_append [] exporter_purpose 0 27 14 refl (omega arith) (omega arith) in
    let e₂ = copy_next exporter_purpose i 14 6 13 refl hi (omega arith) in
    let e₃ = copy_next c₂ r 20 6 7 l₂ hr (omega arith) in
    let e₄ = memcpy_append c₃ (channel ∷ []) 26 1 1 l₃ (omega arith) (omega arith) in
    rw (e₁, build_exporter_context)
      (rw (e₂, build_exporter_context)
        (rw (e₃, build_exporter_context) (rw e₄ (rw (zeros-nil, append_assoc) refl))))

-- For addresses of six bytes, two exporter contexts are equal only if both addresses and the
-- channel are.
pub build_exporter_context-injective :
    (i r i' r' : List ℕ) (channel channel' : ℕ)
    → length i ≡ 6
    → length r ≡ 6
    → length i' ≡ 6
    → length r' ≡ 6
    → build_exporter_context i r channel ≡ build_exporter_context i' r' channel'
    → (i ≡ i') × (r ≡ r') × (channel ≡ channel')
build_exporter_context-injective i r i' r' channel channel' hi hr hi' hr' e =
    let same : some (context_bytes i r channel) ≡ some (context_bytes i' r' channel') =
      sym (build_exporter_context_lem i r channel hi hr)
      ∙ e
      ∙ build_exporter_context_lem i' r' channel' hi' hr' in
    let tails : i ++ (r ++ channel ∷ []) ≡ i' ++ (r' ++ channel' ∷ []) = cc in
    let (i_eq, rest) = append-injective i i' _ _ (omega arith) tails in
    let (r_eq, last) = append-injective r r' _ _ (omega arith) rest in (i_eq, r_eq, cc)

-- the new session of a board: fresh, and with this context
abbrev pub StartsWith : {p : Platform} → Phase → List ℕ → Res (Session p) → Type 0
StartsWith phase context (okay s) = (view s ≡ phase) × (context_of s ≡ context)
StartsWith phase context (error status) = status ≡ status_credential_error

new_initiator-StartsWith :
    (p : Platform) (context : List ℕ) (c : Option p.lakers.Credential)
    → StartsWith {p = p} i_start context (new_initiator context c)
unfolding new_initiator
new_initiator-StartsWith p context none = refl
new_initiator-StartsWith p context (some c) = (refl, refl)

new_responder-StartsWith :
    (p : Platform) (context : List ℕ) (c : Option p.lakers.Credential)
    → StartsWith {p = p} r_start context (new_responder context c)
unfolding new_responder
new_responder-StartsWith p context none = refl
new_responder-StartsWith p context (some c) = (refl, refl)

valid_args : (channel : ℕ) → 0 < channel → channel ≤ 14 → (channel == 0 || ltb 14 channel) ≡ false
valid_args channel h k = ground arith

create_initiator_lem :
    {p : Platform} (own peer : List ℕ) (channel : ℕ) (fw : Firmware p)
    → length own ≡ 6
    → length peer ≡ 6
    → Returns
        (create_initiator own peer channel fw)
        (λ r _. StartsWith i_start (context_bytes own peer channel) r)
unfolding create_initiator
create_initiator_lem {p} own peer channel fw ho hp =
    rw (build_exporter_context_lem own peer channel ho hp)
      (new_initiator-StartsWith p (context_bytes own peer channel) (p.lakers.parse_ccs cred_i))

create_responder_lem :
    {p : Platform} (own peer : List ℕ) (channel : ℕ) (fw : Firmware p)
    → length own ≡ 6
    → length peer ≡ 6
    → Returns
        (create_responder own peer channel fw)
        (λ r _. StartsWith r_start (context_bytes peer own channel) r)
unfolding create_responder
create_responder_lem {p} own peer channel fw ho hp =
    rw (build_exporter_context_lem peer own channel hp ho)
      (new_responder-StartsWith p (context_bytes peer own channel) (p.lakers.parse_ccs cred_r))

-- Two boards with addresses of six bytes that name each other on one channel from 1 to 14 create
-- fresh sessions, an initiator and a responder, with the same exporter context; the creation fails
-- only with a credential error.
pub create_session_agree :
    {p : Platform} (a b : List ℕ) (channel : ℕ) (fw fw' : Firmware p)
    → length a ≡ 6
    → length b ≡ 6
    → 0 < channel
    → channel ≤ 14
    → Returns
        (create_session role_initiator a b channel fw)
        (λ r _. StartsWith i_start (context_bytes a b channel) r)
      × Returns
          (create_session role_responder b a channel fw')
          (λ r _. StartsWith r_start (context_bytes a b channel) r)
unfolding create_session
create_session_agree a b channel fw fw' ha hb h k =
    rw (ha, hb, valid_args channel h k)
      (create_initiator_lem a b channel fw ha hb, create_responder_lem b a channel fw' hb ha)
