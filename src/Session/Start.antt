-- ===== src/Session/Start.antt =====
-- lakers_edhoc_session_init of components/lakers_ffi/rust/src/lib.rs: the session that it leaves.
use espnow_edhoc.Prelude.{
  take-all, ℕ, ◌≡◌, refl, Bool, true, false, ◌⊎◌, inl, inr, ◌||◌, ◌==◌, ltb, Option, none, some,
  List, length, arith, Bool-cases,
}
use espnow_edhoc.Memory.{read_bytes_within}
use espnow_edhoc.Platform.{Platform}
use espnow_edhoc.Firmware.{Firmware, bind_outcome}
use espnow_edhoc.Firmware.Contracts.{Returns, SameStatics}
use espnow_edhoc.Session.{
  Status, is_status_ok, cred_i, cred_r, role_initiator, role_responder, new_initiator,
  new_responder, create_initiator, create_responder, create_session, finish_init,
  lakers_edhoc_session_init,
}
use espnow_edhoc.Session.Protocol.{Phase, i_start, r_start, view, context_of}
use espnow_edhoc.Session.Context.{context_bytes, build_exporter_context_lem}

abbrev pub role_of : Bool → ℕ
role_of true = role_initiator
role_of false = role_responder

abbrev pub start_phase : Bool → Phase
start_phase true = i_start
start_phase false = r_start

-- the context that the board of this role builds from its own address and its peer's
abbrev pub context_for : Bool → List ℕ → List ℕ → ℕ → List ℕ
context_for true own peer channel = context_bytes own peer channel
context_for false own peer channel = context_bytes peer own channel

-- the session is a fresh one, or the status is not a success and the session is the old one
abbrev pub Starts : {p : Platform} → Bool → List ℕ → Firmware p → Status → Firmware p → Type 0
Starts is_initiator context fw status fw' =
    SameStatics fw fw'
    × (((is_status_ok status ≡ false) × (fw'.session ≡ fw.session))
        ⊎ ((view fw'.session ≡ start_phase is_initiator) × (context_of fw'.session ≡ context)))

new_initiator-Starts :
    {p : Platform} (context : List ℕ) (c : Option p.lakers.Credential) (fw : Firmware p)
    → Returns
        (finish_init (new_initiator {p = p} context c) fw)
        (λ status fw'. Starts true context fw status fw')
unfolding finish_init new_initiator
new_initiator-Starts context none fw = ((refl, refl), inl (refl, refl))
new_initiator-Starts context (some c) fw = ((refl, refl), inr (refl, refl))

new_responder-Starts :
    {p : Platform} (context : List ℕ) (c : Option p.lakers.Credential) (fw : Firmware p)
    → Returns
        (finish_init (new_responder {p = p} context c) fw)
        (λ status fw'. Starts false context fw status fw')
unfolding finish_init new_responder
new_responder-Starts context none fw = ((refl, refl), inl (refl, refl))
new_responder-Starts context (some c) fw = ((refl, refl), inr (refl, refl))

created-Starts :
    {p : Platform} (is_initiator : Bool) (own peer : List ℕ) (channel : ℕ) (fw : Firmware p)
    → length own ≡ 6
    → length peer ≡ 6
    → Returns
        (bind_outcome (create_session (role_of is_initiator) own peer channel fw) finish_init)
        (λ status fw'.
          Starts is_initiator (context_for is_initiator own peer channel) fw status fw')
unfolding create_session create_initiator create_responder finish_init
created-Starts {p} true own peer channel fw ho hp =
    elim (Bool-cases (channel == 0 || ltb 14 channel)) [
      | inl bad ↦ rw (ho, hp, bad) ((refl, refl), inl (refl, refl))
      | inr good ↦
          rw (ho, hp, good, build_exporter_context_lem own peer channel ho hp)
            (new_initiator-Starts (context_bytes own peer channel) (p.lakers.parse_ccs cred_i) fw)
    ]
created-Starts {p} false own peer channel fw ho hp =
    elim (Bool-cases (channel == 0 || ltb 14 channel)) [
      | inl bad ↦ rw (ho, hp, bad) ((refl, refl), inl (refl, refl))
      | inr good ↦
          rw (ho, hp, good, build_exporter_context_lem peer own channel hp ho)
            (new_responder-Starts (context_bytes peer own channel) (p.lakers.parse_ccs cred_r) fw)
    ]

-- For addresses of six bytes the initialisation returns; it reports no success and keeps the
-- session, or leaves a fresh session of the role with the exporter context of the two addresses in
-- the order of the roles.
pub session_init-Starts :
    {p : Platform} (is_initiator : Bool) (own peer : List ℕ) (channel : ℕ) (fw : Firmware p)
    → length own ≡ 6
    → length peer ≡ 6
    → Returns
        (lakers_edhoc_session_init (role_of is_initiator) (some own) (some peer) channel fw)
        (λ status fw'.
          Starts is_initiator (context_for is_initiator own peer channel) fw status fw')
unfolding lakers_edhoc_session_init
session_init-Starts is_initiator own peer channel fw ho hp =
    rw
      (
        read_bytes_within own 6 (omega arith),
        take-all 6 own (omega arith),
        read_bytes_within peer 6 (omega arith),
        take-all 6 peer (omega arith),
      )
      (created-Starts is_initiator own peer channel fw ho hp)
