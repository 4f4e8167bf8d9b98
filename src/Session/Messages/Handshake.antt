-- ===== src/Session/Messages/Handshake.antt =====
-- The calls of components/lakers_ffi/rust/src/lib.rs on the two boards of one handshake, each with
-- the message that the other left: what EDHOC promises of the library, and the chains of calls.
pub mod Buffers
pub mod Steps
pub mod Complete
use espnow_edhoc.Prelude.{ℕ, ◌≤◌, Option, none, some, List, length}
use espnow_edhoc.Platform.{Platform}
use espnow_edhoc.Firmware.{Firmware, Outcome, M, call}
use espnow_edhoc.Firmware.Contracts.{Returns}
use espnow_edhoc.Session.Credentials.{cred_i, cred_r}
use espnow_edhoc.Session.Messages.{or_fail, ◌>>?◌}
use espnow_edhoc.Session.Protocol.{ExportAlike}

-- there is a value, and `P` holds of it
abbrev pub Yes : {A : Type 0} → Option A → (A → Type 0) → Type 0
Yes none P = ⊥
Yes (some a) P = P a

-- neither empty nor longer than a buffer
abbrev pub IsMessage : List ℕ → Type 0
IsMessage bytes = (1 ≤ length bytes) × (length bytes ≤ 192)

-- The library takes a message, whatever the random numbers, and `After` holds of what it makes.
abbrev pub Takes1 :
    (p : Platform)
    → p.lakers.Responder
    → (p.lakers.WaitM3 → List ℕ → Type 0)
    → p.lakers.Message1
    → Type 0
Takes1 p r After m =
    (w : p.World)
    → Yes (p.lakers.process_message_1 r m w).0 (λ processed.
      (w₁ : p.World)
      → Yes (p.lakers.prepare_message_2 processed w₁).0 (λ t. After t.0 t.1 × IsMessage t.1))

abbrev pub Takes2 :
    (p : Platform)
    → p.lakers.WaitM2
    → (p.lakers.Done → List ℕ → Type 0)
    → p.lakers.Message2
    → Type 0
Takes2 p s After m =
    (w : p.World)
    → Yes (p.lakers.parse_message_2 s m w).0 (λ parsed. Yes (p.lakers.parse_ccs cred_r) (λ expected.
      (w₁ : p.World)
      → Yes (p.lakers.credential_check_or_fetch expected parsed.1 w₁).0 (λ valid.
        (w₂ : p.World)
        → Yes (p.lakers.verify_message_2 parsed.0 valid w₂).0 (λ processed.
          (w₃ : p.World)
          → Yes (p.lakers.prepare_message_3 processed w₃).0 (λ u.
            (w₄ : p.World)
            → Yes (p.lakers.wait_m4_completed u.0 w₄).0 (λ d. After d u.1 × IsMessage u.1))))))

abbrev pub Takes3 :
    (p : Platform) → p.lakers.WaitM3 → (p.lakers.Done → Type 0) → p.lakers.Message3 → Type 0
Takes3 p t After m =
    (w : p.World)
    → Yes (p.lakers.parse_message_3 t m w).0 (λ parsed. Yes (p.lakers.parse_ccs cred_i) (λ expected.
      (w₁ : p.World)
      → Yes (p.lakers.credential_check_or_fetch expected parsed.1 w₁).0 (λ valid.
        (w₂ : p.World)
        → Yes (p.lakers.verify_message_3 parsed.0 valid w₂).0 (λ processed.
          (w₃ : p.World) → Yes (p.lakers.processed_m3_completed processed w₃).0 After))))

-- Completeness of EDHOC, for an initiator and a responder that hold each other's credentials: each
-- end takes what the other has made. `After1` says what an initiator that waits may have sent,
-- `After2` what a responder that waits may have answered, and `After3` what an initiator that is
-- done may have sent last.
pub record HandshakeCompletes (p : Platform) (i : p.lakers.Initiator) (r : p.lakers.Responder)
    : Type 1 where
  pub After1 : p.lakers.WaitM2 → List ℕ → Type 0
  pub After2 : p.lakers.WaitM2 → p.lakers.WaitM3 → List ℕ → Type 0
  pub After3 : p.lakers.Done → p.lakers.WaitM3 → List ℕ → Type 0
  pub makes_1 :
      (w : p.World) → Yes (p.lakers.prepare_message_1 i w).0 (λ t. After1 t.0 t.1 × IsMessage t.1)
  pub takes_1 :
      (s : p.lakers.WaitM2) (bytes : List ℕ)
      → After1 s bytes
      → Yes (p.lakers.message_1_from_slice bytes) (Takes1 p r (After2 s))
  pub takes_2 :
      (s : p.lakers.WaitM2) (t : p.lakers.WaitM3) (bytes : List ℕ)
      → After2 s t bytes
      → Yes (p.lakers.message_2_from_slice bytes) (Takes2 p s (λ d. After3 d t))
  pub takes_3 :
      (d : p.lakers.Done) (t : p.lakers.WaitM3) (bytes : List ℕ)
      → After3 d t bytes
      → Yes (p.lakers.message_3_from_slice bytes) (Takes3 p t (ExportAlike p d))

-- the call returns a value, and `P` holds of it
abbrev pub Succeeds : {p : Platform} {A : Type 0} → Outcome p (Option A) → (A → Type 0) → Type 0
Succeeds o P = Returns o (λ r fw'. Yes r P)

-- a link of a chain that the library answers
pub Succeeds-link :
    {p : Platform} {A B : Type 0} (g : p.World → Option A × p.World) (f : A → M p (Option B))
    (fw : Firmware p) (C : A → Type 0) (P : B → Type 0)
    → Yes (g fw.world).0 C
    → ((a : A) → C a → (fw' : Firmware p) → Succeeds (f a fw') P)
    → Succeeds ((call g >>? f) fw) P
unfolding ◌>>?◌ or_fail
Succeeds-link {p} {A} {B} g f fw C P h next = after (g fw.world).0 _ h
  where
    after : (o : Option A) (fw' : Firmware p) → Yes o C → Succeeds (or_fail f o fw') P
    after none fw' h' = absurd h'
    after (some a) fw' c = next a c fw'

pub Succeeds-pure :
    {p : Platform} {A B : Type 0} (o : Option A) (f : A → M p (Option B)) (fw : Firmware p)
    (C : A → Type 0) (P : B → Type 0)
    → Yes o C
    → ((a : A) → C a → Succeeds (f a fw) P)
    → Succeeds (or_fail f o fw) P
unfolding or_fail
Succeeds-pure none f fw C P h next = absurd h
Succeeds-pure (some a) f fw C P h next = next a h
