-- ===== src/Session/Messages/Authentic.antt =====
-- What a chain of calls of the Lakers library in components/lakers_ffi/rust/src/lib.rs has had it
-- answer, call by call.
pub mod Responder
pub mod Initiator
pub mod MessageOne
pub mod Answering
use espnow_edhoc.Prelude.{ℕ, ◌≡◌, refl, Option, none, some, List, ◌++◌, drop, length}
use espnow_edhoc.Memory.{pointee}
use espnow_edhoc.Platform.{Platform}
use espnow_edhoc.Firmware.{Firmware, Outcome, M, call}
use espnow_edhoc.Firmware.Contracts.{Returns}
use espnow_edhoc.Session.{Out}
use espnow_edhoc.Session.Protocol.{IfSome}
use espnow_edhoc.Session.Messages.{or_fail, ◌>>?◌}

-- the call returns, and `P` holds of what it yields, if it does, and of the world then
abbrev pub Gives :
    {p : Platform} {A : Type 0} → Outcome p (Option A) → (A → p.World → Type 0) → Type 0
Gives o P = Returns o (λ r fw'. IfSome (λ a. P a fw'.world) r)

-- a link of a chain: what follows knows the answer of the library
pub Gives-link :
    {p : Platform} {A B : Type 0} (g : p.World → Option A × p.World) (f : A → M p (Option B))
    (fw : Firmware p) (P : B → p.World → Type 0)
    → ((a : A) (w' : p.World)
        → g fw.world ≡ (some a, w')
        → Gives (f a (record fw { world = w' })) P)
    → Gives ((call g >>? f) fw) P
unfolding ◌>>?◌ or_fail
Gives-link {p} {A} g f fw P next = after (g fw.world).0 (g fw.world).1 refl
  where
    after :
        (o : Option A) (w' : p.World)
        → g fw.world ≡ (o, w')
        → Gives (or_fail f o (record fw { world = w' })) P
    after none w' e = tt
    after (some a) w' e = next a w' e

-- a link that calls nothing
pub Gives-pure :
    {p : Platform} {A B : Type 0} (o : Option A) (f : A → M p (Option B)) (fw : Firmware p)
    (P : B → p.World → Type 0)
    → ((a : A) → o ≡ some a → Gives (f a fw) P)
    → Gives (or_fail f o fw) P
unfolding or_fail
Gives-pure none f fw P next = tt
Gives-pure (some a) f fw P next = next a refl

pub Gives-last :
    {p : Platform} {A : Type 0} (g : p.World → Option A × p.World) (fw : Firmware p)
    (P : A → p.World → Type 0)
    → ((a : A) (w' : p.World) → g fw.world ≡ (some a, w') → P a w')
    → Gives (call g fw) P
Gives-last {p} {A} g fw P last = after (g fw.world).0 (g fw.world).1 refl
  where
    after : (o : Option A) (w' : p.World) → g fw.world ≡ (o, w') → IfSome (λ a. P a w') o
    after none w' e = tt
    after (some a) w' e = last a w' e

-- The buffer holds these bytes in front of what it held behind them, and the length is theirs.
pub record Left (message : List ℕ) (out out' : Out) : Type 0 where
  pub bytes : out'.output ≡ some (message ++ drop (length message) (pointee out.output))
  pub size : out'.output_length ≡ some (length message)
