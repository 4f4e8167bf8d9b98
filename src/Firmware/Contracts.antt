-- ===== src/Firmware/Contracts.antt =====
-- What a call of the firmware's functions ensures, and how that passes through a sequence of calls.
use espnow_edhoc.Prelude.{refl, ◌⊎◌, subst, Bool-cases, inl, inr, true, false, ◌≡◌, if◌then◌else◌}
use espnow_edhoc.Platform.{EspErr, is_ok, Platform}
use espnow_edhoc.Firmware.{
  Firmware, Outcome, returned, aborted, fault, M, bind_outcome, ◌>>◌, esp_error_check,
}

-- `P` holds of the result and the state after a call that returns, and the call never faults.
abbrev pub Ensures : {p : Platform} {A : Type 0} → Outcome p A → (A → Firmware p → Type 0) → Type 0
Ensures (returned a fw) P = P a fw
Ensures aborted P = Unit
Ensures fault P = ⊥

-- The call returns, and `P` holds of the result and the state after it.
abbrev pub Returns : {p : Platform} {A : Type 0} → Outcome p A → (A → Firmware p → Type 0) → Type 0
Returns (returned a fw) P = P a fw
Returns aborted P = ⊥
Returns fault P = ⊥

-- `P` holds after a call that returns, the call never faults, and it aborts only if `X`.
abbrev pub Upto :
    {p : Platform} {A : Type 0} → Type 0 → Outcome p A → (A → Firmware p → Type 0) → Type 0
Upto X (returned a fw) P = P a fw
Upto X aborted P = X
Upto X fault P = ⊥

pub Upto-bind :
    {p : Platform} {A B : Type 0} (X : Type 0) (o : Outcome p A) (f : A → M p B)
    (P : A → Firmware p → Type 0) (Q : B → Firmware p → Type 0)
    → Upto X o P
    → ((a : A) (fw : Firmware p) → P a fw → Upto X (f a fw) Q)
    → Upto X (bind_outcome o f) Q
Upto-bind X (returned a fw) f P Q h k = k a fw h
Upto-bind X aborted f P Q h k = h
Upto-bind X fault f P Q h k = h

-- the same where the first part returns
pub Returns-bind_Upto :
    {p : Platform} {A B : Type 0} (X : Type 0) (o : Outcome p A) (f : A → M p B)
    (P : A → Firmware p → Type 0) (Q : B → Firmware p → Type 0)
    → Returns o P
    → ((a : A) (fw : Firmware p) → P a fw → Upto X (f a fw) Q)
    → Upto X (bind_outcome o f) Q
Returns-bind_Upto X (returned a fw) f P Q h k = k a fw h
Returns-bind_Upto X aborted f P Q h k = absurd h
Returns-bind_Upto X fault f P Q h k = h

pub Upto-mono :
    {p : Platform} {A : Type 0} (X : Type 0) (o : Outcome p A) (P Q : A → Firmware p → Type 0)
    → Upto X o P
    → ((a : A) (fw : Firmware p) → P a fw → Q a fw)
    → Upto X o Q
Upto-mono X (returned a fw) P Q h k = k a fw h
Upto-mono X aborted P Q h k = h
Upto-mono X fault P Q h k = h

pub Upto-Ensures :
    {p : Platform} {A : Type 0} (X : Type 0) (o : Outcome p A) (P : A → Firmware p → Type 0)
    → Upto X o P
    → Ensures o P
Upto-Ensures X (returned a fw) P h = h
Upto-Ensures X aborted P h = tt
Upto-Ensures X fault P h = h

pub Upto-Returns :
    {p : Platform} {A : Type 0} (o : Outcome p A) (P : A → Firmware p → Type 0)
    → Upto ⊥ o P
    → Returns o P
Upto-Returns (returned a fw) P h = h
Upto-Returns aborted P h = h
Upto-Returns fault P h = h

-- the call has succeeded, or an abort is allowed
abbrev pub Succeeded : Type 0 → EspErr → Type 0
Succeeded X e = (is_ok e ≡ true) ⊎ X

-- `ESP_ERROR_CHECK` aborts on an error alone
pub Upto-check :
    {p : Platform} {B : Type 0} (X : Type 0) (err : EspErr) (k : M p B) (fw : Firmware p)
    (Q : B → Firmware p → Type 0)
    → Succeeded X err
    → Upto X (k fw) Q
    → Upto X ((do esp_error_check err; k) fw) Q
Upto-check X err k fw Q (inl ok) h = rw ok h
Upto-check X err k fw Q (inr x) h =
    elim (is_ok err)
      as (λ b. Upto X (bind_outcome (if b then returned tt fw else aborted) (λ _. k)) Q) [
        | true ↦ h
        | false ↦ x
      ]

pub Ensures-bind :
    {p : Platform} {A B : Type 0} (o : Outcome p A) (f : A → M p B) (P : A → Firmware p → Type 0)
    (Q : B → Firmware p → Type 0)
    → Ensures o P
    → ((a : A) (fw : Firmware p) → P a fw → Ensures (f a fw) Q)
    → Ensures (bind_outcome o f) Q
Ensures-bind (returned a fw) f P Q h k = k a fw h
Ensures-bind aborted f P Q h k = tt
Ensures-bind fault f P Q h k = h

-- what follows a call knows that it was this call that returned
pub Ensures-self :
    {p : Platform} {A : Type 0} (o : Outcome p A) (P : A → Firmware p → Type 0)
    → Ensures o P
    → Ensures o (λ a fw. P a fw × (o ≡ returned a fw))
Ensures-self (returned a fw) P h = (h, refl)
Ensures-self aborted P h = tt
Ensures-self fault P h = h

pub Returns-bind :
    {p : Platform} {A B : Type 0} (o : Outcome p A) (f : A → M p B) (P : A → Firmware p → Type 0)
    (Q : B → Firmware p → Type 0)
    → Returns o P
    → ((a : A) (fw : Firmware p) → P a fw → Returns (f a fw) Q)
    → Returns (bind_outcome o f) Q
Returns-bind (returned a fw) f P Q h k = k a fw h
Returns-bind aborted f P Q h k = absurd h
Returns-bind fault f P Q h k = absurd h

pub Ensures-mono :
    {p : Platform} {A : Type 0} (o : Outcome p A) (P Q : A → Firmware p → Type 0)
    → Ensures o P
    → ((a : A) (fw : Firmware p) → P a fw → Q a fw)
    → Ensures o Q
Ensures-mono (returned a fw) P Q h k = k a fw h
Ensures-mono aborted P Q h k = h
Ensures-mono fault P Q h k = h

pub Returns-mono :
    {p : Platform} {A : Type 0} (o : Outcome p A) (P Q : A → Firmware p → Type 0)
    → Returns o P
    → ((a : A) (fw : Firmware p) → P a fw → Q a fw)
    → Returns o Q
Returns-mono (returned a fw) P Q h k = k a fw h
Returns-mono aborted P Q h k = h
Returns-mono fault P Q h k = h

pub Returns-both :
    {p : Platform} {A : Type 0} (o : Outcome p A) (P Q : A → Firmware p → Type 0)
    → Returns o P
    → Returns o Q
    → Returns o (λ a fw. P a fw × Q a fw)
Returns-both (returned a fw) P Q h k = (h, k)
Returns-both aborted P Q h k = h
Returns-both fault P Q h k = h

-- `ESP_ERROR_CHECK` lets only a success pass
pub Ensures-check :
    {p : Platform} {B : Type 0} (err : EspErr) (k : M p B) (fw : Firmware p)
    (Q : B → Firmware p → Type 0)
    → Ensures (k fw) Q
    → Ensures ((do esp_error_check err; k) fw) Q
Ensures-check err k fw Q h =
    elim (is_ok err)
      as (λ b. Ensures (bind_outcome (if b then returned tt fw else aborted) (λ _. k)) Q) [
        | true ↦ h
        | false ↦ tt
      ]

-- and what follows it knows of the success
pub Ensures-check_ok :
    {p : Platform} {B : Type 0} (err : EspErr) (k : M p B) (fw : Firmware p)
    (Q : B → Firmware p → Type 0)
    → (is_ok err ≡ true → Ensures (k fw) Q)
    → Ensures ((do esp_error_check err; k) fw) Q
Ensures-check_ok err k fw Q h = elim (Bool-cases (is_ok err)) [
  | inl ok ↦ rw ok (h ok)
  | inr bad ↦ rw bad tt
]

-- the same where what follows may abort
pub Returns-bind_Ensures :
    {p : Platform} {A B : Type 0} (o : Outcome p A) (f : A → M p B) (P : A → Firmware p → Type 0)
    (Q : B → Firmware p → Type 0)
    → Returns o P
    → ((a : A) (fw : Firmware p) → P a fw → Ensures (f a fw) Q)
    → Ensures (bind_outcome o f) Q
Returns-bind_Ensures (returned a fw) f P Q h k = k a fw h
Returns-bind_Ensures aborted f P Q h k = tt
Returns-bind_Ensures fault f P Q h k = h

-- what is ensured of a call holds of what it returns
pub Ensures-returned :
    {p : Platform} {A : Type 0} (o : Outcome p A) (a : A) (fw : Firmware p)
    (P : A → Firmware p → Type 0)
    → Ensures o P
    → o ≡ returned a fw
    → P a fw
Ensures-returned {p = p} {A = A} o a fw P h e = subst (λ (x : Outcome p A). Ensures x P) e h

pub Returns-returned :
    {p : Platform} {A : Type 0} (o : Outcome p A) (a : A) (fw : Firmware p)
    (P : A → Firmware p → Type 0)
    → Returns o P
    → o ≡ returned a fw
    → P a fw
Returns-returned {p = p} {A = A} o a fw P h e = subst (λ (x : Outcome p A). Returns x P) e h

-- the statics other than the session and the platform's state are as before
abbrev pub SameStatics : {p : Platform} → Firmware p → Firmware p → Type 0
SameStatics fw fw' = (fw'.s_channel ≡ fw.s_channel) × (fw'.s_rx_queue ≡ fw.s_rx_queue)

-- only the platform's state has changed
abbrev pub OnlyWorld : {p : Platform} → Firmware p → Firmware p → Type 0
OnlyWorld fw fw' = (fw'.session ≡ fw.session) × SameStatics fw fw'
