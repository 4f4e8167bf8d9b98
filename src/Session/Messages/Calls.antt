-- ===== src/Session/Messages/Calls.antt =====
-- What the calls of components/lakers_ffi/rust/src/lib.rs share: output buffers, the `?` chain, the
-- guards on the arguments, and the refusals.
use espnow_edhoc.Prelude.{
  ℕ, ◌≤◌, ◌≡◌, refl, true, Option, none, some, List, ◌++◌, arith, length, drop, length-append,
  Bool-cases, inl, inr, ltb, ◌||◌, take, ◌⊎◌,
}
use espnow_edhoc.Memory.{read_bytes_within, memcpy_front, pointee, is_null}
use espnow_edhoc.Platform.{Platform}
use espnow_edhoc.Firmware.{Firmware, M, call, ◌>>=◌, checked}
use espnow_edhoc.Firmware.Contracts.{Returns, Returns-bind, SameStatics}
use espnow_edhoc.Session.{
  Status, status_invalid_argument, status_buffer_too_small, okay, error, input_slice, Out,
  copy_output, prepare_output, max_edhoc_message_len,
}
use espnow_edhoc.Session.Protocol.{
  IfSome, Phase, is_refusal, Answers, HasRoom, LengthFits, Readable, refuses,
}
use espnow_edhoc.Session.Messages.{or_fail, ◌>>?◌, with_output, with_message}

-- the buffer after a message is copied into it
abbrev pub written : List ℕ → Out → Out
written bytes out = record out {
  output = some (bytes ++ drop (length bytes) (pointee out.output));
  output_length = some (length bytes);
}

-- A message that the buffer has room for is copied.
pub copy_output_lem :
    (bytes : List ℕ) (out : Out)
    → length bytes ≤ length (pointee out.output)
    → copy_output bytes out ≡ some (written bytes out)
unfolding copy_output
copy_output_lem bytes out room = rw (memcpy_front (pointee out.output) bytes room, copy_output) refl

pub LengthFits-written :
    (bytes : List ℕ) (out : Out)
    → length bytes ≤ 192
    → LengthFits (written bytes out).output (written bytes out).output_length
LengthFits-written bytes out h =
    (h, omega (arith, length-append bytes (drop (length bytes) (pointee out.output))))

pub refused :
    {p : Platform} (from to : Phase) (role : ℕ) (fw : Firmware p) (status : Status) (out : Out)
    → is_refusal status ≡ true
    → Answers from to role fw status out fw
refused from to role fw answer out h = record {
  follows = refuses h refl;
  message = inl (ground arith);
  same = (refl, refl);
}

-- A part of a `?` chain returns, leaves the statics, and `P` holds of what it yields.
abbrev pub Yields : (p : Platform) {A : Type 0} → (A → Type 0) → M p (Option A) → Type 0
Yields p P m = (fw : Firmware p) → Returns (m fw) (λ r fw'. SameStatics fw fw' × IfSome P r)

pub Yields-call :
    {p : Platform} {A : Type 0} (P : A → Type 0) (g : p.World → Option A × p.World)
    → ((w : p.World) → IfSome P (g w).0)
    → Yields p P (call g)
Yields-call P g h fw = ((refl, refl), h fw.world)

pub IfSome-any : {A : Type 0} (o : Option A) → IfSome (λ a. Unit {0}) o
IfSome-any none = tt
IfSome-any (some a) = tt

or_fail_lem :
    {p : Platform} {A B : Type 0} (P : A → Type 0) (R : B → Type 0) (fw fw₁ : Firmware p)
    (f : A → M p (Option B)) (r : Option A)
    → SameStatics fw fw₁
    → IfSome P r
    → ((a : A) → P a → Yields p R (f a))
    → Returns (or_fail f r fw₁) (λ r' fw'. SameStatics fw fw' × IfSome R r')
unfolding or_fail
or_fail_lem P R fw fw₁ f none same h next = (same, tt)
or_fail_lem P R fw fw₁ f (some a) same h next = rw (← same.0, ← same.1) (next a h fw₁)

pub Yields->>? :
    {p : Platform} {A B : Type 0} (P : A → Type 0) (R : B → Type 0) (m : M p (Option A))
    (f : A → M p (Option B))
    → Yields p P m
    → ((a : A) → P a → Yields p R (f a))
    → Yields p R (m >>? f)
unfolding ◌>>?◌
Yields->>? P R m f first next fw =
    Returns-bind (m fw) (or_fail f) (λ r fw₁. SameStatics fw fw₁ × IfSome P r)
      (λ r' fw'. SameStatics fw fw' × IfSome R r') (first fw)
      (λ r fw₁ h. or_fail_lem P R fw fw₁ f r h.0 h.1 next)

-- a link of the chain of which nothing is needed
pub Yields-link :
    {p : Platform} {A B : Type 0} (R : B → Type 0) (g : p.World → Option A × p.World)
    (f : A → M p (Option B))
    → ((a : A) → Yields p R (f a))
    → Yields p R (call g >>? f)
Yields-link R g f next =
    Yields->>? (λ a. Unit {0}) R (call g) f (Yields-call _ g (λ w. IfSome-any (g w).0))
      (λ a _. next a)

-- The guards on the output: the rest runs on the buffer, or the call is refused.
pub with_output_cases :
    {p : Platform} (rest : Out → M p (Status × Out)) (out : Out) (fw : Firmware p)
    (Q : Status × Out → Firmware p → Type 0)
    → HasRoom out
    → ((status : Status) (out' : Out) → is_refusal status ≡ true → Q (status, out') fw)
    → ((out' : Out)
        → out'.output ≡ out.output
        → 192 ≤ length (pointee out'.output)
        → Returns (rest out' fw) Q)
    → Returns (with_output rest (prepare_output out) fw) Q
unfolding with_output prepare_output
with_output_cases rest out fw Q room refusal next =
    elim (Bool-cases (is_null out.output || is_null out.output_length)) [
      | inl null ↦ rw null (refusal status_invalid_argument out refl)
      | inr valid ↦ rw valid (elim (Bool-cases (ltb out.output_capacity max_edhoc_message_len)) [
        | inl small ↦ rw small (refusal status_buffer_too_small _ refl)
        | inr large ↦ rw large (next _ refl (ground arith))
      ])
    ]

pub with_output_lem :
    {p : Platform} (from to : Phase) (role : ℕ) (rest : Out → M p (Status × Out)) (out : Out)
    (fw : Firmware p)
    → HasRoom out
    → ((out' : Out)
        → 192 ≤ length (pointee out'.output)
        → Returns (rest out' fw) (λ a fw'. Answers from to role fw a.0 a.1 fw'))
    → Returns
        (with_output rest (prepare_output out) fw)
        (λ a fw'. Answers from to role fw a.0 a.1 fw')
with_output_lem from to role rest out fw room next =
    with_output_cases rest out fw (λ a fw'. Answers from to role fw a.0 a.1 fw') room
      (λ status out' h. refused from to role fw status out' h) (λ out' same room'. next out' room')

input_slice_lem :
    (input : Option (List ℕ)) (n : ℕ)
    → Readable input n
    → (input_slice input n ≡ some (error status_invalid_argument))
      ⊎ (input_slice input n ≡ some (okay (take n (pointee input))))
unfolding input_slice
input_slice_lem input n h = ground (arith, read_bytes_within (pointee input) n h)

from_slice_lem :
    {p : Platform} {B C : Type 0} (early : Status → B) (new_from_slice : List ℕ → Option C)
    (rest : C → M p B) (slice : List ℕ) (fw : Firmware p) (Q : B → Firmware p → Type 0)
    → Q (early status_invalid_argument) fw
    → ((message : C) → new_from_slice slice ≡ some message → Returns (rest message fw) Q)
    → (o : Option C) → new_from_slice slice ≡ o
    → Returns (with_message early new_from_slice rest (okay slice) fw) Q
unfolding with_message
from_slice_lem early new_from_slice rest slice fw Q bad good none e = rw (e, with_message) bad
from_slice_lem early new_from_slice rest slice fw Q bad good (some message) e =
    rw (e, with_message) (good message e)

-- The guards on the input: the rest runs on the message, or nothing happens.
pub with_message_lem :
    {p : Platform} {B C : Type 0} (early : Status → B) (new_from_slice : List ℕ → Option C)
    (rest : C → M p B) (input : Option (List ℕ)) (n : ℕ) (fw : Firmware p)
    (Q : B → Firmware p → Type 0)
    → Readable input n
    → Q (early status_invalid_argument) fw
    → ((message : C)
        → new_from_slice (take n (pointee input)) ≡ some message
        → Returns (rest message fw) Q)
    → Returns
        ((do slice ← checked (input_slice input n); with_message early new_from_slice rest slice)
          fw)
        Q
unfolding with_message
with_message_lem early new_from_slice rest input n fw Q readable bad good =
    elim (input_slice_lem input n readable) [
      | inl e ↦ rw e bad
      | inr e ↦
          rw e
            (from_slice_lem early new_from_slice rest (take n (pointee input)) fw Q bad good _ refl)
    ]
