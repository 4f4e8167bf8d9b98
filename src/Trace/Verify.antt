-- ===== src/Trace/Verify.antt =====
-- edhoc_trace_verify_message of main/edhoc_trace_vectors.c.
use espnow_edhoc.Prelude.{
  ℕ, ◌≤◌, ◌≡◌, refl, sym, ◌∙◌, Bool, true, false, ◌↔◌, inl, inr, Bool-cases, Option, none, some,
  List, arith, length, take, take-all, ◌==◌, ==_iff, le→leb, same_bytes, same_bytes_eq,
  same_bytes_refl,
}
use espnow_edhoc.Memory.{memcmp_eq}
use espnow_edhoc.Wire.{MsgType, m1, m2, m3, ack, key_test, key_test_ack}
use espnow_edhoc.Trace.{
  rfc9529_s3_message_1, rfc9529_s3_message_2, rfc9529_s3_message_3, milestone4_done_ack, trace_of,
  edhoc_trace_get_message, verify_bytes, edhoc_trace_verify_message,
}

-- the vector of a type
abbrev pub Matches : MsgType → List ℕ → ℕ → Type 0
Matches type bytes len =
    (v : List ℕ) × ((trace_of type).0 ≡ some v) × (len ≡ length v) × (take len bytes ≡ v)

some_injective : (v w : List ℕ) → ◌≡◌ {A = Option (List ℕ)} (some v) (some w) → v ≡ w
some_injective v w e = cc

none_not : {v : List ℕ} → ¬ (◌≡◌ {A = Option (List ℕ)} none (some v))
none_not e = cc

verify_vector :
    (bytes v : List ℕ) (len : ℕ)
    → len ≤ length bytes
    → (b : Bool) × (verify_bytes bytes len (true, some (some v), some (length v)) ≡ some b)
      × ((b ≡ true) ↔ ((len ≡ length v) × (take len bytes ≡ v)))
unfolding verify_bytes memcmp_eq
verify_vector bytes v len h = elim (Bool-cases (len == length v)) [
  | inr other ↦ (false, rw other refl, ((λ e. cc), λ t. sym other ∙ (==_iff _ _).1 t.0))
  | inl same ↦
      let e : len ≡ length v = (==_iff _ _).0 same in
      (
        same_bytes (take (length v) bytes) v,
        rw
            (
              same,
              le→leb (length v) (length bytes) (omega arith),
              le→leb (length v) (length v) (omega arith),
              take-all (length v) v (omega arith),
            )
            refl,
        ((λ t. (e, rw e (same_bytes_eq _ _ t))), (λ t. rw (← e, t.1) (same_bytes_refl v))),
      )
]

vector_case :
    (type : MsgType) (bytes v : List ℕ) (len : ℕ)
    → (trace_of type).0 ≡ some v
    → len ≤ length bytes
    → (b : Bool) × (verify_bytes bytes len (true, some (some v), some (length v)) ≡ some b)
      × ((b ≡ true) ↔ Matches type bytes len)
vector_case type bytes v len is_v h =
    let r = verify_vector bytes v len h in
    (
      r.0,
      r.1,
      (
        (λ t. (v, is_v, (r.2.0 t).0, (r.2.0 t).1)),
        (λ t.
            let same : v ≡ t.0 = some_injective v t.0 (sym is_v ∙ t.1) in
            r.2.1 (rw same t.2, rw same t.3)),
      ),
    )

-- For a length inside the buffer the comparison reads inside its arrays, and passes exactly if the
-- type has a vector, the length is that of the vector and the bytes are its bytes.
pub trace_verify_lem :
    (type : MsgType) (bytes : List ℕ) (len : ℕ)
    → len ≤ length bytes
    → (b : Bool) × (edhoc_trace_verify_message type (some bytes) len ≡ some b)
      × ((b ≡ true) ↔ Matches type bytes len)
unfolding edhoc_trace_verify_message edhoc_trace_get_message trace_of
trace_verify_lem m1 bytes len h = vector_case m1 bytes rfc9529_s3_message_1 len refl h
trace_verify_lem m2 bytes len h = vector_case m2 bytes rfc9529_s3_message_2 len refl h
trace_verify_lem m3 bytes len h = vector_case m3 bytes rfc9529_s3_message_3 len refl h
trace_verify_lem ack bytes len h = vector_case ack bytes milestone4_done_ack len refl h
trace_verify_lem key_test bytes len h = (false, refl, ((λ e. cc), λ t. absurd (none_not t.1)))
trace_verify_lem key_test_ack bytes len h = (false, refl, ((λ e. cc), λ t. absurd (none_not t.1)))
