-- ===== src/Memory.antt =====
-- The C memory operations that the firmware calls on byte arrays (`memcpy`, `memset`, `memcmp`).
-- An array is a list of its bytes; `none` is an access outside an array.
use Prim.Native.Nat.add
use mathlib.Core.List.{append-nil}
use espnow_edhoc.Prelude.{
  take-all, le→leb, ℕ, ◌+◌, ◌-◌, ◌≤◌, ◌≡◌, refl, ◌∙◌, Bool, ◌&&◌, Option, none, some, List, ◌++◌,
  arith, [], true, false, leb, if◌then◌else◌, length, take, drop, replicate, take-append,
  drop-append_add, length-append, length-take, length-drop, length-replicate, drop-replicate,
  same_bytes,
}

-- an array of `n` zero bytes: `uint8_t a[n] = {0}` and `memset(a, 0, n)`
unfoldable pub zeros : ℕ → List ℕ
zeros n = replicate n 0

pub length-zeros : (n : ℕ) → length (zeros n) ≡ n
unfolding zeros
length-zeros n = length-replicate n 0

pub zeros-nil : zeros 0 ≡ []
unfolding zeros
zeros-nil = refl

pub drop-zeros : (n m : ℕ) → drop n (zeros m) ≡ zeros (m - n)
unfolding zeros
drop-zeros n m = drop-replicate n m 0

-- `memcpy(dst + off, src, n)`
unfoldable pub memcpy : List ℕ → ℕ → List ℕ → ℕ → Option (List ℕ)
memcpy dst off src n =
    if leb (off + n) (length dst) && leb n (length src)
    then some (take off dst ++ (take n src ++ drop (off + n) dst))
    else none

-- `memcmp(a, b, n) == 0`
unfoldable pub memcmp_eq : List ℕ → List ℕ → ℕ → Option Bool
memcmp_eq a b n =
    if leb n (length a) && leb n (length b) then some (same_bytes (take n a) (take n b)) else none

-- Inside the bounds of both arrays a copy succeeds.
pub memcpy_within :
    (dst : List ℕ) (off : ℕ) (src : List ℕ) (n : ℕ)
    → off + n ≤ length dst
    → n ≤ length src
    → memcpy dst off src n ≡ some (take off dst ++ (take n src ++ drop (off + n) dst))
unfolding memcpy
memcpy_within dst off src n h k = ground arith

-- A copy of a whole array to the front of another.
pub memcpy_front :
    (dst src : List ℕ)
    → length src ≤ length dst
    → memcpy dst 0 src (length src) ≡ some (src ++ drop (length src) dst)
memcpy_front dst src h =
    memcpy_within dst 0 src (length src) (omega arith) (omega arith)
    ∙ rw (take-all (length src) src (omega arith), add.zero) refl

-- A copy behind what has been written to a zeroed array.
pub memcpy_append :
    (pre src : List ℕ) (off m n : ℕ)
    → length pre ≡ off
    → n ≤ m
    → n ≤ length src
    → memcpy (pre ++ zeros m) off src n ≡ some (pre ++ (take n src ++ zeros (m - n)))
memcpy_append pre src off m n e h k = rw (← e) (
    memcpy_within (pre ++ zeros m) (length pre) src n
      (omega (arith, length-append pre (zeros m), length-zeros m)) k
    ∙ rw (take-append pre (zeros m), drop-append_add pre (zeros m) n, drop-zeros n m) refl)

-- A copy to the front of a zeroed array.
pub memcpy-zeros :
    (src : List ℕ) (m n : ℕ)
    → n ≤ m
    → n ≤ length src
    → memcpy (zeros m) 0 src n ≡ some (take n src ++ zeros (m - n))
memcpy-zeros src m n h k = memcpy_append [] src 0 m n refl h k

-- A copy that fills a zeroed array.
pub memcpy_whole : (src : List ℕ) (n : ℕ) → length src ≡ n → memcpy (zeros n) 0 src n ≡ some src
unfolding zeros
memcpy_whole src n e =
    let none_left : n - n ≡ 0 = omega arith in
    memcpy-zeros src n n (omega arith) (omega arith)
    ∙ rw (none_left, take-all n src (omega arith), append-nil) refl

-- A copy leaves the length of its target.
pub length-memcpy :
    (dst : List ℕ) (off : ℕ) (src : List ℕ) (n : ℕ) {r : List ℕ}
    → memcpy dst off src n ≡ some r
    → length r ≡ length dst
unfolding memcpy
length-memcpy dst off src n h = ground (
  arith,
  length-append (take off dst) (take n src ++ drop (off + n) dst),
  length-append (take n src) (drop (off + n) dst),
  length-take off dst,
  length-take n src,
  length-drop (off + n) dst,
)

-- the `n` bytes at a pointer
unfoldable pub read_bytes : List ℕ → ℕ → Option (List ℕ)
read_bytes src n = if leb n (length src) then some (take n src) else none

abbrev pub is_null {ℓ} : {A : Type ℓ} → Option A → Bool
is_null none = true
is_null (some a) = false

-- what a pointer points to; behind NULL no byte can be read
abbrev pub pointee : Option (List ℕ) → List ℕ
pointee none = []
pointee (some a) = a

-- A read of the first part of an array.
pub read_bytes_append : (xs ys : List ℕ) (n : ℕ) → length xs ≡ n → read_bytes (xs ++ ys) n ≡ some xs
unfolding read_bytes
read_bytes_append xs ys n e = rw (← e) (
    rw
      (
        le→leb (length xs) (length (xs ++ ys)) (omega (arith, length-append xs ys)),
        take-append xs ys,
      )
      refl)

-- The first `n` bytes of an array that has them.
pub read_bytes_within :
    (src : List ℕ) (n : ℕ) → n ≤ length src → read_bytes src n ≡ some (take n src)
unfolding read_bytes
read_bytes_within src n h = rw (le→leb n (length src) h) refl
