-- ===== src/Base/Memory.antt =====
-- Byte memory behind a pointer, and what an access out of its bounds does.
use Prim.Native.Nat.{ℕ, zero, suc, ◌+◌, ◌^◌, ◌≤◌, ◌<◌}
use mathlib.Core.Path.{◌≡◌, refl, ap}
use mathlib.Core.List.{List, [], ◌∷◌}
use mathlib.Core.Option.{none, some}
use native.Mathlib.Decide.{ℕ_discrete}
use native.Mathlib.Omega.{arith}
use ecu_platform.Base.Tests.{ltb, leb, ◌==◌, if◌then◌else◌}
use ecu_platform.Base.Lists.{
  length, get_elem?, get_or, set, get_elem?-eq-get_or, get_or-set_self, get_or-set_ne,
}

-- A byte is any number where it is only moved; the arithmetic states its own ranges.
abbrev pub Bytes : Type 0
Bytes = List ℕ

-- Where a theorem needs the range of a `uint8_t`.
abbrev pub IsBytes : Bytes → Type 0
IsBytes [] = Unit {0}
IsBytes (b ∷ bs) = (b < 2 ^ 8) × IsBytes bs

-- A run of C code: it returns, or it has accessed memory out of bounds.
pub data Exec {ℓ} (A : Type ℓ) : Type ℓ where
  fault : Exec A
  done : A → Exec A

infixl 5 ◌>>=◌
abbrev pub ◌>>=◌ {ℓ κ} : {A : Type ℓ} {B : Type κ} → Exec A → (A → Exec B) → Exec B
fault >>= f = fault
done a >>= f = f a

module _ {ℓ} {A : Type ℓ} where
  -- The `n` entries from index `o` on.
  abbrev pub slice : List A → ℕ → ℕ → List A
  slice [] o n = []
  slice (x ∷ xs) zero zero = []
  slice (x ∷ xs) zero (suc n) = x ∷ slice xs zero n
  slice (x ∷ xs) (suc o) n = slice xs o n

  -- The list with the entries from index `o` on overwritten.
  abbrev pub splice : List A → ℕ → List A → List A
  splice [] o ys = []
  splice (x ∷ xs) zero [] = x ∷ xs
  splice (x ∷ xs) zero (y ∷ ys) = y ∷ splice xs zero ys
  splice (x ∷ xs) (suc o) ys = x ∷ splice xs o ys

  pub length-splice : (xs : List A) (o : ℕ) (ys : List A) → length (splice xs o ys) ≡ length xs
  length-splice [] o ys = refl
  length-splice (x ∷ xs) zero [] = refl
  length-splice (x ∷ xs) zero (y ∷ ys) = ap suc (length-splice xs zero ys)
  length-splice (x ∷ xs) (suc o) ys = ap suc (length-splice xs o ys)

  pub length-slice : (xs : List A) (o n : ℕ) → o + n ≤ length xs → length (slice xs o n) ≡ n
  length-slice [] o n h = omega arith
  length-slice (x ∷ xs) zero zero h = refl
  length-slice (x ∷ xs) zero (suc n) h = ap suc (length-slice xs zero n (omega arith))
  length-slice (x ∷ xs) (suc o) n h = length-slice xs o n (omega arith)

  -- What was written is read back.
  pub slice-splice_self :
      (xs : List A) (o n : ℕ) (ys : List A)
      → n ≡ length ys
      → o + n ≤ length xs
      → slice (splice xs o ys) o n ≡ ys
  slice-splice_self [] o n [] e h = refl
  slice-splice_self [] o n (y ∷ ys) e h = absurd (omega arith)
  slice-splice_self (x ∷ xs) zero zero [] e h = refl
  slice-splice_self (x ∷ xs) zero zero (y ∷ ys) e h = absurd (omega arith)
  slice-splice_self (x ∷ xs) zero (suc n) [] e h = absurd (omega arith)
  slice-splice_self (x ∷ xs) zero (suc n) (y ∷ ys) e h =
      ap (◌∷◌ y) (slice-splice_self xs zero n ys (omega arith) (omega arith))
  slice-splice_self (x ∷ xs) (suc o) n ys e h = slice-splice_self xs o n ys e (omega arith)

  -- A write leaves what stands before it alone,
  pub slice-splice_before :
      (xs : List A) (p o n : ℕ) (ys : List A)
      → o + n ≤ p
      → slice (splice xs p ys) o n ≡ slice xs o n
  slice-splice_before [] p o n ys h = refl
  slice-splice_before (x ∷ xs) zero zero zero [] h = refl
  slice-splice_before (x ∷ xs) zero zero zero (y ∷ ys) h = refl
  slice-splice_before (x ∷ xs) zero zero (suc n) ys h = absurd (omega arith)
  slice-splice_before (x ∷ xs) zero (suc o) n ys h = absurd (omega arith)
  slice-splice_before (x ∷ xs) (suc p) zero zero ys h = refl
  slice-splice_before (x ∷ xs) (suc p) zero (suc n) ys h =
      ap (◌∷◌ x) (slice-splice_before xs p zero n ys (omega arith))
  slice-splice_before (x ∷ xs) (suc p) (suc o) n ys h =
      slice-splice_before xs p o n ys (omega arith)

  -- and what stands behind it.
  pub slice-splice_after :
      (xs : List A) (p o n : ℕ) (ys : List A)
      → p + length ys ≤ o
      → slice (splice xs p ys) o n ≡ slice xs o n
  slice-splice_after [] p o n ys h = refl
  slice-splice_after (x ∷ xs) zero o n [] h = refl
  slice-splice_after (x ∷ xs) zero zero n (y ∷ ys) h = absurd (omega arith)
  slice-splice_after (x ∷ xs) zero (suc o) n (y ∷ ys) h =
      slice-splice_after xs zero o n ys (omega arith)
  slice-splice_after (x ∷ xs) (suc p) zero n ys h = absurd (omega arith)
  slice-splice_after (x ∷ xs) (suc p) (suc o) n ys h = slice-splice_after xs p o n ys (omega arith)

-- `p[i]` for a read.
unfoldable pub read_at : Bytes → ℕ → Exec ℕ
read_at m i = elim (get_elem? m i) [ none ↦ fault | some b ↦ done b ]

-- `p[i] = b`.
unfoldable pub write_at : Bytes → ℕ → ℕ → Exec Bytes
write_at m i b = if ltb i (length m) then done (set m i b) else fault

-- The source half of `memcpy(_, p + o, n)`.
unfoldable pub read_bytes : Bytes → ℕ → ℕ → Exec Bytes
read_bytes m o n = if leb (o + n) (length m) then done (slice m o n) else fault

-- The destination half of `memcpy(p + o, _, n)`.
unfoldable pub write_bytes : Bytes → ℕ → Bytes → Exec Bytes
write_bytes m o bs = if leb (o + length bs) (length m) then done (splice m o bs) else fault

pub read_bytes_done :
    (m : Bytes) (o n : ℕ) → o + n ≤ length m → read_bytes m o n ≡ done (slice m o n)
unfolding read_bytes
read_bytes_done m o n h = ground arith

pub write_bytes_done :
    (m : Bytes) (o : ℕ) (bs : Bytes)
    → o + length bs ≤ length m
    → write_bytes m o bs ≡ done (splice m o bs)
unfolding write_bytes
write_bytes_done m o bs h = ground arith

pub read_at_done : (m : Bytes) (i : ℕ) → i < length m → read_at m i ≡ done (get_or m i 0)
unfolding read_at
read_at_done m i h = ground (arith, get_elem?-eq-get_or m i 0)

pub write_at_done : (m : Bytes) (i b : ℕ) → i < length m → write_at m i b ≡ done (set m i b)
unfolding write_at
write_at_done m i b h = ground arith

-- An array after a write, read anywhere.
pub get_or-set {ℓ} :
    {A : Type ℓ} (xs : List A) (i j : ℕ) (v d : A)
    → i < length xs
    → get_or (set xs i v) j d ≡ (if i == j then v else get_or xs j d)
get_or-set xs i j v d h = elim (ℕ_discrete i j) [
  | yes e ↦ rw (← e) (ground (arith, get_or-set_self xs i v d h))
  | no ne ↦ ground (arith, get_or-set_ne xs i j v d ne)
]
