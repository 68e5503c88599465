-- ===== src/Base/Loop.antt =====
-- `for (i = 0; i < len; i++) acc = f(acc, data[i]);`, the loop of both checksum modules.
use mathlib.Core.List.{[], ◌∷◌, ◌++◌}
use mathlib.Core.Path.{◌≡◌, refl}
use Prim.Native.Nat.{ℕ, zero, suc, ◌+◌, ◌≤◌}
use native.Mathlib.Omega.{arith}
use ecu_platform.Base.Lists.{length, get_or}
use ecu_platform.Base.Memory.{Bytes, Exec, done, ◌>>=◌, read_at, read_at_done, slice}

module _ {ℓ} {A : Type ℓ} (f : A → ℕ → A) where
  -- The loop at index `i`, with `left` rounds to go.
  unfoldable pub fold_bytes : ℕ → ℕ → Bytes → A → Exec A
  fold_bytes zero i m acc = done acc
  fold_bytes (suc left) i m acc = read_at m i >>= λ b. fold_bytes left (i + 1) m (f acc b)

  abbrev pub fold : A → Bytes → A
  fold acc [] = acc
  fold acc (b ∷ bs) = fold (f acc b) bs

  pub fold-append : (acc : A) (xs ys : Bytes) → fold acc (xs ++ ys) ≡ fold (fold acc xs) ys
  fold-append acc [] ys = refl
  fold-append acc (x ∷ xs) ys = fold-append (f acc x) xs ys

slice-zero : (m : Bytes) (i : ℕ) → slice m i 0 ≡ []
slice-zero [] i = refl
slice-zero (x ∷ m) zero = refl
slice-zero (x ∷ m) (suc i) = slice-zero m i

slice-suc :
    (m : Bytes) (i n : ℕ) → suc i ≤ length m → slice m i (suc n) ≡ get_or m i 0 ∷ slice m (i + 1) n
slice-suc [] i n h = absurd (omega arith)
slice-suc (x ∷ m) zero n h = refl
slice-suc (x ∷ m) (suc i) n h =
    let e : suc i + 1 ≡ suc (i + 1) = omega arith in rw e (slice-suc m i n (omega arith))

module _ {ℓ} {A : Type ℓ} (f : A → ℕ → A) where
  -- With its range inside the memory the loop returns, and has folded exactly that range.
  pub fold_bytes-eq :
      (left i : ℕ) (m : Bytes) (acc : A)
      → i + left ≤ length m
      → fold_bytes f left i m acc ≡ done (fold f acc (slice m i left))
  unfolding fold_bytes
  fold_bytes-eq zero i m acc h = rw slice-zero
  fold_bytes-eq (suc left) i m acc h = ground (
    arith,
    read_at_done m i,
    slice-suc m i left,
    fold_bytes-eq left (i + 1) m (f acc (get_or m i 0)),
  )
