-- ===== src/Base/Append.antt =====
-- Accesses to a memory that is given as the part before the access and the part from it on.
use mathlib.Core.List.{List, [], ◌∷◌, ◌++◌}
use mathlib.Core.Path.{◌≡◌, refl, ap}
use Prim.Native.Nat.{ℕ, zero, suc, ◌+◌, ◌≤◌}
use native.Mathlib.Omega.{arith}
use ecu_platform.Base.Lists.{length, get_or, set}
use ecu_platform.Base.Memory.{slice, splice}

module _ {ℓ} {A : Type ℓ} where
  pub set-append :
      (xs ys : List A) (k : ℕ) (v : A) → set (xs ++ ys) (length xs + k) v ≡ xs ++ set ys k v
  set-append [] ys k v = let e : 0 + k ≡ k = omega arith in rw e
  set-append (x ∷ xs) ys k v =
      let e : suc (length xs) + k ≡ suc (length xs + k) = omega arith in
      rw (e, set-append xs ys k v)

  pub get_or-append :
      (xs ys : List A) (k : ℕ) (d : A) → get_or (xs ++ ys) (length xs + k) d ≡ get_or ys k d
  get_or-append [] ys k d = let e : 0 + k ≡ k = omega arith in rw e
  get_or-append (x ∷ xs) ys k d =
      let e : suc (length xs) + k ≡ suc (length xs + k) = omega arith in
      rw e (get_or-append xs ys k d)

  pub splice-append :
      (xs ys zs : List A) → length zs ≡ length xs → splice (xs ++ ys) 0 zs ≡ zs ++ ys
  splice-append [] [] [] e = refl
  splice-append [] (y ∷ ys) [] e = refl
  splice-append [] ys (z ∷ zs) e = absurd (omega arith)
  splice-append (x ∷ xs) ys [] e = absurd (omega arith)
  splice-append (x ∷ xs) ys (z ∷ zs) e = ap (◌∷◌ z) (splice-append xs ys zs (omega arith))

  pub slice-append : (xs ys : List A) (n : ℕ) → n ≡ length xs → slice (xs ++ ys) 0 n ≡ xs
  slice-append [] [] n e = refl
  slice-append [] (y ∷ ys) zero e = refl
  slice-append [] (y ∷ ys) (suc n) e = absurd (omega arith)
  slice-append (x ∷ xs) ys zero e = absurd (omega arith)
  slice-append (x ∷ xs) ys (suc n) e = ap (◌∷◌ x) (slice-append xs ys n (omega arith))

  pub slice_all : (xs : List A) → slice xs 0 (length xs) ≡ xs
  slice_all [] = refl
  slice_all (x ∷ xs) = ap (◌∷◌ x) (slice_all xs)

  -- The pieces of a message, put together.
  abbrev pub joined : List (List A) → List A
  joined [] = []
  joined (xs ∷ pieces) = xs ++ joined pieces

  -- A memory is cut in two at any place within it.
  pub cut :
      (m : List A) (n : ℕ)
      → n ≤ length m
      → (xs : List A) × (ys : List A) × (m ≡ xs ++ ys) × (length xs ≡ n)
  cut m zero h = ([], m, refl, refl)
  cut [] (suc n) h = absurd (omega arith)
  cut (x ∷ m) (suc n) h =
      let (xs, ys, e, l) = cut m n (omega arith) in (x ∷ xs, ys, ap (◌∷◌ x) e, ap suc l)
