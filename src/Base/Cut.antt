-- ===== src/Base/Cut.antt =====
-- Lists taken apart at a place, and cut to a length.
use mathlib.Core.List.{List, [], ◌∷◌, ◌++◌}
use mathlib.Core.Path.{◌≡◌, refl, ap}
use Prim.Native.Nat.{ℕ, zero, suc, ◌-◌, ◌≤◌, min}
use native.Mathlib.Omega.{arith}
use ecu_platform.Base.Lists.{length, take, drop, set}
use ecu_platform.Base.Memory.{splice}

module _ {ℓ} {A : Type ℓ} where
  pub take-nil : (n : ℕ) → take {A = A} n [] ≡ []
  take-nil zero = refl
  take-nil (suc n) = refl

  pub length-take : (n : ℕ) (xs : List A) → length (take n xs) ≡ min n (length xs)
  length-take zero xs = omega arith
  length-take (suc n) [] = omega arith
  length-take (suc n) (x ∷ xs) = omega (arith, length-take n xs)

  pub length-drop : (n : ℕ) (xs : List A) → length (drop n xs) ≡ length xs - n
  length-drop zero xs = omega arith
  length-drop (suc n) [] = omega arith
  length-drop (suc n) (x ∷ xs) = omega (arith, length-drop n xs)

  pub take-append : (n : ℕ) (xs ys : List A) → n ≡ length xs → take n (xs ++ ys) ≡ xs
  take-append zero [] ys e = refl
  take-append zero (x ∷ xs) ys e = absurd (omega arith)
  take-append (suc n) [] ys e = absurd (omega arith)
  take-append (suc n) (x ∷ xs) ys e = ap (◌∷◌ x) (take-append n xs ys (omega arith))

  pub set-append_at :
      (n : ℕ) (xs ys : List A) (v : A)
      → n ≡ length xs
      → 1 ≤ length ys
      → set (xs ++ ys) n v ≡ xs ++ (v ∷ drop 1 ys)
  set-append_at zero [] [] v e h = absurd (omega arith)
  set-append_at zero [] (y ∷ ys) v e h = refl
  set-append_at zero (x ∷ xs) ys v e h = absurd (omega arith)
  set-append_at (suc n) [] ys v e h = absurd (omega arith)
  set-append_at (suc n) (x ∷ xs) ys v e h = ap (◌∷◌ x) (set-append_at n xs ys v (omega arith) h)

  -- What is cut off a text in two parts is first cut off the second one.
  pub take-append-take :
      (n : ℕ) (xs ys : List A) → take n (xs ++ ys) ≡ take n xs ++ take (n - length (take n xs)) ys
  take-append-take zero xs ys = refl
  take-append-take (suc n) [] ys = let e : suc n - 0 ≡ suc n = omega arith in rw e
  take-append-take (suc n) (x ∷ xs) ys =
      let e : suc n - suc (length (take n xs)) ≡ n - length (take n xs) = omega arith in
      rw (e, take-append-take n xs ys)

  pub splice-zero :
      (xs ys : List A) → length ys ≤ length xs → splice xs 0 ys ≡ ys ++ drop (length ys) xs
  splice-zero [] [] h = refl
  splice-zero [] (y ∷ ys) h = absurd (omega arith)
  splice-zero (x ∷ xs) [] h = refl
  splice-zero (x ∷ xs) (y ∷ ys) h = ap (◌∷◌ y) (splice-zero xs ys (omega arith))
