-- ===== src/BitUtils/Array.antt =====
-- A word that the functions of src/bitUtils.c update in place, as an array of binary digits.
use native.Mathlib.Decide.{dec_lt}
use ecu_platform.Base.{
  ℕ, ◌+◌, ◌-◌, ◌^◌, ◌<◌, ◌≡◌, refl, ap, arith, Bool, false, Option, some, List, [], ◌∷◌, ltb, leb,
  ◌==◌, ◌&&◌, if◌then◌else◌, Bool-cases, inl, inr, ◌∙◌, sym, ◌||◌, ◌≢◌,
}
use ecu_platform.Bits.{digit}
use ecu_platform.BitUtils.{
  BitUtilsStatus, success, error_invalid_start_bit, error_invalid_num_bits, error_invalid_value,
  insert_bits, extract_bits,
}
use ecu_platform.BitUtils.Digits.{
  StoresDigits, set_bit-StoresDigits, clear_bit-StoresDigits, toggle_bit-StoresDigits,
}
use ecu_platform.BitUtils.Fields.{insert_bits-StoresDigits, extract_bits-StoresDigits}
use ecu_platform.BitUtils.Laws.{position_refused, insert_bits_status}
use ecu_platform.BitUtils.Words.{Update, set, clear, toggle, extract, insert, update, updates}

-- A field of `n` bits from bit `s` on inside the word.
abbrev pub in_word : ℕ → ℕ → Bool
in_word s n = leb 1 n && leb (s + n) 32

-- The array after a call, digit by digit; arguments that the call refuses change nothing.
abbrev pub change : Update → (ℕ → ℕ) → ℕ → ℕ
change (set p) d i = if ltb p 32 && (i == p) then 1 else d i
change (clear p) d i = if ltb p 32 && (i == p) then 0 else d i
change (toggle p) d i = if ltb p 32 && (i == p) then 1 - d i else d i
change (extract s n) d i = if in_word s n then (if ltb i n then d (i + s) else 0) else d i
change (insert bits s n) d i =
    if in_word s n && ltb bits (2 ^ n) && (leb s i && ltb i (s + n))
    then digit bits (i - s)
    else d i

abbrev pub changes : List Update → (ℕ → ℕ) → ℕ → ℕ
changes [] d = d
changes (u ∷ us) d = changes us (change u d)

-- What is behind the pointer is a 32-bit word with these digits.
pub record Holds (d : ℕ → ℕ) (o : Option ℕ) : Type 0 where
  pub word : ℕ
  pub holds : o ≡ some word
  pub fits : word < 2 ^ 32
  pub digits : (i : ℕ) → digit word i ≡ d i

accepted :
    {f d : ℕ → ℕ} {out : BitUtilsStatus × Option ℕ}
    → StoresDigits f out
    → ((i : ℕ) → f i ≡ d i)
    → Holds d out.1
accepted s h = record {
  word = s.word;
  holds = ap (λ r. r.1) s.stores;
  fits = s.fits;
  digits = λ i. s.digits i ∙ h i;
}

refused :
    {d : ℕ → ℕ} {o : Option ℕ} (n : ℕ)
    → n < 2 ^ 32
    → o ≡ some n
    → ((i : ℕ) → digit n i ≡ d i)
    → Holds d o
refused n h e f = record { word = n; holds = e; fits = h; digits = f }

module _ (n : ℕ) (h : n < 2 ^ 32) where
  set_holds : (p : ℕ) → Holds (change (set p) (digit n)) (update (set p) n).1
  unfolding update
  set_holds p = elim (dec_lt p 32) [
    | yes k ↦ accepted (set_bit-StoresDigits n p n h k) (λ i. ground arith)
    | no k ↦
        refused n h (ap (λ r. r.1) (position_refused n p n false (omega arith)).0)
          (λ i. ground arith)
  ]

  clear_holds : (p : ℕ) → Holds (change (clear p) (digit n)) (update (clear p) n).1
  unfolding update
  clear_holds p = elim (dec_lt p 32) [
    | yes k ↦ accepted (clear_bit-StoresDigits n p n h k) (λ i. ground arith)
    | no k ↦
        refused n h (ap (λ r. r.1) (position_refused n p n false (omega arith)).1)
          (λ i. ground arith)
  ]

  toggle_holds : (p : ℕ) → Holds (change (toggle p) (digit n)) (update (toggle p) n).1
  unfolding update
  toggle_holds p = elim (dec_lt p 32) [
    | yes k ↦ accepted (toggle_bit-StoresDigits n p n h k) (λ i. ground arith)
    | no k ↦
        refused n h (ap (λ r. r.1) (position_refused n p n false (omega arith)).2)
          (λ i. ground arith)
  ]

  extract_refused : (s k : ℕ) → in_word s k ≡ false → (extract_bits n s k (some n)).1 ≡ some n
  unfolding extract_bits
  extract_refused s k e = ground arith

  extract_holds : (s k : ℕ) → Holds (change (extract s k) (digit n)) (update (extract s k) n).1
  unfolding update
  extract_holds s k = elim (Bool-cases (in_word s k)) [
    | inl e ↦
        accepted (extract_bits-StoresDigits n s k n h (ground arith) (ground arith) (ground arith))
          (λ i. ground arith)
    | inr e ↦ refused n h (extract_refused s k e) (λ i. ground arith)
  ]

  insert_refused :
      (bits s k : ℕ)
      → (in_word s k && ltb bits (2 ^ k)) ≡ false
      → (insert_bits n bits s k (some n)).1 ≡ some n
  insert_refused bits s k e =
      let (status, unchanged) = insert_bits_status n bits s k n in
      elim unchanged [ inl ok ↦ absurd (failed (sym status ∙ ok)) | inr same ↦ same ]
    where
      failed :
          (if leb 32 s
            then error_invalid_start_bit
            else if k == 0 || ltb 32 (s + k)
            then error_invalid_num_bits
            else if leb (2 ^ k) bits
            then error_invalid_value
            else success)
          ≢ success
      failed q = ground arith

  insert_holds :
      (bits s k : ℕ) → Holds (change (insert bits s k) (digit n)) (update (insert bits s k) n).1
  unfolding update
  insert_holds bits s k = elim (Bool-cases (in_word s k && ltb bits (2 ^ k))) [
    | inl e ↦
        accepted
          (insert_bits-StoresDigits n s k n h (ground arith) (ground arith) (ground arith) bits
            (ground arith))
          (λ i. ground arith)
    | inr e ↦ refused n h (insert_refused bits s k e) (λ i. ground arith)
  ]

change_cong :
    (u : Update) (d e : ℕ → ℕ) → ((i : ℕ) → d i ≡ e i) → (i : ℕ) → change u d i ≡ change u e i
change_cong (set p) d e h i = ground (arith, h i)
change_cong (clear p) d e h i = ground (arith, h i)
change_cong (toggle p) d e h i = ground (arith, h i)
change_cong (extract s n) d e h i = ground (arith, h i, h (i + s))
change_cong (insert bits s n) d e h i = ground (arith, h i)

update_holds : (u : Update) (n : ℕ) → n < 2 ^ 32 → Holds (change u (digit n)) (update u n).1
update_holds (set p) n h = set_holds n h p
update_holds (clear p) n h = clear_holds n h p
update_holds (toggle p) n h = toggle_holds n h p
update_holds (extract s k) n h = extract_holds n h s k
update_holds (insert bits s k) n h = insert_holds n h bits s k

from_held :
    (us : List Update) (d : ℕ → ℕ) (o : Option ℕ) → Holds d o → Holds (changes us d) (updates us o)
unfolding updates
from_held [] d o h = h
from_held (u ∷ us) d o h =
    let step = update_holds u h.word h.fits in
    let ih = from_held us (change u d) (update u h.word).1 (record {
      word = step.word;
      holds = step.holds;
      fits = step.fits;
      digits = λ i. step.digits i ∙ change_cong u (digit h.word) d h.digits i;
    }) in
    rw h.holds ih

-- From a 32-bit word, any sequence of calls that set, clear or toggle a bit, extract a field or
-- insert one, each storing its result over the word, with any arguments, leaves a 32-bit word, and
-- its binary digits are those of an array of digits on which the same changes are made one by one,
-- a call with a position, a field or bits out of range changing nothing.
pub updates-Holds :
    (us : List Update) (n : ℕ) → n < 2 ^ 32 → Holds (changes us (digit n)) (updates us (some n))
updates-Holds us n h =
    from_held us (digit n) (some n)
      (record { word = n; holds = refl; fits = h; digits = λ i. refl })
