-- ===== src/SwTimer/Countdown.antt =====
-- What the tick of src/swTimer.c makes of a slot that runs, as what the scan is to do there.
use mathlib.Core.Path.{subst}
use ecu_platform.Base.{
  ℕ, ◌-◌, ◌≤◌, ◌<◌, ◌≡◌, ◌≢◌, ◌⊎◌, refl, ap, ap₂, sym, ltb, List, set, get_or, Bool, true, false,
  arith, Bool-cases, inl, inr,
}
use ecu_platform.SwTimer.{
  TimerControlBlock, SoftwareTimerMode, SoftwareTimerState, one_shot, periodic, other_mode, running,
  blank, is_running,
}
use ecu_platform.SwTimer.Tick.{is_periodic, counted_down, expired}
use ecu_platform.SwTimer.Moves.{with_ticks, running_eq}
use ecu_platform.SwTimer.Sweep.{Expires, reloads, lapses, Visit, counts}

mode-cases : (m : SoftwareTimerMode) → (m ≡ periodic) ⊎ (m ≢ periodic)
mode-cases one_shot = inr (λ e. absurd cc)
mode-cases periodic = inl refl
mode-cases (other_mode n) = inr (λ e. absurd cc)

pub not_running : (x : SoftwareTimerState) → is_running x ≡ false → x ≢ running
not_running x r e = absurd cc

not_periodic : (m : SoftwareTimerMode) → m ≢ periodic → is_periodic m ≡ false
not_periodic one_shot n = refl
not_periodic periodic n = absurd (n refl)
not_periodic (other_mode k) n = refl

-- What the code makes of a slot that runs.
module _ (s : TimerControlBlock) (r : is_running s.state ≡ true) where
  one_less : 0 < s.remaining → counted_down s ≡ with_ticks s running (s.remaining - 1)
  one_less h =
      let more : ltb 0 s.remaining ≡ true = ground arith in
      rw more (ap (λ x. with_ticks s x (s.remaining - 1)) (running_eq s.state r))

  none_left : s.remaining ≤ 1 → counted_down s ≡ with_ticks s running 0
  none_left h = elim (Bool-cases (ltb 0 s.remaining)) [
    | inl p ↦ rw p (ap₂ (with_ticks s) (running_eq s.state r) (omega arith))
    | inr p ↦ rw p (ap₂ (with_ticks s) (running_eq s.state r) (ground arith))
  ]

  last_tick : (counted_down s).remaining ≡ 0 → s.remaining ≤ 1
  last_tick z = ground arith

  pub expired-Expires : (counted_down s).remaining ≡ 0 → Expires s (expired (counted_down s))
  expired-Expires z =
      let short = last_tick z in
      rw (none_left short) (elim (mode-cases s.mode) [
        | inl m ↦ rw (ap is_periodic m) (reloads (running_eq s.state r) short m)
        | inr m ↦ rw (not_periodic s.mode m) (lapses (running_eq s.state r) short m)
      ])

  pub counted_down-callback : (counted_down s).callback ≡ s.callback
  counted_down-callback = elim (Bool-cases (ltb 0 s.remaining)) [
    | inl p ↦ rw p refl
    | inr p ↦ rw p refl
  ]

pub counted-Visit :
    (free : Bool) (i : ℕ) (slots : List TimerControlBlock)
    → is_running (get_or slots i blank).state ≡ true
    → (counted_down (get_or slots i blank)).remaining ≢ 0
    → Visit free i slots (set slots i (counted_down (get_or slots i blank)))
counted-Visit free i slots r h =
    let s = get_or slots i blank in
    subst (λ t. Visit free i slots (set slots i t)) (sym (one_less s r (ground arith)))
      (counts (running_eq s.state r) (ground arith))
