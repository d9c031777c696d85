-- ===== src/MixM/Memcheck/Negative.antt =====
-- A target that is set below the usage makes the loop of the variant ask for a negative count.
use native.Mathlib.Nat.{div-lt_iff_lt-mul}
use ambix.Base.{
  ℕ, ◌+◌, ◌-◌, ◌*◌, ◌/◌, ◌^◌, ◌≤◌, ◌<◌, ◌≡◌, refl, true, false, ◌&&◌, ℤ, negsuc, ltb, arith,
  Bool-cases, inl, inr,
}
use ambix.Config.{int_min, nvram_mode}
use ambix.Controller.Migration.{to_int}
use ambix.Controller.Commands.{int_of_long}
use ambix.Controller.Memcheck.{Floats, Sys, pages_of}
use ambix.Controller.Memcheck.Round.{locked_find}
use ambix.MixM.Memcheck.{Thresholds, MmUsage, mm_target_value, adm_target, adm_limit, thresh_step}

pages_of-negative :
    (fl : Floats) (page_size : ℕ) (x : fl.Float) (m : ℕ)
    → 0 < page_size
    → fl.truncate x ≡ negsuc m
    → page_size ≤ m + 1
    → m + 1 < 2 ^ 31 * page_size
    → (c : ℕ) × (pages_of fl page_size x ≡ negsuc c)
unfolding pages_of to_int int_of_long int_min
pages_of-negative fl page_size x m paged e least most =
    let q = (m + 1) / page_size in
    let below : q < 2 ^ 31 = (div-lt_iff_lt-mul paged).1 (omega (arith, most)) in
    let above : 1 ≤ q = elim (Bool-cases (ltb q 1)) [
      | inl none ↦
          let q_few : q < 1 = ground (arith, none) in
          let few : m + 1 < 1 * page_size = (div-lt_iff_lt-mul paged).0 q_few in
          absurd (omega (arith, few, least))
      | inr some_left ↦ ground (arith, some_left)
    ] in
    (q - 1, rw e (ground (arith, below, above)))

module _ (fl : Floats) (sys : Sys fl) (send_find : sys.World → ℤ → ℤ → ℤ × sys.World)
    (thresholds : sys.World → Thresholds fl.Float) (page_size : ℕ) where
  -- The test compares the usage with the constant `MM_TARGET`, and the count is computed from the
  -- variable `mm_target`. So with `thresh_act` alone, ADM above its limit and its target, and a usage
  -- below `MM_TARGET` from which `mm_target` falls short by a page or more, the loop sends a FIND with a
  -- negative count.
  pub low_target-negative :
      (u : MmUsage fl.Float) (w : sys.World) (m : ℕ)
      → 0 < page_size
      → sys.thresh_act w ≡ true
      → sys.switch_act w ≡ false
      → fl.lt (adm_limit fl) u.adm_usage ≡ true
      → fl.lt u.adm_usage (adm_target fl) ≡ false
      → fl.lt u.mm_usage (mm_target_value fl) ≡ true
      → fl.truncate (
          fl.fmin
            (fl.mul (fl.sub u.adm_usage (adm_target fl)) (fl.of_int u.adm_sz))
            (fl.mul (fl.sub (thresholds w).mm_target u.mm_usage) (fl.of_int u.mm_sz)))
        ≡ negsuc m
      → page_size ≤ m + 1
      → m + 1 < 2 ^ 31 * page_size
      → (c : ℕ) × (thresh_step fl sys send_find thresholds page_size u w
          ≡ locked_find fl sys send_find page_size w (negsuc c) nvram_mode)
  unfolding thresh_step
  low_target-negative u w m paged act no_switch over enough below e least most =
      let bytes =
        fl.fmin (fl.mul (fl.sub u.adm_usage (adm_target fl)) (fl.of_int u.adm_sz))
          (fl.mul (fl.sub (thresholds w).mm_target u.mm_usage) (fl.of_int u.mm_sz)) in
      let (c, count) = pages_of-negative fl page_size bytes m paged e least most in
      let stays : (fl.lt (thresholds w).mm_thresh u.mm_usage && fl.lt u.adm_usage (adm_target fl))
          ≡ false =
        ground arith in
      (c, rw (act, stays, no_switch, over, below, count) refl)
