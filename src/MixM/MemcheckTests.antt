-- ===== src/MixM/MemcheckTests.antt =====
-- The theorems on the loop of the variant, on the machine whose numbers are hundredths.
use ambix.Base.{ℕ, ◌≡◌, refl, Bool, true, false, ℤ, pos, negsuc, [], ◌∷◌, arith}
use ambix.Config.{nvram_mode}
use ambix.Controller.Memcheck.{Sys}
use ambix.Controller.Memcheck.Round.{locked_find}
use ambix.Controller.Commands.{int_of_long}
use ambix.Controller.Migration.{to_int}
use ambix.Controller.MemcheckTests.{hundredths, busy, recording}
use ambix.MixM.Memcheck.{
  Thresholds, MmUsage, initial_thresholds, set_command, set_thresholds, thresh_step,
}
use ambix.MixM.Memcheck.Negative.{low_target-negative}

abbrev empty_usage : MmUsage ℤ
empty_usage = record { mm_usage = pos 0; adm_usage = pos 0; mm_sz = pos 0; adm_sz = pos 0 }

-- `set ratio 8`
abbrev lowered : Thresholds ℤ
lowered =
    set_command hundredths (λ number. pos 8) ("ratio" ∷ "8\n" ∷ []) (initial_thresholds hundredths)

abbrev thresh_only : Sys hundredths
thresh_only = record (busy Bool) { switch_act = λ w. false }

-- A fifth of the memory tier is used, and all of the other.
abbrev fifth_used : MmUsage ℤ
fifth_used = record {
  mm_usage = pos 20;
  adm_usage = pos 100;
  mm_sz = pos 409600;
  adm_sz = pos 409600;
}

low_target_fifth :
    (c : ℕ) × (thresh_step hundredths thresh_only recording (λ w. lowered) 4096 fifth_used true
      ≡ locked_find hundredths thresh_only recording 4096 true (negsuc c) nvram_mode)
unfolding set_command set_thresholds int_of_long to_int
low_target_fifth =
    low_target-negative hundredths thresh_only recording (λ w. lowered) 4096 fifth_used true 24575
      (omega arith) refl refl refl refl refl refl (omega arith) (omega arith)
