-- ===== src/Controller/MemcheckTests.antt =====
-- The theorems on the loop of the controller, on a small machine.
use ambix.Base.{
  ℕ, ◌*◌, ◌/◌, ◌≤◌, ◌≡◌, refl, Bool, true, false, ◌&&◌, some, List, ℤ, pos, negsuc, pos_part,
  neg_part, ◌-ℤ◌, ltb_ℤ, leb_ℤ, ◌==◌, if◌then◌else◌, min, arith,
}
use ambix.Config.{max_n_find}
use ambix.Placement.Machine.{machine, processes, blank, running}
use ambix.Placement.Tests.{one_task-Valid, task-lookup}
use ambix.Placement.Request.Bounds.{Valid}
use ambix.Controller.Tests.{nothing}
use ambix.Controller.Memcheck.{Floats, Memdata, Sys, Locals, quotient}
use ambix.Controller.Memcheck.Round.{memcheck_placement}
use ambix.Controller.Memcheck.Finds.{IsShare, FloatLaws, MemcheckFind, Sized}
use ambix.Controller.Memcheck.Keeps.{memcheck_placement-keeps}
use ambix.Controller.Memcheck.Joint.{
  Kernels, Joint, find_joint, os_of, joint_sys, memcheck_placement-Valid,
}

-- Numbers in hundredths; a product is at most its second factor, and a quotient at most 1.
abbrev pub hundredths : Floats
hundredths = record {
  Float = ℤ;
  of_int = λ n. pos (100 * pos_part n);
  literal = λ n d. pos (100 * n / d);
  to_float = λ x. x;
  sub = λ x y. x -ℤ y;
  mul = λ x y.
      if ltb_ℤ x (pos 0)
      then pos 0 -ℤ pos (neg_part x * pos_part y / 100)
      else pos (min (pos_part y) (pos_part x * pos_part y / 100));
  div = λ x y. pos (min 100 (100 * pos_part x / pos_part y));
  fmin = λ x y. if ltb_ℤ x y then x else y;
  lt = ltb_ℤ;
  le = leb_ℤ;
  truncate = λ x. quotient x 100;
}

truncate_share :
    (x : ℤ) (sz : ℕ)
    → IsShare hundredths x
    → (n : ℕ) × (hundredths.truncate (hundredths.mul x (pos (100 * sz))) ≡ pos n) × (n ≤ sz)
truncate_share (negsuc a) sz h = absurd (ground (arith, h))
truncate_share (pos a) sz h =
    let no : ltb_ℤ (pos a) (pos 0) ≡ false = ground arith in
    (min (100 * sz) (a * (100 * sz) / 100) / 100, rw no refl, omega arith)

pub hundredths_laws : FloatLaws hundredths
hundredths_laws = record {
  lt_trans = λ x y z h l. ground arith;
  not_le = λ x y a b h. ground arith;
  target-IsShare = (refl, refl);
  dram_limit-IsShare = (refl, refl);
  nvram_limit-IsShare = (refl, refl);
  target-dram_limit = refl;
  target-nvram_limit = refl;
  used-IsShare = λ fr sz h p. (ground arith, ground arith);
  sub-IsShare = λ x y a b h. (ground arith, ground arith);
  truncate-share = λ x sz a h. truncate_share x sz a;
  fmin-choice = λ x y. ground arith;
}

-- A busy machine: DRAM is full, NVRAM is empty, and the file is new.
abbrev busy_memdata : Memdata ℤ
busy_memdata = record {
  sys_dram_reads = pos 0;
  sys_dram_writes = pos 0;
  sys_pmm_reads = pos 0;
  sys_pmm_writes = pos 0;
  sys_pmm_app_bw = pos 2000;
  sys_pmm_mem_bw = pos 0;
}

abbrev pub busy : Type 0 → Sys hundredths
busy W = record {
  World = W;
  exit_sig = λ w. false;
  thresh_act = λ w. true;
  switch_act = λ w. true;
  numa_node_size64 = λ w node. (pos 409600, if node == 0 then pos 0 else pos 409600);
  stat_mtime = λ w. some 1;
  read_file = λ w. some busy_memdata;
  memory = λ w. busy_memdata;
  usleep = λ n w. w;
  lock_placement = λ w. w;
  unlock_placement = λ w. w;
}

pub busy-Sized : (W : Type 0) (w : W) → Sized hundredths 4096 (busy W) w
busy-Sized W w node = (
  409600,
  if node == 0 then 0 else 409600,
  ground arith,
  ground arith,
  omega arith,
  (omega arith, omega arith),
)

abbrev pub start : Locals ℤ
start = record {
  usage = record { dram_usage = pos 0; nvram_usage = pos 0; dram_sz = pos 0; nvram_sz = pos 0 };
  prev_memdata_lmod = 0;
}

-- A `send_find` that records whether each count was from 0 to MAX_N_FIND.
abbrev pub recording : Bool → ℤ → ℤ → ℤ × Bool
recording w n mode = (pos 1, w && leb_ℤ (pos 0) n && leb_ℤ n (pos max_n_find))

pub recording-keeps :
    (w : Bool) (n mode : ℤ) → MemcheckFind n mode → w ≡ true → (recording w n mode).1 ≡ true
recording-keeps w n mode MemcheckFind.clears e = ground arith
recording-keeps w n mode MemcheckFind.switches e = ground arith
recording-keeps w n mode (MemcheckFind.fills c h) e = ground arith
recording-keeps w n mode (MemcheckFind.demotes c h) e = ground arith
recording-keeps w n mode (MemcheckFind.promotes c h) e = ground arith

memcheck_placement-keeps_example :
    (memcheck_placement hundredths (busy Bool) recording 4096 3 start true).1 ≡ true
memcheck_placement-keeps_example =
    memcheck_placement-keeps hundredths hundredths_laws 4096 (omega arith) (busy Bool) recording
      (λ w. w ≡ true) (λ w p. busy-Sized Bool w) (λ n w p. p) (λ w p. p) (λ w p. p) recording-keeps
      3 start true refl

abbrev no_moves : ℕ → ℤ → List ℕ → List ℕ → Bool × ℕ
no_moves w pid addr dest = (false, w)

-- Every task has the address space 0, and its pages do not change.
abbrev steady : Kernels machine ℕ
steady = record { processes = λ w. processes; mm = λ w t. some 0; page_tables = λ w s. s }

abbrev started : Joint machine ℕ
started = record { placement = running (pos 0); candidates = blank; machine = 0 }

memcheck_placement-Valid_example :
    Valid machine
      (memcheck_placement hundredths
        (joint_sys hundredths (busy ℕ) no_moves machine)
        (find_joint machine (os_of hundredths (busy ℕ) no_moves) steady 4096 nothing)
        4096
        2
        start
        started).1.placement
memcheck_placement-Valid_example =
    memcheck_placement-Valid hundredths (busy ℕ) no_moves hundredths_laws machine steady 4096
      nothing (omega arith) (busy-Sized ℕ) (λ w t. (0, refl)) (λ w. task-lookup) 2 start started
      one_task-Valid
