-- ===== src/Controller/Memcheck/Joint.antt =====
-- The loop with the module beneath it: each FIND goes through `send_find` to the module and back.
use ambix.Base.{
  ℕ, ◌+◌, ◌<◌, ◌≡◌, refl, sym, Bool, true, Option, none, some, List, ℤ, pos, pos_part, ◌∙◌,
}
use ambix.Config.{AddrInfo, Req, max_n_find}
use ambix.Netlink.{Message}
use ambix.Kernel.{Kernel, Processes, Task}
use ambix.Placement.State.{State}
use ambix.Placement.Pids.{refresh_pids}
use ambix.Placement.Pids.Invariant.{IsTask, slot_pid}
use ambix.Placement.Pids.Slots.{InSlots, refresh_pids-slots}
use ambix.Placement.Walk.Clear.{IsMapped}
use ambix.Placement.Request.Bounds.{Valid, Answerable, IsCount, process_req-Valid}
use ambix.Placement.Reply.{placement_nl_process_msg}
use ambix.Controller.Comm.{send_req}
use ambix.Controller.Migration.{Os, Plan}
use ambix.Controller.Switch.{find_req, send_find}
use ambix.Controller.Memcheck.{Floats, Sys, Locals}
use ambix.Controller.Memcheck.Round.{memcheck_placement}
use ambix.Controller.Memcheck.Finds.{FloatLaws, MemcheckFind, Sized}
use ambix.Controller.Memcheck.Keeps.{memcheck_placement-keeps}

-- What the module finds when a request arrives: the processes that the kernel knows, the address space
-- that each bound task has, and the page tables, after the pages that were moved.
pub record Kernels (k : Kernel) (World : Type 0) : Type 0 where
  pub processes : World → Processes
  pub mm : World → Task → Option ℕ
  pub page_tables : World → (ℕ → k.Space) → ℕ → k.Space

-- The module, the controller's array of candidates, and the rest of the machine.
pub record Joint (k : Kernel) (World : Type 0) : Type 0 where
  pub placement : State k.Space
  pub candidates : ℕ → AddrInfo
  pub machine : World

module _ (k : Kernel) (os : Os) (env : Kernels k os.World) (page_size : ℕ) (memory : Plan) where
  abbrev with_mm : os.World → Option Task → Option Task
  with_mm m none = none
  with_mm m (some t) = some (record t { mm = env.mm m t })

  -- The module's state when a request arrives.
  abbrev pub arrival : Joint k os.World → State k.Space
  arrival j = record j.placement {
    pids = record j.placement.pids {
      task_items = λ i. with_mm j.machine (j.placement.task_items i);
    };
    spaces = env.page_tables j.machine j.placement.spaces;
  }

  abbrev pub answer : Joint k os.World → Req → List Message
  answer j r = (placement_nl_process_msg k (env.processes j.machine) true (some r) (arrival j)).0

  -- The value of `send_find` and the machine; `send_find` does not run out of fuel.
  abbrev pub moved : os.World → Option (ℤ × os.World) → ℤ × os.World
  moved m none = (pos 0, m)
  moved m (some r) = r

  unfoldable pub find_joint : Joint k os.World → ℤ → ℤ → ℤ × Joint k os.World
  find_joint j n_pages mode =
      let req = find_req n_pages mode in
      let r = moved j.machine (
        send_find os page_size (answer j) (max_n_find + 1) n_pages mode j.candidates memory
          j.machine) in
      (
        r.0,
        record {
          placement =
              (placement_nl_process_msg k (env.processes j.machine) true (some req) (arrival j)).1;
          candidates = (send_req (answer j) req j.candidates).1;
          machine = r.1;
        },
      )

  abbrev pub IsSound : Joint k os.World → Type 0
  IsSound j = Valid k j.placement

  with_mm-slot :
      (m : os.World) (o : Option Task)
      → (slot_pid (with_mm m o) ≡ slot_pid o) × (IsTask o → IsTask (with_mm m o))
  with_mm-slot m none = (refl, λ h. h)
  with_mm-slot m (some t) = (refl, λ h. h)

  arrival-Valid : (j : Joint k os.World) → IsSound j → Valid k (arrival j)
  arrival-Valid j v = record {
    pids = record {
      dram_in = v.pids.dram_in;
      nvram_in = v.pids.nvram_in;
      fits = v.pids.fits;
      tasks = λ i h. (with_mm-slot j.machine (j.placement.task_items i)).1 (v.pids.tasks i h);
      distinct = λ a b l h q.
          let x = (with_mm-slot j.machine (j.placement.task_items a)).0 in
          let y = (with_mm-slot j.machine (j.placement.task_items b)).0 in
          v.pids.distinct a b l h (sym x ∙ q ∙ y);
    };
    backup = v.backup;
    switch_backup = v.switch_backup;
    sound = v.sound;
  }

  module _ (mapped : (m : os.World) (t : Task) → (sp : ℕ) × (env.mm m t ≡ some sp)) where
    with_mm-IsMapped : (m : os.World) (o : Option Task) → IsTask o → IsMapped (with_mm m o)
    with_mm-IsMapped m none h = absurd h
    with_mm-IsMapped m (some t) h = mapped m t

    -- Each FIND of the loop is answerable.
    arrival-Answerable :
        (j : Joint k os.World) (n mode : ℤ)
        → MemcheckFind n mode
        → IsSound j
        → Answerable k (env.processes j.machine) (some (find_req n mode)) (arrival j)
    arrival-Answerable j n mode f v = λ e. (counted f, λ c. slots)
      where
        counted : {n mode : ℤ} → MemcheckFind n mode → IsCount n
        counted MemcheckFind.clears = _
        counted MemcheckFind.switches = _
        counted (MemcheckFind.fills c h) = _
        counted (MemcheckFind.demotes c h) = _
        counted (MemcheckFind.promotes c h) = _

        slots : InSlots IsMapped (refresh_pids (env.processes j.machine) (arrival j).pids)
        slots =
            refresh_pids-slots IsMapped (env.processes j.machine) (arrival j).pids
              (λ i h. with_mm-IsMapped j.machine (j.placement.task_items i) (v.pids.tasks i h))

    find_joint-IsSound :
        ((m : os.World) (pid : ℤ) (t : Task)
          → (env.processes m).get_pid_task pid ≡ some t
          → t.pid ≡ pid)
        → (j : Joint k os.World) (n mode : ℤ) → MemcheckFind n mode
        → IsSound j
        → IsSound (find_joint j n mode).1
    unfolding find_joint placement_nl_process_msg
    find_joint-IsSound lookup j n mode f v =
        (process_req-Valid k (env.processes j.machine) (some (find_req n mode)) (arrival j)
          (lookup j.machine) (arrival-Valid j v) (arrival-Answerable j n mode f v)).0

module _ (fl : Floats) (base : Sys fl)
    (move_pages : base.World → ℤ → List ℕ → List ℕ → Bool × base.World) where
  -- What the migration asks of the same machine.
  abbrev pub os_of : Os
  os_of = record {
    World = base.World;
    free_space_node = λ w node. pos_part (base.numa_node_size64 w node).1;
    move_pages = move_pages;
  }

  -- What the loop asks of it, beside the module.
  abbrev pub joint_sys : Kernel → Sys fl
  joint_sys k = record {
    World = Joint k base.World;
    exit_sig = λ j. base.exit_sig j.machine;
    thresh_act = λ j. base.thresh_act j.machine;
    switch_act = λ j. base.switch_act j.machine;
    numa_node_size64 = λ j. base.numa_node_size64 j.machine;
    stat_mtime = λ j. base.stat_mtime j.machine;
    read_file = λ j. base.read_file j.machine;
    memory = λ j. base.memory j.machine;
    usleep = λ n j. record j { machine = base.usleep n j.machine };
    lock_placement = λ j. record j { machine = base.lock_placement j.machine };
    unlock_placement = λ j. record j { machine = base.unlock_placement j.machine };
  }

  -- The loop with the module beneath it, for any number of rounds and from a valid state of the module:
  -- each request that reaches the module is answered with no write out of bounds and no access through a
  -- null pointer, and the module's state is valid again. Each node has a size whose pages an `int`
  -- counts, and each bound task has an address space when a request arrives.
  pub memcheck_placement-Valid :
      FloatLaws fl
      → (k : Kernel) (env : Kernels k base.World) (page_size : ℕ) (memory : Plan) → 0 < page_size
      → ((w : base.World) → Sized fl page_size base w)
      → ((w : base.World) (t : Task) → (sp : ℕ) × (env.mm w t ≡ some sp))
      → ((w : base.World) (pid : ℤ) (t : Task)
          → (env.processes w).get_pid_task pid ≡ some t
          → t.pid ≡ pid)
      → (rounds : ℕ) (l : Locals fl.Float) (j : Joint k base.World) → Valid k j.placement
      → let r =
          memcheck_placement fl
            (joint_sys k)
            (find_joint k os_of env page_size memory)
            page_size
            rounds
            l
            j in
        Valid k r.1.placement
  memcheck_placement-Valid laws k env page_size memory paged sized mapped lookup =
      memcheck_placement-keeps fl laws page_size paged (joint_sys k)
        (find_joint k os_of env page_size memory) (IsSound k os_of env page_size memory)
        (λ j v. sized j.machine) (λ n j v. v) (λ j v. v) (λ j v. v)
        (λ j n mode f v. find_joint-IsSound k os_of env page_size memory mapped lookup j n mode f v)
