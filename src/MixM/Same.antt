-- ===== src/MixM/Same.antt =====
-- Where each bound process has an address space, the variant's page walk is the hybrid one.
use ambix.Base.{
  ℕ, zero, suc, ◌+◌, ◌-◌, ◌<◌, ◌≤◌, ◌≡◌, refl, ap, ◌∙◌, Option, none, some, Bool-cases, inl, inr,
  List, [], ◌∷◌, arith,
}
use ambix.Config.{max_address}
use ambix.Kernel.{Kernel, Task}
use ambix.Placement.State.{State}
use ambix.Placement.Callbacks.{Callback}
use ambix.Placement.Walk.{
  walk_entries, walk_page_range, walk_task, walk_tasks, walk_before, finish_cycle, do_page_walk,
  is_done,
}
use ambix.Placement.Walk.Clear.{IsMapped}
use ambix.MixM.Callbacks.{pte_callback_mem}
use ambix.MixM.Walk.{
  walk_task as bare_task, walk_tasks as bare_tasks, walk_before as bare_before,
  finish_cycle as bare_cycle, do_page_walk as bare_walk,
}

-- Each bound process has an address space.
abbrev pub AllMapped : {Space : Type 0} → State Space → Type 0
AllMapped s = (i : ℕ) → i < s.n_pids → IsMapped (s.task_items i)

-- The same processes are bound.
pub record SameTasks (k : Kernel) (s t : State k.Space) : Type 0 where
  pub items : t.task_items ≡ s.task_items
  pub count : t.n_pids ≡ s.n_pids

-- A callback leaves the bound processes alone.
abbrev pub KeepsTasks : (k : Kernel) → Callback k → Type 0
KeepsTasks k cb =
    (m addr : ℕ) (e : Option k.Pte) (s : State k.Space) → SameTasks k s (cb m addr e s).1

module _ (k : Kernel) (cb : Callback k) (keeps : KeepsTasks k cb) where
  same_trans : (s t u : State k.Space) → SameTasks k s t → SameTasks k t u → SameTasks k s u
  same_trans s t u p q = record { items = q.items ∙ p.items; count = q.count ∙ p.count }

  AllMapped-same : (s t : State k.Space) → SameTasks k s t → AllMapped s → AllMapped t
  AllMapped-same s t p h i l = rw (p.items) (h i (omega (arith, p.count)))

  walk_entries-SameTasks :
      (m : ℕ) (es : List (ℕ × Option k.Pte)) (s : State k.Space)
      → SameTasks k s (walk_entries k cb m es s)
  unfolding walk_entries
  walk_entries-SameTasks m [] s = record { items = refl; count = refl }
  walk_entries-SameTasks m ((addr, pte) ∷ es) s = elim (Bool-cases ((cb m addr pte s).0)) [
    | inl stop ↦ rw stop (keeps m addr pte s)
    | inr more ↦
        rw more
          (same_trans s _ _ (keeps m addr pte s) (walk_entries-SameTasks m es (cb m addr pte s).1))
  ]

  module _ (i start end : ℕ) (s : State k.Space) where
    -- The state in which the walk of a task's pages starts.
    abbrev from_task : Task → State k.Space
    from_task t = record s { search = record (s.search) { curr_pid = t.pid } }

    task_walked :
        (t : Task) (m : ℕ)
        → s.task_items i ≡ some t
        → t.mm ≡ some m
        → (walk_task k cb i start end s ≡ walk_page_range k cb m start end (from_task t))
          × (bare_task k cb i start end s ≡ walk_page_range k cb m start end (from_task t))
    unfolding walk_task bare_task
    task_walked t m e f = (ground arith, ground arith)

    range-SameTasks :
        (t : Task) (m : ℕ) → SameTasks k s (walk_page_range k cb m start end (from_task t))
    unfolding walk_page_range
    range-SameTasks t m =
        let walked = walk_entries-SameTasks m (k.entries (s.spaces m) start end) (from_task t) in
        record { items = walked.items; count = walked.count }

    slot_SameTasks :
        (o : Option Task)
        → s.task_items i ≡ o
        → IsMapped o
        → (bare_task k cb i start end s ≡ walk_task k cb i start end s)
          × SameTasks k s (walk_task k cb i start end s)
    slot_SameTasks none e h = absurd h
    slot_SameTasks (some t) e (m, f) =
        let w = task_walked t m e f in rw (w.0, w.1) (refl, range-SameTasks t m)

    task-SameTasks :
        AllMapped s
        → i < s.n_pids
        → (bare_task k cb i start end s ≡ walk_task k cb i start end s)
          × SameTasks k s (walk_task k cb i start end s)
    task-SameTasks h l = slot_SameTasks (s.task_items i) refl (h i l)

  tasks-SameTasks :
      (rounds i : ℕ) (s : State k.Space)
      → AllMapped s
      → i + rounds ≤ s.n_pids
      → (bare_tasks k cb rounds i s ≡ walk_tasks k cb rounds i s)
        × SameTasks k s (walk_tasks k cb rounds i s).1
  unfolding bare_tasks walk_tasks
  tasks-SameTasks zero i s h l = (refl, record { items = refl; count = refl })
  tasks-SameTasks (suc rounds) i s h l =
      let one = task-SameTasks i 0 max_address s h (omega arith) in
      let s' = walk_task k cb i 0 max_address s in
      let rest =
        tasks-SameTasks rounds (i + 1) s' (AllMapped-same s s' one.1 h)
          (omega (arith, one.1.count)) in
      elim (Bool-cases (is_done k s')) [
        | inl stop ↦ rw (one.0, stop) (refl, one.1)
        | inr more ↦ rw (one.0, more) (rest.0, same_trans s s' _ one.1 rest.1)
      ]

  before-SameTasks :
      (last_pid : ℕ) (r : Option ℕ × State k.Space)
      → AllMapped r.1
      → last_pid < r.1.n_pids
      → (bare_before k cb last_pid r ≡ walk_before k cb last_pid r)
        × SameTasks k r.1 (walk_before k cb last_pid r).1
  unfolding bare_before walk_before
  before-SameTasks last_pid (some i, s) h l = (refl, record { items = refl; count = refl })
  before-SameTasks last_pid (none, s) h l = tasks-SameTasks last_pid 0 s h (omega arith)

  cycle_same :
      (last_pid last_addr : ℕ) (r : Option ℕ × State k.Space)
      → AllMapped r.1
      → last_pid < r.1.n_pids
      → bare_cycle k cb last_pid last_addr r ≡ finish_cycle k cb last_pid last_addr r
  unfolding bare_cycle finish_cycle
  cycle_same last_pid last_addr (some i, s) h l = refl
  cycle_same last_pid last_addr (none, s) h l =
      ap (λ t. (last_pid, t)) (task-SameTasks last_pid 0 (last_addr + 1) s h l).0

  -- For a callback that leaves the list of processes alone, and where each bound process has an
  -- address space, the variant's page walk from a slot in use does what the hybrid one does.
  pub do_page_walk_same :
      (last_pid last_addr : ℕ) (s : State k.Space)
      → AllMapped s
      → last_pid < s.n_pids
      → bare_walk k cb last_pid last_addr s ≡ do_page_walk k cb last_pid last_addr s
  unfolding bare_walk do_page_walk
  do_page_walk_same last_pid last_addr s h l =
      let first = task-SameTasks last_pid last_addr max_address s h l in
      let s' = walk_task k cb last_pid last_addr max_address s in
      let rounds = s'.n_pids - (last_pid + 1) in
      let second =
        tasks-SameTasks rounds (last_pid + 1) s' (AllMapped-same s s' first.1 h)
          (omega (arith, first.1.count)) in
      let r = walk_tasks k cb rounds (last_pid + 1) s' in
      let to_r = same_trans s s' r.1 first.1 second.1 in
      let third =
        before-SameTasks last_pid r (AllMapped-same s r.1 to_r h) (omega (arith, to_r.count)) in
      let q = walk_before k cb last_pid r in
      let to_q = same_trans s r.1 q.1 to_r third.1 in
      let last =
        cycle_same last_pid last_addr q (AllMapped-same s q.1 to_q h) (omega (arith, to_q.count)) in
      elim (Bool-cases (is_done k s')) [
        | inl stop ↦ rw (first.0, stop) refl
        | inr more ↦ rw (first.0, more, second.0, third.0) last
      ]

-- The variant's callbacks leave the list of processes alone.
pub mem-KeepsTasks : (k : Kernel) → KeepsTasks k (pte_callback_mem k)
unfolding pte_callback_mem
mem-KeepsTasks k m addr none s = ground arith
mem-KeepsTasks k m addr (some pte) s = ground arith
