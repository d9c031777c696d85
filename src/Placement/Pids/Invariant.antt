-- ===== src/Placement/Pids/Invariant.antt =====
-- What the list of bound processes and the walks' positions keep true through every operation.
use native.Mathlib.Decide.{ℕ_discrete}
use ambix.Base.{
  ℕ, zero, suc, ◌+◌, ◌-◌, ◌≤◌, ◌<◌, ◌≡◌, ◌≢◌, Option, none, some, ℤ, pos, pos_part, false, ltb,
  slice, length-slice, arith, Bool-cases, Option-cases, inl, inr, ◌⊎◌, ==ℤ_iff,
}
use ambix.Config.{max_pids}
use ambix.Kernel.{Task, Processes}
use ambix.Placement.State.{Pids}
use ambix.Placement.Pids.{
  holds, find_slot, resume_after, update_pid_list, refresh_from, refresh_pids, is_alive,
  append_task, bind_pid, unbind_pid,
}
use ambix.Placement.Pids.View.{bound, shift_left_lem}
use ambix.Placement.Pids.Binding.{
  any, Finds, find_slot-some, accepted, accepted-some, bind_pid-accepted,
}

abbrev pub slot_pid : Option Task → ℤ
slot_pid none = pos 0
slot_pid (some t) = t.pid

-- A slot in use has a task, whose pid is positive.
abbrev pub IsTask : Option Task → Type 0
IsTask none = ⊥
IsTask (some t) = 0 < pos_part t.pid

-- The walks' positions name slots in use (slot 0 if there is none), the list fits its array, its
-- slots hold tasks, and no pid is bound twice.
pub record IsWellFormed (p : Pids) : Type 0 where
  pub dram_in : p.last_pid_dram ≤ p.n_pids - 1
  pub nvram_in : p.last_pid_nvram ≤ p.n_pids - 1
  pub fits : p.n_pids ≤ max_pids
  pub tasks : (i : ℕ) → i < p.n_pids → IsTask (p.task_items i)
  pub distinct :
      (i j : ℕ) → i < j → j < p.n_pids → slot_pid (p.task_items i) ≢ slot_pid (p.task_items j)

resume_after_bound :
    (n i last addr : ℕ) → i < n → last ≤ n - 1 → (resume_after n i last addr).0 ≤ n - 1 - 1
unfolding resume_after
resume_after_bound n i last addr h l = ground arith

module _ (i : ℕ) (p : Pids) (h : i < p.n_pids) where
  -- Where each slot of the shortened list comes from.
  pub update-slot :
      (j : ℕ)
      → j < p.n_pids - 1
      → ((j < i) × ((update_pid_list i p).task_items j ≡ p.task_items j))
        ⊎ ((i ≤ j) × ((update_pid_list i p).task_items j ≡ p.task_items (j + 1)))
  unfolding update_pid_list
  update-slot j lt = ground (arith, shift_left_lem (p.n_pids - 1 - i) i p.task_items j)

  update_pid_list-IsWellFormed : IsWellFormed p → IsWellFormed (update_pid_list i p)
  unfolding update_pid_list
  update_pid_list-IsWellFormed w = record {
    dram_in = resume_after_bound p.n_pids i p.last_pid_dram p.last_addr_dram h w.dram_in;
    nvram_in = resume_after_bound p.n_pids i p.last_pid_nvram p.last_addr_nvram h w.nvram_in;
    fits = omega (arith, w.fits);
    tasks = tasks;
    distinct = distinct;
  }
    where
      tasks : (j : ℕ) → j < p.n_pids - 1 → IsTask ((update_pid_list i p).task_items j)
      tasks j lt = elim (update-slot j lt) [
        | inl (b, e) ↦ rw e (w.tasks j (omega arith))
        | inr (b, e) ↦ rw e (w.tasks (j + 1) (omega arith))
      ]

      distinct :
          (j l : ℕ)
          → j < l
          → l < p.n_pids - 1
          → slot_pid ((update_pid_list i p).task_items j)
            ≢ slot_pid ((update_pid_list i p).task_items l)
      distinct j l lt below = elim (update-slot j (omega arith)) [
        | inl (b, e) ↦ elim (update-slot l below) [
          | inl (c, f) ↦ rw (e, f) (w.distinct j l lt (omega arith))
          | inr (c, f) ↦ rw (e, f) (w.distinct j (l + 1) (omega arith) (omega arith))
        ]
        | inr (b, e) ↦ elim (update-slot l below) [
          | inl (c, f) ↦ absurd (omega arith)
          | inr (c, f) ↦ rw (e, f) (w.distinct (j + 1) (l + 1) (omega arith) (omega arith))
        ]
      ]

module _ (ps : Processes) where
  refresh_from-IsWellFormed :
      (fuel i : ℕ) (p : Pids) → IsWellFormed p → IsWellFormed (refresh_from ps fuel i p)
  unfolding refresh_from
  refresh_from-IsWellFormed zero i p w = w
  refresh_from-IsWellFormed (suc fuel) i p w = elim (Bool-cases (ltb i p.n_pids)) [
    | inr e ↦ rw e w
    | inl e ↦ elim (Bool-cases (is_alive ps (p.task_items i))) [
      | inl a ↦ rw (e, a) (refresh_from-IsWellFormed fuel (i + 1) p w)
      | inr a ↦
          rw (e, a)
            (refresh_from-IsWellFormed fuel i (update_pid_list i p)
              (update_pid_list-IsWellFormed i p (ground arith) w))
    ]
  ]

  -- `refresh_pids` keeps the list well formed.
  pub refresh_pids-IsWellFormed : (p : Pids) → IsWellFormed p → IsWellFormed (refresh_pids ps p)
  unfolding refresh_pids
  refresh_pids-IsWellFormed p w = refresh_from-IsWellFormed p.n_pids 0 p w

  -- `unbind_pid` keeps it too.
  pub unbind_pid-IsWellFormed :
      (pid : ℤ) (p : Pids) → IsWellFormed p → IsWellFormed (unbind_pid pid p).1
  unfolding unbind_pid
  unbind_pid-IsWellFormed pid p w = elim (Option-cases (find_slot p.task_items pid p.n_pids 0)) [
    | inl e ↦ ground arith
    | inr (j, e) ↦
        let f : Finds p.task_items pid p.n_pids 0 j =
          find_slot-some p.task_items pid p.n_pids 0 j e in
        let below : j < 0 + p.n_pids = f.below in
        ground (arith, update_pid_list-IsWellFormed j p (omega arith) w)
  ]

not_any-slot :
    (items : ℕ → Option Task) (pid : ℤ) (n s : ℕ)
    → any (holds pid) (slice items s n) ≡ false
    → (i : ℕ) → s ≤ i
    → i < s + n
    → holds pid (items i) ≡ false
not_any-slot items pid zero s h i l b = absurd (omega arith)
not_any-slot items pid (suc n) s h i l b = elim (ℕ_discrete s i) [
  | yes e ↦ rw (← e) (ground arith)
  | no ne ↦ not_any-slot items pid n (s + 1) (ground arith) i (omega arith) (omega arith)
]

-- A slot that does not hold the pid differs from a task that has it.
slot-ne : (o : Option Task) (pid : ℤ) → IsTask o → holds pid o ≡ false → slot_pid o ≢ pid
slot-ne none pid h e = absurd h
slot-ne (some t) pid h e = λ q. ground (arith, ==ℤ_iff t.pid pid)

-- Where each slot of the extended list comes from.
append-slot :
    (p : Pids) (t : Task) (j : ℕ)
    → j < p.n_pids + 1
    → ((j < p.n_pids) × ((append_task p t).task_items j ≡ p.task_items j))
      ⊎ ((j ≡ p.n_pids) × ((append_task p t).task_items j ≡ some t))
append-slot p t j lt = ground arith

append_task-IsWellFormed :
    (p : Pids) (t : Task)
    → IsWellFormed p
    → p.n_pids < max_pids
    → 0 < pos_part t.pid
    → any (holds t.pid) (bound p) ≡ false
    → IsWellFormed (append_task p t)
append_task-IsWellFormed p t w room positive fresh = record {
  dram_in = omega (arith, w.dram_in);
  nvram_in = omega (arith, w.nvram_in);
  fits = omega arith;
  tasks = tasks;
  distinct = distinct;
}
  where
    tasks : (j : ℕ) → j < p.n_pids + 1 → IsTask ((append_task p t).task_items j)
    tasks j lt = elim (append-slot p t j lt) [
      | inl (b, e) ↦ rw e (w.tasks j b)
      | inr (b, e) ↦ rw e positive
    ]

    distinct :
        (i j : ℕ)
        → i < j
        → j < p.n_pids + 1
        → slot_pid ((append_task p t).task_items i) ≢ slot_pid ((append_task p t).task_items j)
    distinct i j lt below = elim (append-slot p t j below) [
      | inl (b, e) ↦ elim (append-slot p t i (omega arith)) [
        | inl (c, f) ↦ rw (e, f) (w.distinct i j lt b)
        | inr (c, f) ↦ absurd (omega arith)
      ]
      | inr (b, e) ↦ elim (append-slot p t i (omega arith)) [
        | inl (c, f) ↦
            rw (e, f)
              (slot-ne (p.task_items i) t.pid (w.tasks i c)
                (not_any-slot p.task_items t.pid p.n_pids 0 fresh i (omega arith) (omega arith)))
        | inr (c, f) ↦ absurd (omega arith)
      ]
    ]

-- `bind_pid` keeps it, where the kernel's lookup returns a task with the pid that is asked for.
pub bind_pid-IsWellFormed :
    (ps : Processes) (pid : ℤ) (p : Pids)
    → ((t : Task) → ps.get_pid_task pid ≡ some t → t.pid ≡ pid)
    → IsWellFormed p
    → IsWellFormed (bind_pid ps pid p).1
bind_pid-IsWellFormed ps pid p lookup w = elim (Option-cases (accepted ps pid (bound p))) [
  | inl e ↦ rw (bind_pid-accepted ps pid p, e) w
  | inr (t, e) ↦
      let a = accepted-some ps pid (bound p) t e in
      let same : t.pid ≡ pid = lookup t a.3 in
      let room : p.n_pids < max_pids = omega (arith, a.1, length-slice p.task_items 0 p.n_pids) in
      let positive : 0 < pos_part t.pid = rw same a.0 in
      rw (bind_pid-accepted ps pid p, e)
        (append_task-IsWellFormed p t w room positive (rw same a.2))
]
