-- ===== src/Placement/Walk/Keeps.antt =====
-- What holds of each state that a walk passes through: a rule for `do_page_walk`.
use ambix.Base.{
  ℕ, zero, suc, ◌+◌, ◌-◌, ◌≤◌, ◌<◌, ◌≡◌, refl, ap, ◌∙◌, Option, none, some, ℤ, List, [], ◌∷◌, arith,
  Bool-cases, Option-cases, inl, inr,
}
use ambix.Config.{max_address}
use ambix.Kernel.{Kernel, Task}
use ambix.Placement.State.{State}
use ambix.Placement.Pids.Invariant.{IsTask}
use ambix.Placement.Callbacks.{Callback}
use ambix.Placement.Walk.{
  walk_entries, walk_page_range, walk_task, walk_tasks, finish_cycle, walk_before, do_page_walk,
  is_done,
}

-- A slot in use has a task.
pub IsTask-some : (o : Option Task) → IsTask o → (t : Task) × (o ≡ some t)
IsTask-some none h = absurd h
IsTask-some (some t) h = (t, refl)

-- `curr_pid = pid;`
abbrev pub set_pid : {Space : Type 0} → State Space → ℤ → State Space
set_pid s pid = record s { search = record (s.search) { curr_pid = pid } }

module _ (k : Kernel) (cb : Callback k) (i start end : ℕ) (s : State k.Space) (t : Task) where
  pub walk_task-no_mm :
      s.task_items i ≡ some t → t.mm ≡ none → walk_task k cb i start end s ≡ set_pid s t.pid
  unfolding walk_task
  walk_task-no_mm e f = ground arith

  pub walk_task-mm :
      (sp : ℕ)
      → s.task_items i ≡ some t
      → t.mm ≡ some sp
      → walk_task k cb i start end s ≡ walk_page_range k cb sp start end (set_pid s t.pid)
  unfolding walk_task
  walk_task-mm sp e f = ground arith

-- The rule takes what holds between the tasks and what holds while a task's pages are walked, with
-- the list of processes that both imply.
pub record Rule (k : Kernel) (cb : Callback k) (items : ℕ → Option Task) (count : ℕ)
    (Outside Inside : State k.Space → Type 0) : Type 0 where
  pub tasks : (i : ℕ) → i < count → IsTask (items i)
  pub same_items : (s : State k.Space) → Outside s → s.task_items ≡ items
  pub same_count : (s : State k.Space) → Outside s → s.n_pids ≡ count
  pub enters :
      (s : State k.Space) (i : ℕ) (t : Task)
      → i < count
      → items i ≡ some t
      → Outside s
      → Inside (set_pid s t.pid)
  pub keeps :
      (sp addr : ℕ) (e : Option k.Pte) (s : State k.Space) → Inside s → Inside (cb sp addr e s).1
  pub leaves : (s : State k.Space) → Inside s → Outside s

module _ (k : Kernel) (cb : Callback k) (items : ℕ → Option Task) (count : ℕ)
    (Outside Inside : State k.Space → Type 0) (rule : Rule k cb items count Outside Inside) where
  walk_entries-Inside :
      (sp : ℕ) (es : List (ℕ × Option k.Pte)) (s : State k.Space)
      → Inside s
      → Inside (walk_entries k cb sp es s)
  unfolding walk_entries
  walk_entries-Inside sp [] s v = v
  walk_entries-Inside sp ((addr, e) ∷ es) s v =
      let v' = rule.keeps sp addr e s v in
      elim (Bool-cases (cb sp addr e s).0) [
        | inl stop ↦ rw stop v'
        | inr go ↦ rw go (walk_entries-Inside sp es (cb sp addr e s).1 v')
      ]

  walk_task-Outside :
      (i start end : ℕ) (s : State k.Space)
      → i < count
      → Outside s
      → Outside (walk_task k cb i start end s)
  unfolding walk_page_range
  walk_task-Outside i start end s lt v =
      let (t, e) = IsTask-some (items i) (rule.tasks i lt) in
      let here : s.task_items i ≡ some t = ap (λ f. f i) (rule.same_items s v) ∙ e in
      let v' = rule.enters s i t lt e v in
      elim (Option-cases t.mm) [
        | inl no_mm ↦ rw (walk_task-no_mm k cb i start end s t here no_mm) (rule.leaves _ v')
        | inr (sp, mm) ↦ rw (walk_task-mm k cb i start end s t sp here mm) (
            rule.leaves _
              (walk_entries-Inside sp (k.entries (s.spaces sp) start end) (set_pid s t.pid) v'))
      ]

  -- A loop that returns does so at one of its slots.
  abbrev Ends : Option ℕ × State k.Space → Type 0
  Ends (some i, s) = (i < count) × Outside s
  Ends (none, s) = Outside s

  walk_tasks-Ends :
      (rounds i : ℕ) (s : State k.Space)
      → i + rounds ≤ count
      → Outside s
      → Ends (walk_tasks k cb rounds i s)
  unfolding walk_tasks
  walk_tasks-Ends zero i s h v = v
  walk_tasks-Ends (suc rounds) i s h v =
      let s' = walk_task k cb i 0 max_address s in
      let v' = walk_task-Outside i 0 max_address s (omega arith) v in
      elim (Bool-cases (is_done k s')) [
        | inl done ↦ rw done (omega arith, v')
        | inr more ↦ rw more (walk_tasks-Ends rounds (i + 1) s' (omega arith) v')
      ]

  walk_before-Ends :
      (last_pid : ℕ) (r : Option ℕ × State k.Space)
      → last_pid < count
      → Ends r
      → Ends (walk_before k cb last_pid r)
  unfolding walk_before
  walk_before-Ends last_pid (some i, s) h e = e
  walk_before-Ends last_pid (none, s) h e = walk_tasks-Ends last_pid 0 s (omega arith) e

  finish_cycle-Outside :
      (last_pid last_addr : ℕ) (r : Option ℕ × State k.Space)
      → last_pid < count
      → Ends r
      → let r' = finish_cycle k cb last_pid last_addr r in (r'.0 < count) × Outside r'.1
  unfolding finish_cycle
  finish_cycle-Outside last_pid last_addr (some i, s) h e = e
  finish_cycle-Outside last_pid last_addr (none, s) h e =
      (h, walk_task-Outside last_pid 0 (last_addr + 1) s h e)

  -- From a slot in use the walk ends at one, and what held between the tasks holds.
  pub do_page_walk-Outside :
      (last_pid last_addr : ℕ) (s : State k.Space)
      → last_pid < count
      → Outside s
      → let r = do_page_walk k cb last_pid last_addr s in (r.0 < count) × Outside r.1
  unfolding do_page_walk
  do_page_walk-Outside last_pid last_addr s h v =
      let s' = walk_task k cb last_pid last_addr max_address s in
      let v' = walk_task-Outside last_pid last_addr max_address s h v in
      elim (Bool-cases (is_done k s')) [
        | inl done ↦ rw done (h, v')
        | inr more ↦
            let same : s'.n_pids ≡ count = rule.same_count s' v' in
            rw more (
              finish_cycle-Outside last_pid last_addr _ h (
                walk_before-Ends last_pid _ h (
                  walk_tasks-Ends (s'.n_pids - (last_pid + 1)) (last_pid + 1) s' (omega arith) v')))
      ]
