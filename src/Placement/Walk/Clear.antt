-- ===== src/Placement/Walk/Clear.antt =====
-- `clear_walk`: what it leaves alone, when it faults, and which bits the callbacks clear.
use native.Mathlib.Decide.{ℕ_discrete}
use ambix.Base.{
  ℕ, zero, suc, ◌+◌, ◌≤◌, ◌<◌, ◌≡◌, refl, ◌∙◌, true, false, Option, none, some, List, [], ◌∷◌,
  arith,
}
use ambix.Config.{max_address, dram_mode, nvram_mode}
use ambix.Kernel.{Kernel, Task, PteLaws}
use ambix.Placement.State.{State}
use ambix.Placement.Callbacks.{
  pte_callback_nvram_clear, pte_callback_mem, cleared, is_excluded, found_all,
}
use ambix.Placement.Walk.{walk_entries, walk_page_range, clear_task, clear_tasks, clear_walk}
use ambix.Placement.Walk.Memory.{Fresh, Handled}

-- A slot whose task has an address space.
abbrev pub IsMapped : Option Task → Type 0
IsMapped none = ⊥
IsMapped (some t) = (sp : ℕ) × (t.mm ≡ some sp)

-- What clearing leaves alone.
record Untouched (k : Kernel) (s t : State k.Space) : Type 0 where
  pids : t.pids ≡ s.pids
  found : t.n_found ≡ s.n_found
  backup : t.n_backup ≡ s.n_backup
  switch_backup : t.n_switch_backup ≡ s.n_switch_backup
  fault : t.fault ≡ s.fault

module _ (k : Kernel) where
  Untouched-trans : (s t u : State k.Space) → Untouched k s t → Untouched k t u → Untouched k s u
  Untouched-trans s t u a b = record {
    pids = b.pids ∙ a.pids;
    found = b.found ∙ a.found;
    backup = b.backup ∙ a.backup;
    switch_backup = b.switch_backup ∙ a.switch_backup;
    fault = b.fault ∙ a.fault;
  }

  clear-Untouched :
      (m addr : ℕ) (e : Option k.Pte) (s : State k.Space)
      → Untouched k s (pte_callback_nvram_clear k m addr e s).1
  unfolding pte_callback_nvram_clear
  clear-Untouched m addr none s = ground arith
  clear-Untouched m addr (some pte) s = ground arith

  clear-goes_on :
      (m addr : ℕ) (e : Option k.Pte) (s : State k.Space)
      → (pte_callback_nvram_clear k m addr e s).0 ≡ false
  unfolding pte_callback_nvram_clear
  clear-goes_on m addr none s = refl
  clear-goes_on m addr (some pte) s = ground arith

  walk-Untouched :
      (m : ℕ) (es : List (ℕ × Option k.Pte)) (s : State k.Space)
      → Untouched k s (walk_entries k (pte_callback_nvram_clear k) m es s)
  unfolding walk_entries
  walk-Untouched m [] s = ground arith
  walk-Untouched m ((addr, e) ∷ es) s =
      rw (clear-goes_on m addr e s)
        (Untouched-trans s _ _ (clear-Untouched m addr e s) (walk-Untouched m es _))

  clear_task-Untouched :
      (o : Option Task) (i : ℕ) (s : State k.Space)
      → s.task_items i ≡ o
      → IsMapped o
      → Untouched k s (clear_task k i s)
  unfolding clear_task walk_page_range
  clear_task-Untouched none i s e h = absurd h
  clear_task-Untouched (some t) i s e (sp, mm) =
      let s' : State k.Space = record s { search = record (s.search) { curr_pid = t.pid } } in
      rw (e, clear_task)
        (rw (mm, clear_task)
          (Untouched-trans s s' _ (ground arith)
            (walk-Untouched sp (k.entries (s.spaces sp) 0 max_address) s')))

  clear_tasks-Untouched :
      (rounds i : ℕ) (s : State k.Space)
      → ((j : ℕ) → i ≤ j → j < i + rounds → IsMapped (s.task_items j))
      → Untouched k s (clear_tasks k rounds i s)
  unfolding clear_tasks
  clear_tasks-Untouched zero i s h = ground arith
  clear_tasks-Untouched (suc rounds) i s h =
      let u = clear_task-Untouched (s.task_items i) i s refl (h i (omega arith) (omega arith)) in
      Untouched-trans s _ _ u (
        clear_tasks-Untouched rounds (i + 1) (clear_task k i s)
          (λ j l b. rw (u.pids) (h j (omega arith) (omega arith))))

  -- Where each bound task has an address space, `clear_walk` stays in bounds.
  pub clear_walk-Handled :
      (s : State k.Space)
      → Fresh k s
      → ((i : ℕ) → i < s.n_pids → IsMapped (s.task_items i))
      → Handled k (clear_walk k s)
  unfolding clear_walk
  clear_walk-Handled s f h =
      let u = clear_tasks-Untouched s.n_pids 0 s (λ j l b. h j (omega arith)) in
      record {
        pids = rw (u.pids) f.pids;
        room = omega (arith, u.found, f.empty);
        backup = omega (arith, u.backup, f.backup);
        switch_backup = omega (arith, u.switch_backup, f.switch_backup);
        sound = u.fault ∙ f.sound;
      }

  clear_task-pids : (i : ℕ) (s : State k.Space) → (clear_task k i s).pids ≡ s.pids
  clear_task-pids i s = by_slot (s.task_items i) refl
    where
      by_mm :
          (t : Task) (mm : Option ℕ)
          → s.task_items i ≡ some t
          → t.mm ≡ mm
          → (clear_task k i s).pids ≡ s.pids
      by_mm t none e f = unfold clear_task in ground arith
      by_mm t (some sp) e f = let u = clear_task-Untouched (some t) i s e (sp, f) in u.pids

      by_slot : (o : Option Task) → s.task_items i ≡ o → (clear_task k i s).pids ≡ s.pids
      by_slot none e = unfold clear_task in ground arith
      by_slot (some t) e = by_mm t t.mm e refl

  clear_task-faulty : (i : ℕ) (s : State k.Space) → s.fault ≡ true → (clear_task k i s).fault ≡ true
  clear_task-faulty i s h = by_slot (s.task_items i) refl
    where
      by_mm :
          (t : Task) (mm : Option ℕ)
          → s.task_items i ≡ some t
          → t.mm ≡ mm
          → (clear_task k i s).fault ≡ true
      by_mm t none e f = unfold clear_task in ground arith
      by_mm t (some sp) e f = let u = clear_task-Untouched (some t) i s e (sp, f) in u.fault ∙ h

      by_slot : (o : Option Task) → s.task_items i ≡ o → (clear_task k i s).fault ≡ true
      by_slot none e = unfold clear_task in ground arith
      by_slot (some t) e = by_mm t t.mm e refl

  clear_tasks-faulty :
      (rounds i : ℕ) (s : State k.Space) → s.fault ≡ true → (clear_tasks k rounds i s).fault ≡ true
  unfolding clear_tasks
  clear_tasks-faulty zero i s h = h
  clear_tasks-faulty (suc rounds) i s h =
      clear_tasks-faulty rounds (i + 1) _ (clear_task-faulty i s h)

  clear_task-unmapped :
      (i : ℕ) (s : State k.Space) (t : Task)
      → s.task_items i ≡ some t
      → t.mm ≡ none
      → (clear_task k i s).fault ≡ true
  unfolding clear_task
  clear_task-unmapped i s t e f = ground arith

  clear_tasks-unmapped :
      (rounds i : ℕ) (s : State k.Space) (j : ℕ) (t : Task)
      → i ≤ j
      → j < i + rounds
      → s.task_items j ≡ some t
      → t.mm ≡ none
      → (clear_tasks k rounds i s).fault ≡ true
  unfolding clear_tasks
  clear_tasks-unmapped zero i s j t l b e f = absurd (omega arith)
  clear_tasks-unmapped (suc rounds) i s j t l b e f = elim (ℕ_discrete i j) [
    | yes here ↦ clear_tasks-faulty rounds (i + 1) _ (clear_task-unmapped i s t (rw here e) f)
    | no later ↦
        clear_tasks-unmapped rounds (i + 1) (clear_task k i s) j t (ground arith) (omega arith)
          (rw (clear_task-pids i s) e) f
  ]

  -- A bound task without an address space makes `clear_walk` read through a null pointer, where
  -- the other walks pass over such a task.
  pub clear_walk_faults :
      (s : State k.Space) (i : ℕ) (t : Task)
      → i < s.n_pids
      → s.task_items i ≡ some t
      → t.mm ≡ none
      → (clear_walk k s).fault ≡ true
  unfolding clear_walk
  clear_walk_faults s i t h e f =
      clear_tasks-unmapped s.n_pids 0 s i t (omega arith) (omega arith) e f

  -- The entry that the callbacks write back for `pte`: its dirty bit is clear, and its accessed bit is
  -- what it was.
  cleared_bits :
      PteLaws k
      → (pte : k.Pte)
      → (k.pte_young (cleared k pte) ≡ k.pte_young pte) × (k.pte_dirty (cleared k pte) ≡ false)
  cleared_bits laws pte = (laws.young-mkclean pte, laws.dirty-mkclean pte)

  -- Where the accessors do what they document, the clearing walk writes back each present and writable NVRAM entry with its dirty bit clear, but
  -- with its accessed bit as it was, and leaves the rest of the state alone.
  pub clear_keeps_young :
      PteLaws k
      → (m addr : ℕ) (pte : k.Pte) (s : State k.Space) → is_excluded k nvram_mode pte ≡ false
      → let s' = (pte_callback_nvram_clear k m addr (some pte) s).1 in
        (q : k.Pte) × (s'.spaces m ≡ k.commit (s.spaces m) addr q)
        × (k.pte_young q ≡ k.pte_young pte)
        × (k.pte_dirty q ≡ false)
        × (s'.pids ≡ s.pids)
        × (s'.search ≡ s.search)
  unfolding pte_callback_nvram_clear
  clear_keeps_young laws m addr pte s h =
      let b = cleared_bits laws pte in
      (cleared k pte, ground arith, b.0, b.1, ground arith, ground arith)

  -- Where the accessors do what they document and pages are still wanted, the DRAM walk finds no page
  -- at an accessed one, and writes it back with its dirty bit clear and its accessed bit set.
  pub mem_keeps_young :
      PteLaws k
      → (m addr : ℕ) (pte : k.Pte) (s : State k.Space) → found_all k s ≡ false
      → is_excluded k dram_mode pte ≡ false
      → k.pte_young pte ≡ true
      → let s' = (pte_callback_mem k m addr (some pte) s).1 in
        (q : k.Pte) × (s'.spaces m ≡ k.commit (s.spaces m) addr q)
        × (k.pte_young q ≡ true)
        × (k.pte_dirty q ≡ false)
        × (s'.n_found ≡ s.n_found)
  unfolding pte_callback_mem
  mem_keeps_young laws m addr pte s h e y =
      let b = cleared_bits laws pte in (cleared k pte, ground arith, b.0 ∙ y, b.1, ground arith)
