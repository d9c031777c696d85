-- ===== src/Placement/Walk/Cycle.antt =====
-- `do_page_walk` comes by the pages of one cycle, in order: a rule for what it does with them.
use ambix.Base.{
  ℕ, zero, suc, ◌+◌, ◌-◌, ◌≤◌, ◌<◌, ◌≡◌, sym, ap, ◌∙◌, subst, Bool, true, Option, none, some, ℤ,
  List, [], ◌∷◌, ◌++◌, append_assoc, append-nil, arith, Bool-cases, Option-cases, inl, inr,
}
use ambix.Config.{AddrInfo, max_address}
use ambix.Kernel.{Kernel, Task}
use ambix.Kernel.Tables.{TableLaws, read_all}
use ambix.Placement.State.{State}
use ambix.Placement.Pids.Invariant.{IsTask}
use ambix.Placement.Callbacks.{Callback, found_all}
use ambix.Placement.Callbacks.Bounds.{Safe, KeepsSafe}
use ambix.Placement.Walk.{
  walk_entries, walk_page_range, walk_task, walk_tasks, finish_cycle, walk_before, do_page_walk,
  is_done,
}
use ambix.Placement.Walk.Bounds.{set_pid-Safe}
use ambix.Placement.Walk.Keeps.{set_pid, IsTask-some, walk_task-no_mm, walk_task-mm}
use ambix.Placement.Walk.Selection.{candidates_of}
use ambix.Placement.Walk.Offers.{pages_of, pages_from, cycle, pages_of-no_mm, pages_of-mm}
use ambix.Placement.Walk.Alike.{Like, Alike-trans, pages_of-Alike, KeepsAlike}
use ambix.Placement.Walk.Visit.{Tallies, Inside, offer}

module _ (k : Kernel) (laws : TableLaws k) (test : Option k.Pte → Bool) (b n : ℕ)
    (items : ℕ → Option Task) (count : ℕ) (sp : ℕ → k.Space)
    (tasks : (i : ℕ) → i < count → IsTask (items i)) (cb : Callback k) (keeps : KeepsSafe k b n cb)
    (alike : KeepsAlike k laws test cb) (Has : State k.Space → List AddrInfo → Type 0)
    (tally : Tallies k test cb (Safe k b n items count) Has) where
  abbrev Within : State k.Space → Type 0
  Within = Inside k laws test b n items count sp

  -- A state within the walk that has made its own of the pages `xs`.
  abbrev Holds : State k.Space → List AddrInfo → Type 0
  Holds s xs = Within s × Has s xs

  callback-Within :
      (m addr : ℕ) (e : Option k.Pte) (s : State k.Space)
      → Like k laws test (laws.pte_at (sp m) addr) e
      → Within s
      → Within (cb m addr e s).1
  callback-Within m addr e s l w =
      let c = w.alike.like m addr in
      record {
        safe = keeps items count m addr e s w.safe;
        alike =
            Alike-trans k laws test sp s.spaces _ w.alike (alike m addr e s (c.0 ∙ l.0, c.1 ∙ l.1));
      }

  candidates-cons :
      (s : State k.Space) (addr : ℕ) (e : Option k.Pte) (es : List (ℕ × Option k.Pte))
      → candidates_of k test s.curr_pid ((addr, e) ∷ es)
        ≡ offer k test s addr e ++ candidates_of k test s.curr_pid es
  candidates-cons s addr e es = ground arith

  walk_entries-Holds :
      (m : ℕ) (f : ℕ → Option k.Pte) (addrs : List ℕ) (s : State k.Space) (xs : List AddrInfo)
      → ((a : ℕ) → Like k laws test (laws.pte_at (sp m) a) (f a))
      → Holds s xs
      → Holds
          (walk_entries k cb m (read_all f addrs) s)
          (xs ++ candidates_of k test s.curr_pid (read_all f addrs))
  unfolding walk_entries
  walk_entries-Holds m f [] s xs l (w, h) = (w, subst (Has s) (sym (append-nil xs)) h)
  walk_entries-Holds m f (a ∷ addrs) s xs l (w, h) =
      let s' = (cb m a (f a) s).1 in
      let w' = callback-Within m a (f a) s (l a) w in
      elim (Bool-cases (found_all k s)) [
        | inl all ↦
            rw (tally.ends m a (f a) s, all)
              (w', tally.stops m a (f a) s _ all (tally.full s xs _ w.safe all h))
        | inr more ↦
            let h' = tally.takes m a (f a) s xs w.safe more h in
            let rest = walk_entries-Holds m f addrs s' _ l (w', h') in
            let same : (xs ++ offer k test s a (f a))
                  ++ candidates_of k test s'.curr_pid (read_all f addrs)
                ≡ xs ++ candidates_of k test s.curr_pid (read_all f (a ∷ addrs)) =
              append_assoc xs _ _
              ∙ ap (λ ys. xs ++ ys)
                  (ap (λ pid. offer k test s a (f a) ++ candidates_of k test pid (read_all f addrs))
                      (tally.same_pid m a (f a) s)
                    ∙ sym (candidates-cons s a (f a) (read_all f addrs))) in
            rw (tally.ends m a (f a) s, more) (rest.0, subst (Has _) same rest.1)
      ]

  range-Holds :
      (m lo hi : ℕ) (s : State k.Space) (xs : List AddrInfo)
      → Holds s xs
      → Holds
          (walk_page_range k cb m lo hi s)
          (xs ++ candidates_of k test s.curr_pid (k.entries (s.spaces m) lo hi))
  unfolding walk_page_range
  range-Holds m lo hi s xs (w, h) = rw (laws.entries-at (s.spaces m) lo hi) (
      walk_entries-Holds m (laws.pte_at (s.spaces m)) (laws.addresses (s.spaces m) lo hi) s xs
        (λ a. let c = w.alike.like m a in (sym c.0, sym c.1)) (w, h))

  set_pid-Holds :
      (s : State k.Space) (pid : ℤ) (xs : List AddrInfo) → Holds s xs → Holds (set_pid s pid) xs
  set_pid-Holds s pid xs (w, h) = (
    record { safe = set_pid-Safe k b n items count s pid w.safe; alike = w.alike },
    tally.enters s pid xs h,
  )

  walk_task-Holds :
      (i lo hi : ℕ) (s : State k.Space) (xs : List AddrInfo)
      → i < count
      → Holds s xs
      → Holds (walk_task k cb i lo hi s) (xs ++ pages_of k test sp (items i) lo hi)
  walk_task-Holds i lo hi s xs lt (w, h) =
      let (t, e) = IsTask-some (items i) (tasks i lt) in
      let here : s.task_items i ≡ some t = ap (λ f. f i) w.safe.same_items ∙ e in
      let v = set_pid-Holds s t.pid xs (w, h) in
      let same = pages_of-Alike k laws test sp s.spaces (some t) lo hi w.alike in
      rw e (
        subst (λ ys. Holds (walk_task k cb i lo hi s) (xs ++ ys)) same
          (elim (Option-cases t.mm) [
            | inl no_mm ↦ rw (walk_task-no_mm k cb i lo hi s t here no_mm) (
                subst (Holds (set_pid s t.pid))
                  (sym (append-nil xs)
                    ∙ ap (◌++◌ xs) (sym (pages_of-no_mm k test s.spaces t lo hi no_mm)))
                  v)
            | inr (m, mm) ↦ rw (walk_task-mm k cb i lo hi s t m here mm) (
                subst (Holds (walk_page_range k cb m lo hi (set_pid s t.pid)))
                  (ap (◌++◌ xs) (sym (pages_of-mm k test s.spaces t lo hi m mm)))
                  (range-Holds m lo hi (set_pid s t.pid) xs v))
          ]))

  is_done-found_all : (s : State k.Space) → Within s → is_done k s ≡ true → found_all k s ≡ true
  is_done-found_all s w e = ground (arith, w.safe.bounded.target, w.safe.bounded.found)

  -- A loop over the tasks that returned has found all that was asked for.
  abbrev Ends : Option ℕ × State k.Space → List AddrInfo → Type 0
  Ends (some i, s) xs = (i < count) × (found_all k s ≡ true) × Holds s xs
  Ends (none, s) xs = Holds s xs

  Ends-more :
      (i : ℕ) (s : State k.Space) (xs ys : List AddrInfo)
      → i < count
      → found_all k s ≡ true
      → Holds s xs
      → Ends (some i, s) (xs ++ ys)
  Ends-more i s xs ys lt all (w, h) = (lt, all, (w, tally.full s xs ys w.safe all h))

  walk_tasks-Ends :
      (rounds i : ℕ) (s : State k.Space) (xs : List AddrInfo)
      → i + rounds ≤ count
      → Holds s xs
      → Ends (walk_tasks k cb rounds i s) (xs ++ pages_from k test sp items rounds i)
  unfolding walk_tasks
  walk_tasks-Ends zero i s xs b h = subst (Holds s) (sym (append-nil xs)) h
  walk_tasks-Ends (suc rounds) i s xs b h =
      let s' = walk_task k cb i 0 max_address s in
      let h' = walk_task-Holds i 0 max_address s xs (omega arith) h in
      let later = pages_from k test sp items rounds (i + 1) in
      let same = append_assoc xs (pages_of k test sp (items i) 0 max_address) later in
      let rest = walk_tasks-Ends rounds (i + 1) s' _ (omega arith) h' in
      elim (Bool-cases (is_done k s')) [
        | inl done ↦ rw done (
            subst (Ends (some i, s')) same
              (Ends-more i s' _ later (omega arith) (is_done-found_all s' h'.0 done) h'))
        | inr more ↦ rw more (subst (Ends (walk_tasks k cb rounds (i + 1) s')) same rest)
      ]

  walk_before-Ends :
      (last_pid : ℕ) (r : Option ℕ × State k.Space) (xs : List AddrInfo)
      → last_pid < count
      → Ends r xs
      → Ends (walk_before k cb last_pid r) (xs ++ pages_from k test sp items last_pid 0)
  unfolding walk_before
  walk_before-Ends last_pid (some i, s) xs lt (b, all, h) = Ends-more i s xs _ b all h
  walk_before-Ends last_pid (none, s) xs lt h = walk_tasks-Ends last_pid 0 s xs (omega arith) h

  finish_cycle-Holds :
      (last_pid last_addr : ℕ) (r : Option ℕ × State k.Space) (xs : List AddrInfo)
      → last_pid < count
      → Ends r xs
      → Holds
          (finish_cycle k cb last_pid last_addr r).1
          (xs ++ pages_of k test sp (items last_pid) 0 (last_addr + 1))
  unfolding finish_cycle
  finish_cycle-Holds last_pid last_addr (some i, s) xs lt (b, all, (w, h)) =
      (w, tally.full s xs _ w.safe all h)
  finish_cycle-Holds last_pid last_addr (none, s) xs lt h =
      walk_task-Holds last_pid 0 (last_addr + 1) s xs lt h

  -- From a slot in use, the walk does with the pages of one cycle what its callback does.
  pub do_page_walk-Holds :
      (last_pid last_addr : ℕ) (s : State k.Space)
      → last_pid < count
      → Holds s []
      → Holds
          (do_page_walk k cb last_pid last_addr s).1
          (cycle k test sp items count last_pid last_addr)
  unfolding do_page_walk
  do_page_walk-Holds last_pid last_addr s lt h =
      let s' = walk_task k cb last_pid last_addr max_address s in
      let h' = walk_task-Holds last_pid last_addr max_address s [] lt h in
      let first = pages_of k test sp (items last_pid) last_addr max_address in
      let behind = pages_from k test sp items (count - (last_pid + 1)) (last_pid + 1) in
      let before = pages_from k test sp items last_pid 0 in
      let again = pages_of k test sp (items last_pid) 0 (last_addr + 1) in
      let same : s'.n_pids ≡ count = h'.0.safe.same_count in
      let after = walk_tasks k cb (s'.n_pids - (last_pid + 1)) (last_pid + 1) s' in
      let rest : Ends after (first ++ behind) =
        subst
          (λ c.
            Ends after (first ++ pages_from k test sp items (c - (last_pid + 1)) (last_pid + 1)))
          same
          (walk_tasks-Ends (s'.n_pids - (last_pid + 1)) (last_pid + 1) s' first (omega arith) h') in
      elim (Bool-cases (is_done k s')) [
        | inl done ↦
            let all = is_done-found_all s' h'.0 done in
            let full =
              λ (xs ys : List AddrInfo) (g : Has s' xs). tally.full s' xs ys h'.0.safe all g in
            rw done (h'.0, full _ again (full _ before (full first behind h'.1)))
        | inr more ↦ rw more (
            finish_cycle-Holds last_pid last_addr (walk_before k cb last_pid after) _ lt
              (walk_before-Ends last_pid after _ lt rest))
      ]
