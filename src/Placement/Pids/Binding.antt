-- ===== src/Placement/Pids/Binding.antt =====
-- `bind_pid` and `unbind_pid` on every branch, as operations on the list of bound processes.
use ambix.Base.{
  ℕ, zero, suc, ◌+◌, ◌-◌, ◌≤◌, ◌<◌, ◌≡◌, refl, sym, ap, subst, ◌∙◌, ◌&&◌, ◌||◌, not, Bool, Option,
  none, some, ℤ, pos, negsuc, pos_part, List, [], ◌∷◌, ◌++◌, true, false, leb, if◌then◌else◌, slice,
  slice-update_end, length, length-slice, arith, Bool-cases, Option-cases, inl, inr,
}
use ambix.Config.{max_pids}
use ambix.Kernel.{Task, Processes}
use ambix.Placement.State.{Pids}
use ambix.Placement.Pids.{
  holds, find_slot, append_task, find_target_process, update_pid_list, is_invalid_pid, bind_pid,
  unbind_pid,
}
use ambix.Placement.Pids.View.{bound, bound-update_pid_list}

-- Whether an element passes the test.
abbrev pub any {ℓ} : {A : Type ℓ} → (A → Bool) → List A → Bool
any test [] = false
any test (x ∷ xs) = if test x then true else any test xs

-- The list without the first element that passes the test.
abbrev pub erase_first {ℓ} : {A : Type ℓ} → (A → Bool) → List A → List A
erase_first test [] = []
erase_first test (x ∷ xs) = if test x then xs else x ∷ erase_first test xs

module _ (items : ℕ → Option Task) (pid : ℤ) where
  find_slot-none :
      (rounds i : ℕ)
      → find_slot items pid rounds i ≡ none
      → any (holds pid) (slice items i rounds) ≡ false
  unfolding find_slot
  find_slot-none zero i e = refl
  find_slot-none (suc rounds) i e = ground (arith, find_slot-none rounds (i + 1))

  -- What the search says of the slot that it finds.
  pub record Finds (rounds i j : ℕ) : Type 0 where
    pub from : i ≤ j
    pub below : j < i + rounds
    pub has : any (holds pid) (slice items i rounds) ≡ true
    pub rest :
        erase_first (holds pid) (slice items i rounds)
        ≡ slice items i (j - i) ++ slice items (j + 1) (i + rounds - 1 - j)

  here-Finds : (rounds i : ℕ) → holds pid (items i) ≡ true → Finds (suc rounds) i i
  here-Finds rounds i hit =
      let z : i - i ≡ 0 = omega arith in
      let n : i + suc rounds - 1 - i ≡ rounds = omega arith in
      record { from = omega arith; below = omega arith; has = rw hit; rest = rw (hit, z, n) }

  later-Finds :
      (rounds i j : ℕ)
      → holds pid (items i) ≡ false
      → Finds rounds (i + 1) j
      → Finds (suc rounds) i j
  later-Finds rounds i j miss f =
      let from : i + 1 ≤ j = f.from in
      let below : j < i + 1 + rounds = f.below in
      let z : j - i ≡ suc (j - (i + 1)) = omega arith in
      let n : i + suc rounds - 1 - j ≡ i + 1 + rounds - 1 - j = omega arith in
      record {
        from = omega arith;
        below = omega arith;
        has = rw miss (f.has);
        rest = rw (miss, z, n) (ap (◌∷◌ (items i)) f.rest);
      }

  pub find_slot-some : (rounds i j : ℕ) → find_slot items pid rounds i ≡ some j → Finds rounds i j
  unfolding find_slot
  find_slot-some zero i j e = cc
  find_slot-some (suc rounds) i j e = elim (Bool-cases (holds pid (items i))) [
    | inl hit ↦
        let here : i ≡ j = ground arith in
        subst (Finds (suc rounds) i) here (here-Finds rounds i hit)
    | inr miss ↦ later-Finds rounds i j miss (find_slot-some rounds (i + 1) j (ground arith))
  ]

erase_first-of_not_any {ℓ} :
    {A : Type ℓ} (test : A → Bool) (xs : List A) → any test xs ≡ false → erase_first test xs ≡ xs
erase_first-of_not_any test [] h = refl
erase_first-of_not_any test (x ∷ xs) h = ground (arith, erase_first-of_not_any test xs)

unbind_pid-invalid :
    (pid : ℤ) (p : Pids) → is_invalid_pid pid ≡ true → unbind_pid pid p ≡ (negsuc 0, p)
unfolding unbind_pid
unbind_pid-invalid pid p e = rw e

unbind_pid-absent :
    (pid : ℤ) (p : Pids)
    → is_invalid_pid pid ≡ false
    → find_slot p.task_items pid p.n_pids 0 ≡ none
    → unbind_pid pid p ≡ (negsuc 0, p)
unfolding unbind_pid
unbind_pid-absent pid p e f = ground arith

unbind_pid-present :
    (pid : ℤ) (p : Pids) (i : ℕ)
    → is_invalid_pid pid ≡ false
    → find_slot p.task_items pid p.n_pids 0 ≡ some i
    → unbind_pid pid p ≡ (pos 0, update_pid_list i p)
unfolding unbind_pid
unbind_pid-present pid p i e f = ground arith

-- `unbind_pid` refuses a pid out of range or not bound, and leaves the list alone; otherwise it
-- returns 0 and removes the pid's first slot, leaving the order of the others.
pub unbind_pid_lem :
    (pid : ℤ) (p : Pids)
    → ((unbind_pid pid p).0
        ≡ (if not (is_invalid_pid pid) && any (holds pid) (bound p) then pos 0 else negsuc 0))
      × (bound (unbind_pid pid p).1
          ≡ (if is_invalid_pid pid then bound p else erase_first (holds pid) (bound p)))
unbind_pid_lem pid p = elim (Bool-cases (is_invalid_pid pid)) [
  | inl bad ↦ rw (unbind_pid-invalid pid p bad, bad) (refl, refl)
  | inr good ↦ elim (Option-cases (find_slot p.task_items pid p.n_pids 0)) [
    | inl e ↦
        let none_has = find_slot-none p.task_items pid p.n_pids 0 e in
        rw (unbind_pid-absent pid p good e, good, none_has)
          (refl, sym (erase_first-of_not_any (holds pid) (bound p) none_has))
    | inr (j, e) ↦
        let f = find_slot-some p.task_items pid p.n_pids 0 j e in
        rw (unbind_pid-present pid p j good e, good, f.has) (refl, bound-erased pid p j f)
  ]
]
  where
    bound-erased :
        (pid : ℤ) (p : Pids) (j : ℕ)
        → Finds p.task_items pid p.n_pids 0 j
        → bound (update_pid_list j p) ≡ erase_first (holds pid) (bound p)
    bound-erased pid p j f =
        let below : j < 0 + p.n_pids = f.below in
        let z : j - 0 ≡ j = omega arith in
        let n : 0 + p.n_pids - 1 - j ≡ p.n_pids - 1 - j = omega arith in
        bound-update_pid_list p j (omega arith) ∙ sym (rw (z, n) at f.rest)

bound-append_task : (p : Pids) (t : Task) → bound (append_task p t) ≡ bound p ++ some t ∷ []
bound-append_task p t = slice-update_end p.task_items p.n_pids (some t)

-- The task that a request to bind a pid brings to a list of bound processes: none for an invalid
-- pid, a full list, a pid bound already, and one that the kernel does not know.
unfoldable pub accepted : Processes → ℤ → List (Option Task) → Option Task
accepted ps pid xs =
    if is_invalid_pid pid
      || leb max_pids (length xs)
      || any (holds pid) xs
      || not (ps.find_get_pid pid)
    then none
    else ps.get_pid_task pid

pub accepted-some :
    (ps : Processes) (pid : ℤ) (xs : List (Option Task)) (t : Task)
    → accepted ps pid xs ≡ some t
    → (0 < pos_part pid)
      × (length xs < max_pids)
      × (any (holds pid) xs ≡ false)
      × (ps.get_pid_task pid ≡ some t)
unfolding accepted is_invalid_pid
accepted-some ps pid xs t e = ground arith

abbrev pub bound_after : List (Option Task) → Option Task → List (Option Task)
bound_after xs none = xs
bound_after xs (some t) = xs ++ some t ∷ []

abbrev pub retval_after : Option Task → ℤ
retval_after none = negsuc 0
retval_after (some t) = pos 0

abbrev pub pids_after : Pids → Option Task → Pids
pids_after p none = p
pids_after p (some t) = append_task p t

pub bind_pid-accepted :
    (ps : Processes) (pid : ℤ) (p : Pids)
    → bind_pid ps pid p
      ≡ (retval_after (accepted ps pid (bound p)), pids_after p (accepted ps pid (bound p)))
unfolding bind_pid find_target_process accepted
bind_pid-accepted ps pid p = elim (Option-cases (find_slot p.task_items pid p.n_pids 0)) [
  | inl e ↦
      let absent = find_slot-none p.task_items pid p.n_pids 0 e in
      ground (arith, length-slice p.task_items 0 p.n_pids)
  | inr (j, e) ↦
      let f = find_slot-some p.task_items pid p.n_pids 0 j e in
      let has : any (holds pid) (bound p) ≡ true = f.has in
      ground (arith, length-slice p.task_items 0 p.n_pids)
]

-- `bind_pid` returns 0 exactly when the request is accepted, and then adds the task behind the
-- others; otherwise it returns -1 and leaves the list alone.
pub bind_pid_lem :
    (ps : Processes) (pid : ℤ) (p : Pids)
    → ((bind_pid ps pid p).0 ≡ retval_after (accepted ps pid (bound p)))
      × (bound (bind_pid ps pid p).1 ≡ bound_after (bound p) (accepted ps pid (bound p)))
bind_pid_lem ps pid p = elim (Option-cases (accepted ps pid (bound p))) [
  | inl e ↦ rw (bind_pid-accepted ps pid p, e) (refl, refl)
  | inr (t, e) ↦ rw (bind_pid-accepted ps pid p, e) (refl, bound-append_task p t)
]
