-- ===== src/Controller/Threads/Locks.antt =====
-- The locks belong to the threads that are in their sections, so that no two threads are in one.
use ambix.Base.{
  ℕ, ◌≡◌, refl, sym, ap, ◌∙◌, Bool, true, false, Option, none, some, [], ◌∷◌, ◌+◌, arith,
  Bool-cases, inl, inr,
}
use ambix.Controller.Threads.{
  Thread, stdin_thread, socket_thread, memcheck_thread, same_thread, runs_on, bind_job, Phase, idle,
  works, waits_comm, sends, waits_placement, locked, locked_waits, locked_sends, ended, State,
  set_phase, main_state, Step, Run,
}

-- Whether a thread uses the array `candidates`, for which it needs `placement_lock`.
abbrev pub in_section : Phase → Bool
in_section idle = false
in_section (works js) = false
in_section (waits_comm js) = false
in_section (sends js) = false
in_section (waits_placement n js) = false
in_section (locked n js) = true
in_section (locked_waits n js) = true
in_section (locked_sends n js) = true
in_section ended = false

-- Whether a thread is in `send_req` with the buffers, for which it needs `comm_lock`.
abbrev pub in_send_req : Phase → Bool
in_send_req idle = false
in_send_req (works js) = false
in_send_req (waits_comm js) = false
in_send_req (sends js) = true
in_send_req (waits_placement n js) = false
in_send_req (locked n js) = false
in_send_req (locked_waits n js) = false
in_send_req (locked_sends n js) = true
in_send_req ended = false

abbrev pub is_ended : Phase → Bool
is_ended idle = false
is_ended (works js) = false
is_ended (waits_comm js) = false
is_ended (sends js) = false
is_ended (waits_placement n js) = false
is_ended (locked n js) = false
is_ended (locked_waits n js) = false
is_ended (locked_sends n js) = false
is_ended ended = true

abbrev pub owns : Option Thread → Thread → Bool
owns none a = false
owns (some th) a = same_thread th a

-- Each lock is held by the thread in its section, and `exit_sig` is set by the end of `process_stdin`.
pub record Owned (s : State) : Type 0 where
  pub placement : (a : Thread) → in_section (s.phases a) ≡ owns s.placement_lock a
  pub comm : (a : Thread) → in_send_req (s.phases a) ≡ owns s.comm_lock a
  pub exit : is_ended (s.phases stdin_thread) ≡ s.exit_sig

pub main_state-Owned : Owned main_state
main_state-Owned = record { placement = λ a. refl; comm = λ a. refl; exit = refl }

same-thread : (a b : Thread) → same_thread a b ≡ true → a ≡ b
same-thread stdin_thread stdin_thread e = refl
same-thread socket_thread socket_thread e = refl
same-thread memcheck_thread memcheck_thread e = refl
same-thread stdin_thread socket_thread e = ground (arith, e)
same-thread stdin_thread memcheck_thread e = ground (arith, e)
same-thread socket_thread stdin_thread e = ground (arith, e)
same-thread socket_thread memcheck_thread e = ground (arith, e)
same-thread memcheck_thread stdin_thread e = ground (arith, e)
same-thread memcheck_thread socket_thread e = ground (arith, e)

pub same_thread_refl : (a : Thread) → same_thread a a ≡ true
same_thread_refl stdin_thread = refl
same_thread_refl socket_thread = refl
same_thread_refl memcheck_thread = refl

-- What a step of a thread does to a lock: the thread owns it then or not, and for the others nothing
-- changes.
abbrev Moves : Option Thread → Option Thread → Thread → Bool → Type 0
Moves old new th b =
    (owns new th ≡ b) × ((a : Thread) → same_thread th a ≡ false → owns new a ≡ owns old a)

keep-Moves : (old : Option Thread) (th : Thread) (b : Bool) → owns old th ≡ b → Moves old old th b
keep-Moves old th b e = (e, λ a ne. refl)

take-Moves : (old : Option Thread) (th : Thread) → old ≡ none → Moves old (some th) th true
take-Moves old th e = (same_thread_refl th, λ a ne. rw e ne)

drop-Moves : (old : Option Thread) (th : Thread) → owns old th ≡ true → Moves old none th false
drop-Moves none th e = (refl, λ a ne. refl)
drop-Moves (some b) th e = (refl, λ a ne. let d = same-thread b th e in rw d (sym ne))

step-Owned :
    (s : State) (th : Thread) (q : Phase) (pl co : Option Thread) (e : Bool)
    → Moves s.placement_lock pl th (in_section q)
    → Moves s.comm_lock co th (in_send_req q)
    → (same_thread th stdin_thread ≡ true → is_ended q ≡ e)
    → (same_thread th stdin_thread ≡ false → s.exit_sig ≡ e)
    → Owned s
    → Owned (record (set_phase s th q) { placement_lock = pl; comm_lock = co; exit_sig = e })
step-Owned s th q pl co e mp mc x y o = record {
  placement = λ a. elim (Bool-cases (same_thread th a)) [
    | inl same ↦ let d = same-thread th a same in rw (same, ← d) (sym mp.0)
    | inr other ↦ rw other (o.placement a ∙ sym (mp.1 a other))
  ];
  comm = λ a. elim (Bool-cases (same_thread th a)) [
    | inl same ↦ let d = same-thread th a same in rw (same, ← d) (sym mc.0)
    | inr other ↦ rw other (o.comm a ∙ sym (mc.1 a other))
  ];
  exit = elim (Bool-cases (same_thread th stdin_thread)) [
    | inl same ↦ rw same (x same)
    | inr other ↦ rw other (o.exit ∙ y other)
  ];
}

module _ (s : State) (o : Owned s) (th : Thread) (p : Phase) (e : s.phases th ≡ p) where
  owns_placement : owns s.placement_lock th ≡ in_section p
  owns_placement = sym (o.placement th) ∙ ap in_section e

  owns_comm : owns s.comm_lock th ≡ in_send_req p
  owns_comm = sym (o.comm th) ∙ ap in_send_req e

  ended-exit : same_thread th stdin_thread ≡ true → is_ended p ≡ s.exit_sig
  ended-exit same =
      let d = same-thread th stdin_thread same in
      ap is_ended (sym e) ∙ ap (λ a. is_ended (s.phases a)) d ∙ o.exit

  -- A step that leaves the locks alone.
  stay-Owned :
      (q : Phase)
      → in_section p ≡ in_section q
      → in_send_req p ≡ in_send_req q
      → (same_thread th stdin_thread ≡ true → is_ended q ≡ is_ended p)
      → Owned (set_phase s th q)
  stay-Owned q l c x =
      step-Owned s th q s.placement_lock s.comm_lock s.exit_sig
        (keep-Moves s.placement_lock th (in_section q) (owns_placement ∙ l))
        (keep-Moves s.comm_lock th (in_send_req q) (owns_comm ∙ c))
        (λ same. x same ∙ ended-exit same) (λ other. refl) o

  -- A step that moves `comm_lock`, or `placement_lock`.
  comm-Owned :
      (q : Phase) (co : Option Thread)
      → in_section p ≡ in_section q
      → Moves s.comm_lock co th (in_send_req q)
      → is_ended q ≡ is_ended p
      → Owned (record (set_phase s th q) { comm_lock = co })
  comm-Owned q co l m x =
      step-Owned s th q s.placement_lock co s.exit_sig
        (keep-Moves s.placement_lock th (in_section q) (owns_placement ∙ l)) m
        (λ same. x ∙ ended-exit same) (λ other. refl) o

  placement-Owned :
      (q : Phase) (pl : Option Thread)
      → in_send_req p ≡ in_send_req q
      → Moves s.placement_lock pl th (in_section q)
      → is_ended q ≡ is_ended p
      → Owned (record (set_phase s th q) { placement_lock = pl })
  placement-Owned q pl c m x =
      step-Owned s th q pl s.comm_lock s.exit_sig m
        (keep-Moves s.comm_lock th (in_send_req q) (owns_comm ∙ c)) (λ same. x ∙ ended-exit same)
        (λ other. refl) o

not_stdin : (th : Thread) (e : Bool) → runs_on th e ≡ false → ¬ (same_thread th stdin_thread ≡ true)
not_stdin stdin_thread e r same = ground (arith, r)
not_stdin socket_thread e r same = ground (arith, same)
not_stdin memcheck_thread e r same = ground (arith, same)

-- The count of the requests has no owner.
counted-Owned : (s : State) (n : ℕ) → Owned s → Owned (record s { requests = n })
counted-Owned s n o = record { placement = o.placement; comm = o.comm; exit = o.exit }

pub Step-Owned : {s t : State} → Step s t → Owned s → Owned t
Step-Owned {s} (Step.begins th js c e r) o =
    stay-Owned s o th idle e (works js) refl refl (λ same. refl)
Step-Owned {s} (Step.reads e) o =
    counted-Owned (set_phase s socket_thread (works (bind_job ∷ []))) (s.requests + 1)
      (stay-Owned s o socket_thread _ e (works (bind_job ∷ [])) refl refl (λ same. refl))
Step-Owned {s} (Step.reads_other e) o =
    counted-Owned (set_phase s socket_thread (works [])) (s.requests + 1)
      (stay-Owned s o socket_thread _ e (works []) refl refl (λ same. refl))
Step-Owned {s} (Step.rests th e) o = stay-Owned s o th (works []) e idle refl refl (λ same. refl)
Step-Owned {s} (Step.starts_bind th js e) o =
    stay-Owned s o th _ e (waits_comm js) refl refl (λ same. refl)
Step-Owned {s} (Step.takes_comm th js e free) o =
    comm-Owned s o th _ e (sends js) (some th) refl (take-Moves s.comm_lock th free) refl
Step-Owned {s} (Step.drops_comm th js e) o =
    comm-Owned s o th _ e (works js) none refl (drop-Moves s.comm_lock th (owns_comm s o th _ e))
      refl
Step-Owned {s} (Step.starts_section th n js e) o =
    stay-Owned s o th _ e (waits_placement n js) refl refl (λ same. refl)
Step-Owned {s} (Step.takes_placement th n js e free) o =
    placement-Owned s o th _ e (locked n js) (some th) refl (take-Moves s.placement_lock th free)
      refl
Step-Owned {s} (Step.starts_find th n js e) o =
    stay-Owned s o th _ e (locked_waits n js) refl refl (λ same. refl)
Step-Owned {s} (Step.takes_comm_locked th n js e free) o =
    comm-Owned s o th _ e (locked_sends n js) (some th) refl (take-Moves s.comm_lock th free) refl
Step-Owned {s} (Step.drops_comm_locked th n js e) o =
    comm-Owned s o th _ e (locked n js) none refl (drop-Moves s.comm_lock th (owns_comm s o th _ e))
      refl
Step-Owned {s} (Step.drops_placement th js e) o =
    placement-Owned s o th _ e (works js) none refl
      (drop-Moves s.placement_lock th (owns_placement s o th _ e)) refl
Step-Owned {s} (Step.exits e) o =
    step-Owned s stdin_thread ended s.placement_lock s.comm_lock true
      (keep-Moves s.placement_lock stdin_thread false (owns_placement s o stdin_thread idle e))
      (keep-Moves s.comm_lock stdin_thread false (owns_comm s o stdin_thread idle e)) (λ same. refl)
      (λ other. absurd (ground (arith, other))) o
Step-Owned {s} (Step.stops th e r) o =
    stay-Owned s o th idle e ended refl refl (λ same. absurd (not_stdin th s.exit_sig r same))
Step-Owned {s} (Step.fails e) o =
    stay-Owned s o socket_thread _ e ended refl refl (λ same. absurd (ground (arith, same)))
Step-Owned {s} (Step.fails_idle e) o =
    stay-Owned s o socket_thread _ e ended refl refl (λ same. absurd (ground (arith, same)))

pub Run-Owned : {s : State} {n : ℕ} {t : State} → Run s n t → Owned s → Owned t
Run-Owned Run.here o = o
Run-Owned (Run.next r st) o = Step-Owned st (Run-Owned r o)

one_owner : (lock : Option Thread) (a b : Thread) → owns lock a ≡ true → owns lock b ≡ true → a ≡ b
one_owner none a b x y = absurd (ground (arith, x))
one_owner (some th) a b x y = sym (same-thread th a x) ∙ same-thread th b y

-- However the threads interleave: two threads that have the candidates of a FIND to migrate are the
-- same thread, and so are two that are in `send_req` with the buffers.
pub exclusive :
    {n : ℕ} {s : State}
    → Run main_state n s
    → (a b : Thread)
    → (in_section (s.phases a) ≡ true → in_section (s.phases b) ≡ true → a ≡ b)
      × (in_send_req (s.phases a) ≡ true → in_send_req (s.phases b) ≡ true → a ≡ b)
exclusive {s = s} r a b =
    let o = Run-Owned r main_state-Owned in
    (
      λ x y. one_owner s.placement_lock a b (sym (o.placement a) ∙ x) (sym (o.placement b) ∙ y),
      λ x y. one_owner s.comm_lock a b (sym (o.comm a) ∙ x) (sym (o.comm b) ∙ y),
    )
