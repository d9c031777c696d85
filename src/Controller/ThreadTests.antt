-- ===== src/Controller/ThreadTests.antt =====
-- The theorems on the controller's threads, on a short run.
use ambix.Base.{◌≡◌, refl, true, some, [], ◌∷◌}
use ambix.Controller.Threads.{
  stdin_thread, memcheck_thread, find_section, State, set_phase, main_state, works, waits_placement,
  locked, ended, CanDo, Step, Run,
}
use ambix.Controller.Threads.Locks.{in_section, in_send_req, exclusive}

-- The loop of the controller takes the lock, while a `send` command waits for it.
abbrev s1 : State
s1 = set_phase main_state stdin_thread (works (find_section 1 ∷ []))

abbrev s2 : State
s2 = set_phase s1 memcheck_thread (works (find_section 2 ∷ []))

abbrev s3 : State
s3 = set_phase s2 stdin_thread (waits_placement 1 [])

abbrev s4 : State
s4 = set_phase s3 memcheck_thread (waits_placement 2 [])

abbrev s5 : State
s5 = record (set_phase s4 memcheck_thread (locked 2 [])) { placement_lock = some memcheck_thread }

waiting-Run : Run main_state 5 s5
waiting-Run =
    Run.next
      (Run.next
        (Run.next
          (Run.next (Run.next Run.here (Step.begins stdin_thread _ CanDo.send_command refl refl))
            (Step.begins memcheck_thread _ CanDo.switch_due refl refl))
          (Step.starts_section stdin_thread 1 [] refl))
        (Step.starts_section memcheck_thread 2 [] refl))
      (Step.takes_placement memcheck_thread 2 [] refl refl)

exclusive_example :
    (in_section (s5.phases memcheck_thread) ≡ true
      → in_section (s5.phases memcheck_thread) ≡ true
      → memcheck_thread ≡ memcheck_thread)
    × (in_send_req (s5.phases memcheck_thread) ≡ true
        → in_send_req (s5.phases memcheck_thread) ≡ true
        → memcheck_thread ≡ memcheck_thread)
exclusive_example = exclusive waiting-Run memcheck_thread memcheck_thread

-- `exit` is typed while the loop of the controller is in a round.
abbrev e2 : State
e2 =
    record (set_phase (set_phase main_state memcheck_thread (works (find_section 2 ∷ [])))
      stdin_thread ended) { exit_sig = true }
