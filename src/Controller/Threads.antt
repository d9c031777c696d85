-- ===== src/Controller/Threads.antt =====
-- src/ambix_hyb-ctl.c: the threads that `main` starts, and the locks `placement_lock` and `comm_lock`.
-- A thread's work is a list of jobs: a BIND or UNBIND (one `send_req`), or a section with
-- `placement_lock` held, with so many calls of `send_find` (each with one `send_req`, which holds
-- `comm_lock`). On a connection, `process_socket` gets its jobs one by one, as long as the client sends
-- requests, whether `exit_sig` is set or not. Every system call returns, the `read` on a connection too.
pub mod Locks
pub mod Exit
use ambix.Base.{
  ℕ, zero, suc, ◌+◌, ◌*◌, ◌≡◌, Bool, true, false, not, Option, none, some, List, [], ◌∷◌,
  if◌then◌else◌,
}

pub data Thread : Type 0 where
  stdin_thread : Thread
  socket_thread : Thread
  memcheck_thread : Thread

abbrev pub same_thread : Thread → Thread → Bool
same_thread stdin_thread stdin_thread = true
same_thread socket_thread socket_thread = true
same_thread memcheck_thread memcheck_thread = true
same_thread stdin_thread socket_thread = false
same_thread stdin_thread memcheck_thread = false
same_thread socket_thread stdin_thread = false
same_thread socket_thread memcheck_thread = false
same_thread memcheck_thread stdin_thread = false
same_thread memcheck_thread socket_thread = false

pub data Job : Type 0 where
  bind_job : Job
  find_section : ℕ → Job

-- Where a thread stands: at the head of its loop; with jobs to do; waiting for `comm_lock` or holding
-- it, for a BIND or an UNBIND; waiting for `placement_lock`; holding it, with so many FINDs to do;
-- holding it and waiting for `comm_lock`; holding both; or returned.
pub data Phase : Type 0 where
  idle : Phase
  works : List Job → Phase
  waits_comm : List Job → Phase
  sends : List Job → Phase
  waits_placement : ℕ → List Job → Phase
  locked : ℕ → List Job → Phase
  locked_waits : ℕ → List Job → Phase
  locked_sends : ℕ → List Job → Phase
  ended : Phase

-- The locks by their owners, and the requests that were read from connections so far.
pub record State : Type 0 where
  pub phases : Thread → Phase
  pub placement_lock : Option Thread
  pub comm_lock : Option Thread
  pub exit_sig : Bool
  pub requests : ℕ

abbrev pub set_phase : State → Thread → Phase → State
set_phase s th p = record s { phases = λ a. if same_thread th a then p else s.phases a }

-- `main` has started the threads.
abbrev pub main_state : State
main_state = record {
  phases = λ a. idle;
  placement_lock = none;
  comm_lock = none;
  exit_sig = false;
  requests = 0;
}

-- What one round of a thread's loop can do: a command line; a connection, of which nothing is read yet; a round of
-- `memcheck_placement`, where a high bandwidth leads to a section with two FINDs and the usage to one.
pub data CanDo : Thread → List Job → Type 0 where
  no_command : CanDo stdin_thread []
  bind_command : CanDo stdin_thread (bind_job ∷ [])
  send_command : CanDo stdin_thread (find_section 1 ∷ [])
  connection : CanDo socket_thread []
  nothing_due : CanDo memcheck_thread []
  switch_due : CanDo memcheck_thread (find_section 2 ∷ [])
  thresh_due : CanDo memcheck_thread (find_section 1 ∷ [])
  both_due : CanDo memcheck_thread (find_section 2 ∷ find_section 1 ∷ [])

-- The condition of a thread's loop: `!exit_sig` but for `process_stdin`.
abbrev pub runs_on : Thread → Bool → Bool
runs_on stdin_thread e = true
runs_on socket_thread e = not e
runs_on memcheck_thread e = not e

pub data Step (s : State) : State → Type 0 where
  begins :
      (th : Thread) (js : List Job)
      → CanDo th js
      → s.phases th ≡ idle
      → runs_on th s.exit_sig ≡ true
      → Step s (set_phase s th (works js))
  -- `while ((rd = read(acc, …)) == sizeof(req_t))`: the client has sent one more BIND or UNBIND.
  reads :
      s.phases socket_thread ≡ works []
      → Step s
          (record (set_phase s socket_thread (works (bind_job ∷ []))) { requests = s.requests + 1 })
  -- The request is of another kind.
  reads_other :
      s.phases socket_thread ≡ works []
      → Step s (record (set_phase s socket_thread (works [])) { requests = s.requests + 1 })
  -- A round ends; on a connection, `read` meets its end or returns a part of a request.
  rests : (th : Thread) → s.phases th ≡ works [] → Step s (set_phase s th idle)
  starts_bind :
      (th : Thread) (js : List Job)
      → s.phases th ≡ works (bind_job ∷ js)
      → Step s (set_phase s th (waits_comm js))
  takes_comm :
      (th : Thread) (js : List Job)
      → s.phases th ≡ waits_comm js
      → s.comm_lock ≡ none
      → Step s (record (set_phase s th (sends js)) { comm_lock = some th })
  drops_comm :
      (th : Thread) (js : List Job)
      → s.phases th ≡ sends js
      → Step s (record (set_phase s th (works js)) { comm_lock = none })
  starts_section :
      (th : Thread) (n : ℕ) (js : List Job)
      → s.phases th ≡ works (find_section n ∷ js)
      → Step s (set_phase s th (waits_placement n js))
  takes_placement :
      (th : Thread) (n : ℕ) (js : List Job)
      → s.phases th ≡ waits_placement n js
      → s.placement_lock ≡ none
      → Step s (record (set_phase s th (locked n js)) { placement_lock = some th })
  starts_find :
      (th : Thread) (n : ℕ) (js : List Job)
      → s.phases th ≡ locked (suc n) js
      → Step s (set_phase s th (locked_waits n js))
  takes_comm_locked :
      (th : Thread) (n : ℕ) (js : List Job)
      → s.phases th ≡ locked_waits n js
      → s.comm_lock ≡ none
      → Step s (record (set_phase s th (locked_sends n js)) { comm_lock = some th })
  drops_comm_locked :
      (th : Thread) (n : ℕ) (js : List Job)
      → s.phases th ≡ locked_sends n js
      → Step s (record (set_phase s th (locked n js)) { comm_lock = none })
  drops_placement :
      (th : Thread) (js : List Job)
      → s.phases th ≡ locked 0 js
      → Step s (record (set_phase s th (works js)) { placement_lock = none })
  -- `exit`, or the end of the input
  exits :
      s.phases stdin_thread ≡ idle
      → Step s (record (set_phase s stdin_thread ended) { exit_sig = true })
  stops :
      (th : Thread)
      → s.phases th ≡ idle
      → runs_on th s.exit_sig ≡ false
      → Step s (set_phase s th ended)
  -- An error of `read`
  fails : s.phases socket_thread ≡ works [] → Step s (set_phase s socket_thread ended)
  -- An error of `select`, or of a call before the loop
  fails_idle : s.phases socket_thread ≡ idle → Step s (set_phase s socket_thread ended)

-- So many steps.
pub data Run (s : State) : ℕ → State → Type 0 where
  here : Run s 0 s
  next : {n : ℕ} {t u : State} → Run s n t → Step t u → Run s (n + 1) u
