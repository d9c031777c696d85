-- ===== src/Controller/Commands.antt =====
-- src/ambix_hyb-ctl.c: `process_stdin`. The result is the calls that it makes, in order, and the flags
-- that it leaves for `memcheck_placement`. At its end it sets `exit_sig`.
use Prim.Native.String.{String}
use text.Mathlib.Text.{◌==◌ as ◌eq◌}
use ambix.Base.{
  ◌-◌, ◌%◌, ◌^◌, ◌&&◌, Bool, List, [], ◌∷◌, ◌++◌, ℤ, pos, negsuc, ltb_ℤ, ◌-ℤ◌, if◌then◌else◌,
}
use ambix.Config.{
  max_pid_n, max_n_switch, int_min, dram_mode, nvram_mode, nvram_write_mode, switch_mode,
}
use ambix.Controller.Migration.{to_int}

-- A call of `send_bind`, `send_unbind` or `send_find`.
pub data Call : Type 0 where
  call_bind : ℤ → Call
  call_unbind : ℤ → Call
  call_find : ℤ → ℤ → Call

pub record Flags : Type 0 where
  pub switch_act : ℤ
  pub thresh_act : ℤ

-- The conversion of a `long` to `int`.
unfoldable pub int_of_long : ℤ → ℤ
int_of_long (pos n) = to_int n
int_of_long (negsuc n) = to_int (2 ^ 32 - 1 - n % 2 ^ 32)

-- `(pid>0) && (pid<MAX_PID_N)`
abbrev pub is_pid : ℤ → Bool
is_pid pid = ltb_ℤ (pos 0) pid && ltb_ℤ pid (pos max_pid_n)

abbrev pub toggle : ℤ → ℤ
toggle act = pos 1 -ℤ act

-- `strtok` gives the words of a line that a space separates, `strtol` the number that a word begins with;
-- both are C's.
module _ (strtok : String → List String) (strtol : String → ℤ) where
  unfoldable pub bind_command : List String → List Call
  bind_command [] = []
  bind_command (word ∷ words) =
      let pid = strtol word in if is_pid pid then call_bind (int_of_long pid) ∷ [] else []

  unfoldable pub unbind_command : List String → List Call
  unbind_command [] = []
  unbind_command (word ∷ words) =
      let pid = strtol word in if is_pid pid then call_unbind (int_of_long pid) ∷ [] else []

  unfoldable pub send_command : List String → List Call
  send_command [] = []
  send_command (word ∷ []) = []
  send_command (word ∷ tier ∷ words) =
      let n = int_of_long (strtol word) in
      if tier eq "dram\n"
      then call_find n nvram_mode ∷ []
      else if tier eq "nvram\n"
      then call_find n dram_mode ∷ []
      else if tier eq "dramwr\n"
      then call_find n nvram_write_mode ∷ []
      else []

  -- `fmin` takes the count through a `double`, which changes a negative one below -2^53; that is
  -- left out.
  unfoldable pub switch_command : List String → List Call
  switch_command [] = []
  switch_command (word ∷ words) =
      call_find (int_of_long (int_min (strtol word) (pos max_n_switch))) switch_mode ∷ []

  unfoldable pub toggle_command : List String → Flags → Flags
  toggle_command [] f = f
  toggle_command (word ∷ words) f =
      if word eq "switch\n"
      then record f { switch_act = toggle f.switch_act }
      else if word eq "thresh\n"
      then record f { thresh_act = toggle f.thresh_act }
      else if word eq "all\n"
      then record { switch_act = toggle f.switch_act; thresh_act = toggle f.thresh_act }
      else f

  -- One round of the loop, on the words of a line. Messages and the clearing of the screen leave
  -- no trace.
  unfoldable pub run_command : List String → Flags → List Call × Flags
  run_command [] f = ([], f)
  run_command (word ∷ words) f =
      if word eq "bind"
      then (bind_command words, f)
      else if word eq "unbind"
      then (unbind_command words, f)
      else if word eq "send"
      then (send_command words, f)
      else if word eq "switch"
      then (switch_command words, f)
      else if word eq "toggle"
      then ([], toggle_command words f)
      else ([], f)

  -- The lines are those that `fgets` reads until the input ends.
  unfoldable pub process_stdin : List String → Flags → List Call × Flags
  process_stdin [] f = ([], f)
  process_stdin (line ∷ lines) f =
      let r = run_command (strtok line) f in
      let rest = process_stdin lines r.1 in
      if line eq "exit\n" then ([], f) else (r.0 ++ rest.0, rest.1)
