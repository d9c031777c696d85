-- ===== src/Controller/Bind.antt =====
-- `send_bind` and `send_unbind` through to the module and back.
use ambix.Base.{
  ℕ, keep, ◌≡◌, refl, ap, ◌∙◌, Bool, true, false, not, ◌&&◌, Option, none, some, ℤ, pos, negsuc,
  ◌==ℤ◌, if◌then◌else◌, arith, List, ltb,
}
use ambix.Config.{AddrInfo, Req}
use ambix.Kernel.{Kernel, Processes, Task}
use ambix.Placement.State.{State}
use ambix.Placement.Pids.{holds, is_alive, is_invalid_pid, refresh_pids, bind_pid, unbind_pid}
use ambix.Placement.Pids.View.{bound, refresh_pids_lem}
use ambix.Placement.Pids.Binding.{
  accepted, retval_after, bound_after, bind_pid_lem, any, erase_first, unbind_pid_lem,
}
use ambix.Placement.Request.{dispatch, put_result, process_req}
use ambix.Placement.Reply.{placement_nl_process_msg}
use ambix.Netlink.{Message}
use ambix.Controller.Comm.{send_req, send_bind, send_unbind, bind_req, unbind_req}
use ambix.Controller.RoundTrip.{send_req-process_msg}

abbrev pub is_some {ℓ} : {A : Type ℓ} → Option A → Bool
is_some none = false
is_some (some a) = true

is_zero-retval_after : (t : Option Task) → (retval_after t ==ℤ pos 0) ≡ is_some t
is_zero-retval_after none = refl
is_zero-retval_after (some t) = refl

is_zero-if : (b : Bool) → ((if b then pos 0 else negsuc 0) ==ℤ pos 0) ≡ b
is_zero-if true = refl
is_zero-if false = refl

module _ (k : Kernel) (ps : Processes) (s : State k.Space) (mode pid : ℤ) where
  -- What the module answers, and the state that it is left in.
  abbrev pub answer_of : Req → List Message
  answer_of r = (placement_nl_process_msg k ps true (some r) s).0

  abbrev pub state_after : Req → State k.Space
  state_after r = (placement_nl_process_msg k ps true (some r) s).1

  process_bind :
      let s' = process_req k ps (some (bind_req pid mode)) s in
      (s'.n_found ≡ 1)
      × ((s'.found_addrs 0).pid_retval ≡ (bind_pid ps pid (refresh_pids ps s.pids)).0)
      × (s'.pids ≡ (bind_pid ps pid (refresh_pids ps s.pids)).1)
  unfolding process_req dispatch put_result
  process_bind = (refl, refl, refl)

  process_unbind :
      let s' = process_req k ps (some (unbind_req pid mode)) s in
      (s'.n_found ≡ 1)
      × ((s'.found_addrs 0).pid_retval ≡ (unbind_pid pid s.pids).0)
      × (s'.pids ≡ refresh_pids ps (unbind_pid pid s.pids).1)
  unfolding process_req dispatch put_result
  process_unbind = (refl, refl, refl)

  first_entry :
      (req : Req) (out : ℕ → AddrInfo)
      → (process_req k ps (some req) s).n_found ≡ 1
      → (send_req answer_of req out).1 0 ≡ (process_req k ps (some req) s).found_addrs 0
  unfolding placement_nl_process_msg
  first_entry req out one =
      let inside : ltb 0 (process_req k ps (some req) s).n_found ≡ true = rw one refl in
      (send_req-process_msg k ps s req out (omega (arith, one))).1 0 ∙ rw inside refl

  -- `send_bind` returns success exactly when the module accepts the pid for the processes that are
  -- alive, and the module is left with those and the pid's task behind them.
  pub send_bind_lem :
      (out : ℕ → AddrInfo)
      → let t = accepted ps pid (bound (refresh_pids ps s.pids)) in
        (send_bind answer_of mode pid out ≡ is_some t)
        × (bound (state_after (bind_req pid mode)).pids
            ≡ bound_after (bound (refresh_pids ps s.pids)) t)
  unfolding send_bind placement_nl_process_msg
  send_bind_lem out =
      let t = accepted ps pid (bound (refresh_pids ps s.pids)) in
      let (one, ret, left) = process_bind in
      let b = bind_pid_lem ps pid (refresh_pids ps s.pids) in
      let sent = ap (λ e. e.pid_retval ==ℤ pos 0) (first_entry (bind_req pid mode) out one) in
      (sent ∙ ap (λ v. v ==ℤ pos 0) (ret ∙ b.0) ∙ is_zero-retval_after t, ap bound left ∙ b.1)

  -- `send_unbind` returns success exactly when the pid is valid and bound, and the module is left with
  -- those of the other processes that are alive.
  pub send_unbind_lem :
      (out : ℕ → AddrInfo)
      → let there = not (is_invalid_pid pid) && any (holds pid) (bound s.pids) in
        (send_unbind answer_of mode pid out ≡ there)
        × (bound (state_after (unbind_req pid mode)).pids
            ≡ keep (is_alive ps) (
                if is_invalid_pid pid
                then bound s.pids
                else erase_first (holds pid) (bound s.pids)))
  unfolding send_unbind placement_nl_process_msg
  send_unbind_lem out =
      let there = not (is_invalid_pid pid) && any (holds pid) (bound s.pids) in
      let (one, ret, left) = process_unbind in
      let u = unbind_pid_lem pid s.pids in
      let sent = ap (λ e. e.pid_retval ==ℤ pos 0) (first_entry (unbind_req pid mode) out one) in
      (
        sent ∙ ap (λ v. v ==ℤ pos 0) (ret ∙ u.0) ∙ is_zero-if there,
        ap bound left ∙ refresh_pids_lem ps (unbind_pid pid s.pids).1 ∙ ap (keep (is_alive ps)) u.1,
      )
