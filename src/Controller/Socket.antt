-- ===== src/Controller/Socket.antt =====
-- src/ambix_hyb-ctl.c: `process_socket`, and src/ambix-client.c, whose requests arrive there. The
-- result of `process_socket` is the calls that it makes, in order.
use ambix.Base.{Bool, true, false, not, List, [], ◌∷◌, ◌++◌, ℤ, pos, ◌==ℤ◌, if◌then◌else◌}
use ambix.Config.{Req, bind_op, unbind_op}
use ambix.Controller.Commands.{Call, call_bind, call_unbind}

-- How the requests on a connection end: `read` fails, meets the end, or returns a part of a
-- request.
pub data End : Type 0 where
  failed : End
  closed : End
  cut_off : End

-- What a round of the loop meets: `select` fails, times out, `accept` fails, or a connection with
-- some requests.
pub data Event : Type 0 where
  select_failed : Event
  timeout : Event
  accept_failed : Event
  connection : List Req → End → Event

-- The loop over the requests of a connection.
unfoldable pub serve : List Req → List Call
serve [] = []
serve (r ∷ rs) =
    let rest = serve rs in
    if r.op_code ==ℤ bind_op
    then call_bind r.pid_n ∷ rest
    else if r.op_code ==ℤ unbind_op
    then call_unbind r.pid_n ∷ rest
    else rest

-- The loop until `exit_sig` is set, which is where the events end.
unfoldable pub serve_events : List Event → List Call
serve_events [] = []
serve_events (select_failed ∷ es) = []
serve_events (timeout ∷ es) = serve_events es
serve_events (accept_failed ∷ es) = serve_events es
serve_events (connection rs failed ∷ es) = serve rs
serve_events (connection rs closed ∷ es) = serve rs ++ serve_events es
serve_events (connection rs cut_off ∷ es) = serve rs ++ serve_events es

-- The arguments say whether `socket`, `bind` and `listen` succeed.
unfoldable pub process_socket : Bool → Bool → Bool → List Event → List Call
process_socket socket_ok bind_ok listen_ok es =
    if not socket_ok
    then []
    else if not bind_ok
    then []
    else if not listen_ok
    then []
    else serve_events es

-- How a client's socket fares: `socket` fails, `connect` fails, `write` fails or writes a part of the
-- request, or all succeed.
pub data Link : Type 0 where
  no_socket : Link
  refused : Link
  unwritten : Link
  short : Link
  written : Link

-- The pid of a request: the client's own for 0.
abbrev pub client_pid : ℤ → ℤ → ℤ
client_pid getpid pid_arg = if pid_arg ==ℤ pos 0 then getpid else pid_arg

-- The value that a client returns, and what the server meets: no connection, one that is closed at
-- once, one with a part of a request, or one with the request. Field `mode` is what memory holds.
abbrev pub write_req : Link → Req → Bool × List Event
write_req no_socket r = (false, [])
write_req refused r = (false, [])
write_req unwritten r = (false, connection [] closed ∷ [])
write_req short r = (false, connection [] cut_off ∷ [])
write_req written r = (true, connection (r ∷ []) closed ∷ [])

unfoldable pub bind_uds : ℤ → ℤ → Link → ℤ → Bool × List Event
bind_uds getpid mode link pid_arg =
    write_req link (record { op_code = bind_op; pid_n = client_pid getpid pid_arg; mode = mode })

unfoldable pub unbind_uds : ℤ → ℤ → Link → ℤ → Bool × List Event
unbind_uds getpid mode link pid_arg =
    write_req link (record { op_code = unbind_op; pid_n = client_pid getpid pid_arg; mode = mode })

-- A client's attempt to bind or unbind.
pub record Attempt : Type 0 where
  pub binds : Bool
  pub getpid : ℤ
  pub mode : ℤ
  pub link : Link
  pub pid_arg : ℤ

abbrev pub run_client : Attempt → Bool × List Event
run_client a =
    if a.binds
    then bind_uds a.getpid a.mode a.link a.pid_arg
    else unbind_uds a.getpid a.mode a.link a.pid_arg

-- What the server meets of some clients, one after the other.
abbrev pub arrivals : List Attempt → List Event
arrivals [] = []
arrivals (a ∷ clients) = (run_client a).1 ++ arrivals clients

-- One call for each client that returned success: for the pid it was given, or for its own where that
-- is 0.
abbrev pub successes : List Attempt → List Call
successes [] = []
successes (a ∷ clients) =
    let pid = if a.pid_arg ==ℤ pos 0 then a.getpid else a.pid_arg in
    let call = if a.binds then call_bind pid else call_unbind pid in
    if (run_client a).0 then call ∷ successes clients else successes clients
