-- ===== src/Session/Task.antt =====
-- What a task changes for a connection: the handlers only queue answers and note the time.
use flydragon.Base.{
  ℕ, ◌-◌, ◌≡◌, inl, inr, refl, sym, ap, ◌∙◌, subst, List, [], ◌∷◌, ◌++◌, Option, none, some, Bool,
  true, false, not, update_keeps, ◌==◌, if◌then◌else◌, Bool-cases, Option-cases, append-nil,
  decrement,
}
use flydragon.Comm.Header.{read_header}
use flydragon.State.{Msg, Server}
use flydragon.State.Held.{Keeps, Keeps-refl, sets-Keeps}
use flydragon.Send.{msg_send}
use flydragon.Send.Receiving.{received_of}
use flydragon.Recv.Sending.{kept_of}
use flydragon.Logic.{
  Command, handle_ping, handle_register, handle_log_in, find_handler, call_handler, on_ping,
  on_register, send_no_body_pkg_to_client, no_body_pkg, register_reply, process, pop_message,
  take_message, thread_recv_proc_func,
}

-- The messages that a handler queues.
abbrev pub reply_of : (ℕ → ℕ) → Command → Msg → Bool → ℕ → List Msg
reply_of lo handle_ping m has_body body_length =
    if not (body_length == 0) then [] else no_body_pkg m 0 ∷ []
reply_of lo handle_register m has_body body_length =
    if not has_body then [] else if not (100 == body_length) then [] else register_reply lo m ∷ []
reply_of lo handle_log_in m has_body body_length = []

-- The messages that a task queues for a message.
abbrev pub replies : (ℕ → ℕ) → Msg → Server → List Msg
replies lo m s = elim (find_handler m s) [
  | none ↦ []
  | some c ↦ let len = (read_header m.bytes).pkg_len in reply_of lo c m (not (8 == len)) (len - 8)
]

-- From `s` to `t` connection `j` has the same packets in work in both directions, and `ms` are queued.
pub record Queues (j : ℕ) (ms : List Msg) (s t : Server) : Type 0 where
  pub sends : kept_of (t.conn j) ≡ kept_of (s.conn j)
  pub receives : received_of (t.conn j) ≡ received_of (s.conn j)
  pub wire : t.wire j ≡ s.wire j
  pub to_send : t.msg_send_queue ≡ s.msg_send_queue ++ ms
  pub received : t.msg_recv_queue ≡ s.msg_recv_queue
  pub keeps : Keeps j s t

module _ (j : ℕ) where
  nothing : (s : Server) → Queues j [] s s
  nothing s = record {
    sends = refl;
    receives = refl;
    wire = refl;
    to_send = sym (append-nil s.msg_send_queue);
    received = refl;
    keeps = Keeps-refl;
  }

  ping-Queues :
      (now : ℕ) (m : Msg) (len : ℕ) (s : Server)
      → Queues j (if not (len == 0) then [] else no_body_pkg m 0 ∷ []) s (on_ping now m len s).0
  unfolding on_ping send_no_body_pkg_to_client msg_send
  ping-Queues now m len s = elim (Bool-cases (len == 0)) [
    | inr e ↦ rw e (nothing s)
    | inl e ↦ rw e (record {
      sends = update_keeps kept_of s.conn m.conn _ j refl;
      receives = update_keeps received_of s.conn m.conn _ j refl;
      wire = refl;
      to_send = refl;
      received = refl;
      keeps = sets-Keeps m.conn j _ refl refl refl;
    })
  ]

  register-Queues :
      (lo : ℕ → ℕ) (m : Msg) (has_body : Bool) (len : ℕ) (s : Server)
      → Queues j (reply_of lo handle_register m has_body len) s (on_register lo m has_body len s).0
  unfolding on_register msg_send
  register-Queues lo m false len s = nothing s
  register-Queues lo m true len s = elim (Bool-cases (100 == len)) [
    | inr e ↦ rw e (nothing s)
    | inl e ↦ rw e (record {
      sends = refl;
      receives = refl;
      wire = refl;
      to_send = refl;
      received = refl;
      keeps = record { held = refl; pools = refl };
    })
  ]

  handler-Queues :
      (lo : ℕ → ℕ) (now : ℕ) (c : Command) (m : Msg) (has_body : Bool) (len : ℕ) (s : Server)
      → Queues j (reply_of lo c m has_body len) s (call_handler lo now c m has_body len s)
  unfolding call_handler
  handler-Queues lo now handle_ping m has_body len s = ping-Queues now m len s
  handler-Queues lo now handle_register m has_body len s = register-Queues lo m has_body len s
  handler-Queues lo now handle_log_in m has_body len s = nothing s

  pub process-Queues :
      (lo : ℕ → ℕ) (now : ℕ) (m : Msg) (s : Server)
      → Queues j (replies lo m s) s (process lo now m s)
  unfolding process
  process-Queues lo now m s = elim (Option-cases (find_handler m s)) [
    | inl e ↦ rw (e, process, replies) (nothing s)
    | inr (c, e) ↦ rw (e, process, replies) (handler-Queues lo now c m _ _ s)
  ]

-- The state without the first message of its queue.
abbrev pub popped : List Msg → Server → Server
popped q s = record s {
  msg_recv_queue = q;
  recv_msg_queue_count = decrement s.recv_msg_queue_count;
  tasks = s.tasks - 1;
}

takes_first :
    (lo : ℕ → ℕ) (now : ℕ) (m : Msg) (q : List Msg) (s : Server)
    → s.msg_recv_queue ≡ m ∷ q
    → thread_recv_proc_func lo now s ≡ some (process lo now m (popped q s))
unfolding thread_recv_proc_func take_message
takes_first lo now m q s e = rw (e, thread_recv_proc_func) refl

-- The state in an option.
abbrev state_or : Server → Option Server → Server
state_or s none = s
state_or s (some t) = t

-- The state behind a message that was taken.
abbrev taken_or : Server → Option (Msg × Server) → Server
taken_or s none = s
taken_or s (some (m, t)) = t

-- A task for the first message leaves what connection `j` has in work, and queues the answers.
pub task-Queues :
    (lo : ℕ → ℕ) (now : ℕ) (m : Msg) (q : List Msg) (s t : Server) (j : ℕ)
    → s.msg_recv_queue ≡ m ∷ q
    → thread_recv_proc_func lo now s ≡ some t
    → Queues j (replies lo m (popped q s)) (popped q s) t
task-Queues lo now m q s t j first e =
    subst (Queues j (replies lo m (popped q s)) (popped q s))
      (ap (state_or s) (sym (takes_first lo now m q s first) ∙ e))
      (process-Queues j lo now m (popped q s))

-- Taking the first message from the queue leaves the state without it.
pub pop_message-popped :
    (m : Msg) (q : List Msg) (s t : Server)
    → s.msg_recv_queue ≡ m ∷ q
    → pop_message s.msg_recv_queue s ≡ some (m, t)
    → popped q s ≡ t
unfolding pop_message
pop_message-popped m q s t first e =
    ap (taken_or s) (sym (ap (λ (r : List Msg). pop_message r s) first) ∙ e)
