-- ===== src/Sound/Serving.antt =====
-- The events of a client, the tasks and the sending thread in a sound state.
use flydragon.Base.{
  ℕ, ◌+◌, ◌^◌, ◌<◌, ◌≡◌, ◌⊎◌, inl, inr, refl, ap, List, [], ◌∷◌, none, some, arith, Bool,
  Bool-cases,
}
use flydragon.State.{Msg, Server, Handler, no_handler, wait_request, write_request}
use flydragon.State.Held.{Pools, Keeps, sets-Keeps}
use flydragon.Pool.Owned.{owners}
use flydragon.Epoll.{epollin, epollout, epollerr, epollhup, epollrdhup}
use flydragon.Recv.{
  ReadResult, got, failed, is_transient, recvproc, after_read, wait_request_handler,
}
use flydragon.Recv.Sending.{wait_request_handler-SendsSame}
use flydragon.Send.{SendCall, Kernel, send_round, write_request_handler}
use flydragon.Send.Receiving.{send_round-ReceivesSame, write_request_handler-ReceivesSame}
use flydragon.Logic.{thread_recv_proc_func, take_message}
use flydragon.Session.Task.{task-Queues}
use flydragon.Events.{Event, has_flag, call, on_readable, on_writable, process_event}
use flydragon.Close.{zd_closesocket_proc}
use flydragon.Sound.{IsSound, KeepsSound, Keeps-IsSound}
use flydragon.Sound.Closing.{zd_closesocket_proc-StaysSound}
use flydragon.Sound.Accepting.{event_accept-KeepsSound}

-- Connection `i` exists and has a descriptor.
pub record IsOpen (i : ℕ) (s : Server) : Type 0 where
  pub exists : i < s.next_conn
  pub fd : ℕ
  pub socket : (s.conn i).fd ≡ some fd

-- So it is neither free nor to be recycled.
pub IsOpen-owners : (i : ℕ) (s : Server) → IsSound s → IsOpen i s → owners i s ≡ 0
IsOpen-owners i s h o = elim (zero_or_more (owners i s)) [
  | inl z ↦ z
  | inr w ↦ absurd (cc (h.no_fd i w, o.socket))
]
  where
    zero_or_more : (n : ℕ) → (n ≡ 0) ⊎ (0 < n)
    zero_or_more n = ground arith

-- What changes none of the pools keeps the state sound.
keeps : (s t : Server) → IsSound s → ((j : ℕ) → Keeps j s t) → KeepsSound s t
keeps s t h k = record {
  sound = Keeps-IsSound s t k h;
  next = omega (arith, ap (λ (p : Pools). p.0) (k 0).pools);
}

-- Whatever `read` gives, the handler of a client leaves the state sound.
wait_request_handler-KeepsSound :
    (lo : ℕ → ℕ) (r : ReadResult) (now i : ℕ) (s : Server)
    → IsSound s
    → s.next_conn + 2 < 2 ^ 31
    → IsOpen i s
    → KeepsSound s (wait_request_handler lo r now i s)
unfolding wait_request_handler recvproc after_read
wait_request_handler-KeepsSound lo r now i s h room o =
    let z = IsOpen-owners i s h o in
    let a =
      zd_closesocket_proc-StaysSound now i s h (omega (arith, room)) o.exists (omega (arith, z)) in
    let closed : KeepsSound s (zd_closesocket_proc now i s) = record {
      sound = a.sound;
      next = omega (arith, a.next);
    } in
    go r closed
  where
    go :
        (r : ReadResult)
        → KeepsSound s (zd_closesocket_proc now i s)
        → KeepsSound s (wait_request_handler lo r now i s)
    go (got []) closed = closed
    go (got (x ∷ xs)) closed =
        keeps s _ h (λ j. (wait_request_handler-SendsSame lo i j x xs now s).keeps)
    go (failed e) closed = elim (Bool-cases (is_transient e)) [
      | inl t ↦ rw t (record { sound = h; next = omega arith })
      | inr t ↦ rw t closed
    ]

write_request_handler-KeepsSound :
    (c : SendCall) (ok : Bool) (i : ℕ) (s : Server)
    → IsSound s
    → KeepsSound s (write_request_handler c ok i s)
write_request_handler-KeepsSound c ok i s h =
    keeps s _ h (λ j. (write_request_handler-ReceivesSame j c ok i s).keeps)

-- The call of a handler for reading.
call-KeepsSound :
    (lo : ℕ → ℕ) (f : Handler) (e : Event) (s : Server) (b : Bool)
    → IsSound s
    → s.next_conn + 2 < 2 ^ 31
    → IsOpen e.conn s
    → KeepsSound s (call lo f e (s, b)).0
unfolding call
call-KeepsSound lo no_handler e s b h room o = record { sound = h; next = omega arith }
call-KeepsSound lo Handler.event_accept e s b h room o =
    event_accept-KeepsSound b e.answers e.now e.conn s h room
call-KeepsSound lo wait_request e s b h room o =
    wait_request_handler-KeepsSound lo e.read e.now e.conn s h room o
call-KeepsSound lo write_request e s b h room o =
    write_request_handler-KeepsSound e.write e.ctl e.conn s h

-- The call of a handler for writing.
writer-KeepsSound :
    (lo : ℕ → ℕ) (f : Handler) (e : Event) (s : Server) (b : Bool)
    → IsSound s
    → (f ≡ no_handler) ⊎ (f ≡ write_request)
    → KeepsSound s (call lo f e (s, b)).0
unfolding call
writer-KeepsSound lo f e s b h (inl n) = rw n (record { sound = h; next = omega arith })
writer-KeepsSound lo f e s b h (inr w) =
    rw w (write_request_handler-KeepsSound e.write e.ctl e.conn s h)

on_writable-KeepsSound :
    (lo : ℕ → ℕ) (e : Event) (s : Server) (b : Bool)
    → IsSound s
    → e.conn < s.next_conn
    → KeepsSound s (on_writable lo e (s, b)).0
unfolding on_writable
on_writable-KeepsSound lo e s b h le = elim (Bool-cases (has_flag e.revents epollout)) [
  | inr q ↦ rw q (record { sound = h; next = omega arith })
  | inl q ↦ rw q (elim (Bool-cases (has_flag e.revents (epollerr + epollhup + epollrdhup))) [
    | inl w ↦ rw w (keeps s _ h (λ j. sets-Keeps e.conn j _ refl refl refl))
    | inr w ↦ rw w (writer-KeepsSound lo (s.conn e.conn).whandler e s b h (h.writes e.conn le))
  ])
]

pub on_readable-KeepsSound :
    (lo : ℕ → ℕ) (e : Event) (s : Server) (b : Bool)
    → IsSound s
    → s.next_conn + 2 < 2 ^ 31
    → IsOpen e.conn s
    → KeepsSound s (on_readable lo e (s, b)).0
unfolding on_readable
on_readable-KeepsSound lo e s b h room o = elim (Bool-cases (has_flag e.revents epollin)) [
  | inl q ↦ rw q (call-KeepsSound lo (s.conn e.conn).rhandler e s b h room o)
  | inr q ↦ rw q (record { sound = h; next = omega arith })
]

-- Whatever an event of an open connection is, and whatever the kernel answers to its handlers, its
-- handling leaves a sound state sound.
pub process_event-KeepsSound :
    (lo : ℕ → ℕ) (e : Event) (s : Server) (b : Bool)
    → IsSound s
    → s.next_conn + 2 < 2 ^ 31
    → IsOpen e.conn s
    → KeepsSound s (process_event lo e (s, b)).0
unfolding process_event
process_event-KeepsSound lo e s b h room o =
    let r = on_readable-KeepsSound lo e s b h room o in
    let t = (on_readable lo e (s, b)).0 in
    let w =
      on_writable-KeepsSound lo e t (on_readable lo e (s, b)).1 r.sound
        (omega (arith, r.next, o.exists)) in
    record { sound = w.sound; next = omega (arith, r.next, w.next) }

no_message :
    (lo : ℕ → ℕ) (now : ℕ) (s : Server)
    → s.msg_recv_queue ≡ []
    → thread_recv_proc_func lo now s ≡ none
unfolding thread_recv_proc_func take_message
no_message lo now s q = rw (q, take_message) refl

-- A task leaves the pools as they are.
pub task-Keeps :
    (lo : ℕ → ℕ) (now : ℕ) (s t : Server)
    → thread_recv_proc_func lo now s ≡ some t
    → (j : ℕ) → Keeps j s t
task-Keeps lo now s t e j = go s.msg_recv_queue refl
  where
    go : (q : List Msg) → s.msg_recv_queue ≡ q → Keeps j s t
    go [] first = absurd (cc (no_message lo now s first, e))
    go (m ∷ q) first =
        let k = (task-Queues lo now m q s t j first e).keeps in
        record { held = k.held; pools = k.pools }

-- A task leaves the state sound.
pub task-KeepsSound :
    (lo : ℕ → ℕ) (now : ℕ) (s t : Server)
    → IsSound s
    → thread_recv_proc_func lo now s ≡ some t
    → KeepsSound s t
task-KeepsSound lo now s t h e = keeps s t h (task-Keeps lo now s t e)

-- A round of the sending thread leaves the state sound.
pub send_round-KeepsSound :
    (taken : Bool) (kernel : Kernel) (s : Server)
    → IsSound s
    → KeepsSound s (send_round taken kernel s).0
send_round-KeepsSound taken kernel s h =
    keeps s _ h (λ j. (send_round-ReceivesSame j taken kernel s).keeps)
