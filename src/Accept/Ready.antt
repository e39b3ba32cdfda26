-- ===== src/Accept/Ready.antt =====
-- The connection of a client that was accepted, or refused.
use flydragon.Base.{
  ℕ, ◌≡◌, inl, inr, refl, sym, ap, subst, ◌∙◌, [], ◌∷◌, ◌++◌, none, some, Bool, true, false, ◌||◌,
  ◌&&◌, arith, ◌==◌, if◌then◌else◌, Bool-cases, Option-cases,
}
use flydragon.State.{Conn, Server, wait_request, write_request}
use flydragon.Epoll.{ctl_add, oper_event}
use flydragon.Pool.{get_connection, free_connection, put_one_to_free, close_connection}
use flydragon.Pool.Fresh.{Fresh, HaveRoom, get_connection-Fresh}
use flydragon.Timer.{get_earliest_time, set_timer_value, add_to_timer_queue}
use flydragon.Recv.Represents.{InHead, InHead-fresh}
use flydragon.Send.Stream.{Idle}
use flydragon.Accept.{Answers, set_handlers, register_connection, accept_connection}

-- A connection whose events the server handles.
pub record Ready (fd : ℕ) (c : Conn) : Type 0 where
  pub socket : c.fd ≡ some fd
  pub receives : InHead c []
  pub sends : Idle c
  pub reads : c.rhandler ≡ wait_request
  pub writes : c.whandler ≡ write_request
  pub watched : c.events ≡ 0x2001

-- The client is turned away: the socket is closed and the connection is free.
pub record Refused (fd i : ℕ) (s t : Server) : Type 0 where
  pub no_fd : (t.conn i).fd ≡ none
  pub closed : t.closed ≡ fd ∷ s.closed
  pub free : t.freeconnection_list ≡ s.freeconnection_list ++ i ∷ []

set_timer_value_conn : (s : Server) → (set_timer_value s).conn ≡ s.conn
unfolding set_timer_value
set_timer_value_conn s = elim (Option-cases (get_earliest_time s.timer_queue)) [
  | inl e ↦ rw (e, set_timer_value) refl
  | inr (t, e) ↦ rw (e, set_timer_value) refl
]

add_to_timer_queue_conn : (now i : ℕ) (s : Server) → (add_to_timer_queue now i s).conn ≡ s.conn
unfolding add_to_timer_queue
add_to_timer_queue_conn now i s = set_timer_value_conn _

-- The connection before it is watched by the timers.
added-Ready :
    (fd now old new : ℕ) (s : Server)
    → Fresh fd now (s.conn new)
    → Ready fd ((oper_event ctl_add 0x2001 0 new true (set_handlers old new s)).0.conn new)
unfolding oper_event set_handlers
added-Ready fd now old new s f = record {
  socket = ground (arith, f);
  receives =
      InHead-fresh _ (ground (arith, f)) (ground (arith, f)) (ground (arith, f))
        (ground (arith, f));
  sends = record { throws = ground (arith, f); nothing = ground (arith, f) };
  reads = ground arith;
  writes = ground arith;
  watched = ground arith;
}

timed-Ready :
    (fd now new : ℕ) (kick : Bool) (t : Server)
    → Ready fd (t.conn new)
    → Ready fd ((if kick then add_to_timer_queue now new t else t).conn new)
timed-Ready fd now new true t r =
    subst (λ (f : ℕ → Conn). Ready fd (f new)) (sym (add_to_timer_queue_conn now new t)) r
timed-Ready fd now new false t r = r

register_connection-Ready :
    (fd now old new : ℕ) (s : Server)
    → Fresh fd now (s.conn new)
    → Ready fd ((register_connection true now old new s).conn new)
unfolding register_connection oper_event
register_connection-Ready fd now old new s f =
    timed-Ready fd now new (s.kick_time_count == 1)
      (oper_event ctl_add 0x2001 0 new true (set_handlers old new s)).0
      (added-Ready fd now old new s f)

freed_fd : (i : ℕ) (s : Server) → ((free_connection i s).conn i).fd ≡ (s.conn i).fd
unfolding free_connection put_one_to_free
freed_fd i s = ground arith

freed_lists :
    (i : ℕ) (s : Server)
    → ((free_connection i s).closed ≡ s.closed)
      × ((free_connection i s).freeconnection_list ≡ s.freeconnection_list ++ i ∷ [])
unfolding free_connection put_one_to_free
freed_lists i s = (refl, refl)

close_connection-Refused :
    (fd i : ℕ) (s : Server) → (s.conn i).fd ≡ some fd → Refused fd i s (close_connection i s)
unfolding close_connection
close_connection-Refused fd i s e =
    let (c, f) = freed_lists i s in
    rw (freed_fd i s ∙ e, close_connection)
      (record { no_fd = ground arith; closed = ap (◌∷◌ fd) c; free = f })

register_connection-Refused :
    (fd now old new : ℕ) (s : Server)
    → (s.conn new).fd ≡ some fd
    → Refused fd new s (register_connection false now old new s)
unfolding register_connection set_handlers oper_event
register_connection-Refused fd now old new s e =
    let u = (oper_event ctl_add 0x2001 0 new false (set_handlers old new s)).0 in
    let r = close_connection-Refused fd new u (ground (arith, e)) in
    record { no_fd = r.no_fd; closed = r.closed; free = r.free }

register_connection_outcome :
    (ctl_ok : Bool) (fd now old new : ℕ) (s : Server)
    → Fresh fd now (s.conn new)
    → (ctl_ok ≡ true → Ready fd ((register_connection ctl_ok now old new s).conn new))
      × (ctl_ok ≡ false → Refused fd new s (register_connection ctl_ok now old new s))
register_connection_outcome true fd now old new s f =
    (λ w. register_connection-Ready fd now old new s f, λ w. absurd (cc w))
register_connection_outcome false fd now old new s f =
    (λ w. absurd (cc w), λ w. register_connection-Refused fd now old new s f.socket)

-- Every call of the kernel for the new connection succeeds; after `accept4` the socket needs no
-- ioctl.
abbrev pub all_well : Bool → Answers → Bool
all_well use_accept4 a = (use_accept4 || a.nonblocking) && a.ctl

-- If the receive buffers of all connections have their size, then for a client whose socket is
-- accepted: when the later calls of the kernel succeed, its connection has the socket, awaits a
-- header, sends nothing, and is watched for reading by the handlers of clients; when one fails, the
-- socket is closed and the connection is at the end of the free list.
pub accept_connection-Ready :
    (use_accept4 : Bool) (a : Answers) (fd now old : ℕ) (s : Server)
    → HaveRoom s
    → let (u, new) = get_connection fd now s in
      let t = accept_connection use_accept4 a fd now old s in
      (all_well use_accept4 a ≡ true → Ready fd (t.conn new))
      × (all_well use_accept4 a ≡ false → Refused fd new u t)
unfolding accept_connection
accept_connection-Ready true a fd now old s h =
    let (u, new) = get_connection fd now s in
    register_connection_outcome a.ctl fd now old new u (get_connection-Fresh fd now s h)
accept_connection-Ready false a fd now old s h =
    let (u, new) = get_connection fd now s in
    let f = get_connection-Fresh fd now s h in
    elim (Bool-cases a.nonblocking) [
      | inl e ↦ rw e (register_connection_outcome a.ctl fd now old new u f)
      | inr e ↦ rw e (λ w. absurd (cc w), λ w. close_connection-Refused fd new u f.socket)
    ]
