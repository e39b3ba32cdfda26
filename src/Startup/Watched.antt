-- ===== src/Startup/Watched.antt =====
-- The connections of the listening sockets after `flyd_epoll_init`.
use flydragon.Base.{
  ℕ, ◌+◌, ◌<◌, ◌^◌, ◌≡◌, refl, map, ap, ◌∙◌, List, [], ◌∷◌, some, Bool, true, arith,
}
use flydragon.State.{Server, event_accept, set_conn}
use flydragon.Pool.{get_connection, init_connection}
use flydragon.Pool.Owned.{
  IsPooled-same, owners, IsPooled, Fits, get_connection-IsPooled, get_connection-Fits,
  get_connection_others,
}
use flydragon.Pool.Fresh.{get_connection_fd}
use flydragon.Pool.Start.{IsNew, init_connection-IsPooled, init_connection-Fits}
use flydragon.Epoll.{ctl_add, epollin, epollrdhup, oper_event}
use flydragon.Startup.{Listening, Setup, add_listening, add_all, epoll_init, rounds_of}

-- The listening socket has a connection that accepts clients.
pub record Accepts (s : Server) (l : Listening) : Type 0 where
  pub number : ℕ
  pub held : l.connection ≡ some number
  pub socket : (s.conn number).fd ≡ some l.fd
  pub handler : (s.conn number).rhandler ≡ event_accept
  pub watched : (s.conn number).events ≡ 0x2001
  pub owned : owners number s ≡ 0
  pub exists : number < s.next_conn

-- The pool is in order, and its counters do not wrap.
pub record InOrder (s : Server) : Type 0 where
  pub pooled : IsPooled s
  pub fits : Fits s

get_connection-InOrder : (fd now : ℕ) (s : Server) → InOrder s → InOrder (get_connection fd now s).0
get_connection-InOrder fd now s h = record {
  pooled = (get_connection-IsPooled fd now s h.pooled h.fits).0;
  fits = get_connection-Fits fd now s h.fits;
}

-- The state once a listening socket is added.
abbrev pub added : ℕ → ℕ → Listening → Server → Server
added now index l s =
    let (t, i) = get_connection l.fd now s in
    (oper_event ctl_add (epollin + epollrdhup) 0 i true
      (set_conn t i (record (t.conn i) { listening = some index; rhandler = event_accept }))).0

-- The socket, with its connection.
abbrev pub connected : ℕ → Listening → Server → Listening
connected now l s = record l { connection = some (get_connection l.fd now s).1 }

pub add_listening-added :
    (now index : ℕ) (l : Listening) (s : Server)
    → add_listening true now index l s ≡ some (added now index l s, connected now l s)
unfolding add_listening oper_event
add_listening-added now index l s = refl

added-InOrder :
    (now index : ℕ) (l : Listening) (s : Server) → InOrder s → InOrder (added now index l s)
unfolding oper_event
added-InOrder now index l s h =
    let o = get_connection-InOrder l.fd now s h in
    record { pooled = IsPooled-same refl o.pooled; fits = record { free_fits = o.fits.free_fits } }

added-Accepts :
    (now index : ℕ) (l : Listening) (s : Server)
    → InOrder s
    → Accepts (added now index l s) (connected now l s)
unfolding oper_event
added-Accepts now index l s h =
    let (_, free, exists) = get_connection-IsPooled l.fd now s h.pooled h.fits in
    record {
      number = (get_connection l.fd now s).1;
      held = refl;
      socket = ground (arith, get_connection_fd l.fd now s);
      handler = ground arith;
      watched = ground arith;
      owned = free;
      exists = exists;
    }

-- The connections of the earlier sockets stay.
added_keeps :
    (now index : ℕ) (l k : Listening) (s : Server) → Accepts s k → Accepts (added now index l s) k
unfolding oper_event
added_keeps now index l k s a =
    let (same, free, le, d) = get_connection_others l.fd now s a.number a.owned a.exists in
    record {
      number = a.number;
      held = a.held;
      socket = ground (arith, d, same, a.socket);
      handler = ground (arith, d, same, a.handler);
      watched = ground (arith, d, same, a.watched);
      owned = free;
      exists = omega (arith, le, a.exists);
    }

abbrev pub AllAccept : Server → List Listening → Type 0
AllAccept s [] = Unit {0}
AllAccept s (k ∷ ks) = Accepts s k × AllAccept s ks

-- The loop reaches a state in which all sockets accept clients.
record AddsAll (ctl : ℕ → Bool) (now index : ℕ) (ls : List Listening) (s : Server) : Type 0 where
  server : Server
  sockets : List Listening
  result : add_all ctl now index ls s ≡ some (server, sockets)
  order : InOrder server
  accept : AllAccept server sockets
  same_fds : map (λ l. l.fd) sockets ≡ map (λ l. l.fd) ls
  keeps : (k : Listening) → Accepts s k → Accepts server k

add_all-step :
    (ctl : ℕ → Bool) (now index : ℕ) (l : Listening) (ls : List Listening) (s : Server)
    → ((i : ℕ) → ctl i ≡ true)
    → (r : AddsAll ctl now (index + 1) ls (added now index l s))
    → add_all ctl now index (l ∷ ls) s ≡ some (r.server, connected now l s ∷ r.sockets)
unfolding add_all
add_all-step ctl now index l ls s ok r =
    rw
      (
        ap (λ (b : Bool). add_listening b now index l s) (ok index)
            ∙ add_listening-added now index l s,
        add_all,
      )
      (rw (r.result, add_all) refl)

add_all-AddsAll :
    (ctl : ℕ → Bool) (now index : ℕ) (ls : List Listening) (s : Server)
    → ((i : ℕ) → ctl i ≡ true)
    → InOrder s
    → AddsAll ctl now index ls s
add_all-AddsAll ctl now index [] s ok h = record {
  server = s;
  sockets = [];
  result = unfold add_all in refl;
  order = h;
  accept = _;
  same_fds = refl;
  keeps = λ k a. a;
}
add_all-AddsAll ctl now index (l ∷ ls) s ok h =
    let r =
      add_all-AddsAll ctl now (index + 1) ls (added now index l s) ok
        (added-InOrder now index l s h) in
    record {
      server = r.server;
      sockets = connected now l s ∷ r.sockets;
      result = add_all-step ctl now index l ls s ok r;
      order = r.order;
      accept = (r.keeps (connected now l s) (added-Accepts now index l s h), r.accept);
      same_fds = ap (◌∷◌ l.fd) r.same_fds;
      keeps = λ k a. r.keeps k (added_keeps now index l k s a);
    }

-- If `epoll_create` and every `epoll_ctl` succeed, `flyd_epoll_init` on an object that has no
-- connections yet comes to its end: the pool is in order, and each listening socket, in order, has a
-- connection that holds its descriptor, is watched for reading, is handled by `flyd_event_accept`,
-- and is neither free nor to be recycled.
pub epoll_init-AllAccept :
    (ctl : ℕ → Bool) (now : ℕ) (s : Setup)
    → IsNew s.server
    → rounds_of s.worker_connections + 1 < 2 ^ 31
    → ((i : ℕ) → ctl i ≡ true)
    → (t : Setup) × (epoll_init true ctl now s ≡ some t)
      × IsPooled t.server
      × AllAccept t.server t.listen_socket_list
      × (map (λ l. l.fd) t.listen_socket_list ≡ map (λ l. l.fd) s.listen_socket_list)
unfolding epoll_init
epoll_init-AllAccept ctl now s e n ok =
    let c = rounds_of s.worker_connections in
    let r =
      add_all-AddsAll ctl now 0 s.listen_socket_list (init_connection c now s.server) ok (record {
        pooled = (init_connection-IsPooled s.server c now e (omega (arith, n))).0;
        fits = init_connection-Fits s.server c now e n;
      }) in
    (
      record s { server = r.server; listen_socket_list = r.sockets },
      rw (r.result, epoll_init) refl,
      r.order.pooled,
      r.accept,
      r.same_fds,
    )
