-- ===== src/Sound/Start.antt =====
-- The state that `flyd_epoll_init` leaves is sound.
use flydragon.Base.{
  ℕ, ◌+◌, ◌^◌, ◌≤◌, ◌<◌, ◌≡◌, inl, inr, refl, sym, ap, ◌∙◌, subst, List, [], ◌∷◌, Option, none,
  some, arith, length, Bool, true, false, Bool-cases, Option-cases,
}
use flydragon.State.{Server, event_accept, set_conn}
use flydragon.State.Held.{Keeps-trans, sets-Keeps}
use flydragon.Pool.{init_connection, new_connection, get_one_to_use, get_from, get_connection}
use flydragon.Epoll.{oper_event}
use flydragon.Startup.{Listening, Setup, add_listening, add_all, epoll_init, rounds_of}
use flydragon.Startup.Watched.{added, connected, add_listening-added}
use flydragon.Sound.Blank.{IsBlank, NoClients, init_connection-IsSound}
use flydragon.Sound.{IsSound, Keeps-IsSound}
use flydragon.Sound.Taking.{get_connection-Taken}

-- The connection of a listening socket is taken, and only its handler for reading is set.
added-IsSound :
    (now index : ℕ) (l : Listening) (s : Server)
    → IsSound s
    → s.next_conn + 2 < 2 ^ 31
    → IsSound (added now index l s) × ((added now index l s).next_conn ≤ s.next_conn + 1)
unfolding oper_event
added-IsSound now index l s h room =
    let (taken, _, le) = get_connection-Taken l.fd now s h room in
    let i = (get_connection l.fd now s).1 in
    let t = (get_connection l.fd now s).0 in
    let c = record (t.conn i) { listening = some index; rhandler = event_accept } in
    (
      Keeps-IsSound t _
          (λ j.
            Keeps-trans {t = set_conn t i c} (sets-Keeps i j c refl refl refl)
              (sets-Keeps i j _ refl refl refl))
          taken.sound,
      le,
    )

-- A connection that is taken has no handler for writing, if none had one.
get_from-NoClients :
    (free : List ℕ) (fd now : ℕ) (k s : Server)
    → NoClients k s
    → NoClients k (get_from free fd now s).0
unfolding get_from new_connection get_one_to_use
get_from-NoClients [] fd now k s h = record {
  idle = λ j le. ground (arith, h.idle j);
  heartbeat = h.heartbeat;
  wait = h.wait;
  queue = h.queue;
}
get_from-NoClients (i ∷ is) fd now k s h = record {
  idle = λ j le. ground (arith, h.idle j);
  heartbeat = h.heartbeat;
  wait = h.wait;
  queue = h.queue;
}

added-NoClients :
    (now index : ℕ) (l : Listening) (k s : Server)
    → NoClients k s
    → NoClients k (added now index l s)
unfolding oper_event get_connection
added-NoClients now index l k s h =
    let given = get_from-NoClients s.freeconnection_list l.fd now k s h in
    record {
      idle = λ j le. ground (arith, given.idle j);
      heartbeat = given.heartbeat;
      wait = given.wait;
      queue = given.queue;
    }

not_added :
    (ctl : ℕ → Bool) (now index : ℕ) (l : Listening) (ls : List Listening) (s : Server)
    → ctl index ≡ false
    → add_all ctl now index (l ∷ ls) s ≡ none
unfolding add_all add_listening oper_event
not_added ctl now index l ls s e = rw (e, add_all) refl

-- The result for the first socket before that for the others.
abbrev with_first : Listening → Option (Server × List Listening) → Option (Server × List Listening)
with_first k none = none
with_first k (some (t, ks)) = some (t, k ∷ ks)

add_all-added :
    (ctl : ℕ → Bool) (now index : ℕ) (l : Listening) (ls : List Listening) (s : Server)
    → ctl index ≡ true
    → add_all ctl now index (l ∷ ls) s
      ≡ with_first (connected now l s) (add_all ctl now (index + 1) ls (added now index l s))
unfolding add_all
add_all-added ctl now index l ls s e =
    rw
      (
        ap (λ (b : Bool). add_listening b now index l s) e ∙ add_listening-added now index l s,
        add_all,
      )
      refl

-- Each listening socket that is added leaves the state sound, and adds no client.
abbrev SoundIf : Server → Option (Server × List Listening) → Type 0
SoundIf k none = Unit {0}
SoundIf k (some (t, ks)) = IsSound t × NoClients k t

with_first-SoundIf :
    (n : Server) (k : Listening) (r : Option (Server × List Listening))
    → SoundIf n r
    → SoundIf n (with_first k r)
with_first-SoundIf n k none h = tt
with_first-SoundIf n k (some (t, ks)) h = h

add_all-SoundIf :
    (ctl : ℕ → Bool) (now index : ℕ) (k : Server) (ls : List Listening) (s : Server)
    → IsSound s
    → NoClients k s
    → s.next_conn + length ls + 2 < 2 ^ 31
    → SoundIf k (add_all ctl now index ls s)
unfolding add_all
add_all-SoundIf ctl now index k [] s h c room = (h, c)
add_all-SoundIf ctl now index k (l ∷ ls) s h c room = elim (Bool-cases (ctl index)) [
  | inr e ↦ subst (SoundIf k) (sym (not_added ctl now index l ls s e)) tt
  | inl e ↦
      let (sound, le) = added-IsSound now index l s h (omega (arith, room)) in
      subst (SoundIf k) (sym (add_all-added ctl now index l ls s e)) (
        with_first-SoundIf k (connected now l s) _ (
          add_all-SoundIf ctl now (index + 1) k ls (added now index l s) sound
            (added-NoClients now index l k s c) (omega (arith, room, le))))
]

-- When `flyd_epoll_init` succeeds.
abbrev StartsSound : Server → Option Setup → Type 0
StartsSound k none = Unit {0}
StartsSound k (some t) = IsSound t.server × NoClients k t.server

epoll_init-StartsSound :
    (created : Bool) (ctl : ℕ → Bool) (now : ℕ) (s : Setup)
    → IsBlank s.server
    → rounds_of s.worker_connections + length s.listen_socket_list + 2 < 2 ^ 31
    → StartsSound s.server (epoll_init created ctl now s)
unfolding epoll_init
epoll_init-StartsSound false ctl now s h room = tt
epoll_init-StartsSound true ctl now s h room =
    let n = rounds_of s.worker_connections in
    let (sound, next, idle) = init_connection-IsSound n now s.server h (omega (arith, room)) in
    let r = init_connection n now s.server in
    let k = s.server in
    let all =
      add_all-SoundIf ctl now 0 k s.listen_socket_list r sound idle (omega (arith, room, next)) in
    elim (Option-cases (add_all ctl now 0 s.listen_socket_list r)) [
      | inl e ↦ rw (e, epoll_init) tt
      | inr ((t, ks), e) ↦ rw (e, epoll_init) (subst (SoundIf k) e all)
    ]

-- What `flyd_epoll_init` makes of a blank object is sound.
pub epoll_init-IsSound :
    (created : Bool) (ctl : ℕ → Bool) (now : ℕ) (s t : Setup)
    → IsBlank s.server
    → rounds_of s.worker_connections + length s.listen_socket_list + 2 < 2 ^ 31
    → epoll_init created ctl now s ≡ some t
    → IsSound t.server
epoll_init-IsSound created ctl now s t h room e =
    (subst (StartsSound s.server) e (epoll_init-StartsSound created ctl now s h room)).0

-- It has no client.
pub epoll_init-NoClients :
    (created : Bool) (ctl : ℕ → Bool) (now : ℕ) (s t : Setup)
    → IsBlank s.server
    → rounds_of s.worker_connections + length s.listen_socket_list + 2 < 2 ^ 31
    → epoll_init created ctl now s ≡ some t
    → NoClients s.server t.server
epoll_init-NoClients created ctl now s t h room e =
    (subst (StartsSound s.server) e (epoll_init-StartsSound created ctl now s h room)).1
