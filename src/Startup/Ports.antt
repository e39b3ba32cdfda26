-- ===== src/Startup/Ports.antt =====
-- The listening sockets of the start at the ports of the configuration.
use flydragon.Base.{
  ℕ, zero, suc, ◌+◌, ◌<◌, ◌≤◌, ◌≡◌, refl, sym, ap, ap₂, ◌∙◌, List, [], ◌∷◌, ◌++◌, none, some, true,
  false, Bool, arith, subst,
}
use flydragon.Config.{ConfigMap, get_string, get_int_default, atoi}
use flydragon.Startup.{
  listen_port_name, decimal, Listening, Setup, SocketCalls, port_of, open_loop, close_socket,
  open_listening_sockets, rounds_of,
}
use flydragon.Startup.Sockets.{
  Opens, Fails, opened, with_sockets, open_loop_on, open_loop_bad, failing_if,
  open_listening_sockets-opened,
}

-- The port that the configuration has for an index: what `atoi` reads in the text of the item
-- `ListenPort` with the index, or 10000 if there is no such item.
pub data HasPort (conf : ConfigMap) (i : ℕ) : Bool × ℕ → Type 0 where
  configured :
      (text : List ℕ)
      → get_string conf (listen_port_name ++ decimal 10 i) ≡ some text
      → HasPort conf i (atoi text)
  not_configured :
      get_string conf (listen_port_name ++ decimal 10 i) ≡ none → HasPort conf i (false, 10000)

port_of-HasPort :
    (conf : ConfigMap) (i : ℕ) (port : Bool × ℕ) → HasPort conf i port → port_of conf i ≡ port
unfolding port_of get_int_default
port_of-HasPort conf i _ (configured text e) = rw (e, get_int_default) refl
port_of-HasPort conf i _ (not_configured e) = rw (e, get_int_default) refl

-- The sockets at some ports, from an index on.
abbrev pub listed : (ℕ → Bool × ℕ) → (ℕ → ℕ) → ℕ → ℕ → List Listening
listed ports fds zero i = []
listed ports fds (suc n) i =
    record { port = ports i; fd = fds i; connection = none } ∷ listed ports fds n (i + 1)

opened-listed :
    (conf : ConfigMap) (ports : ℕ → Bool × ℕ) (fds : ℕ → ℕ) (n i : ℕ)
    → ((j : ℕ) → i ≤ j → j < i + n → port_of conf j ≡ ports j)
    → opened conf fds n i ≡ listed ports fds n i
opened-listed conf ports fds zero i h = refl
opened-listed conf ports fds (suc n) i h =
    ap₂
      (λ (p : Bool × ℕ) (ls : List Listening).
        record { port = p; fd = fds i; connection = none } ∷ ls)
      (h i (omega arith) (omega arith))
      (opened-listed conf ports fds n (i + 1) (λ j a b. h j (omega arith) (omega arith)))

-- If there is a port to open, no socket is open yet, the configuration has a port for each index, and
-- for each the kernel gives a socket and `setsockopt`, `ioctl`, `bind` at the low 16 bits of the port
-- and `listen` succeed, then the start goes on, with a socket for each index from 0, in order, with the
-- port of the configuration, and nothing else changed.
pub open_listening_sockets-listed :
    (conf : ConfigMap) (calls : ℕ → SocketCalls) (ports : ℕ → Bool × ℕ) (fds : ℕ → ℕ) (n : ℕ)
    (s : Setup)
    → s.listen_port_count ≡ (false, suc n)
    → s.listen_socket_list ≡ []
    → ((j : ℕ) → j < suc n → HasPort conf j (ports j))
    → ((j : ℕ) → j < suc n → Opens (calls j) (ports j) (fds j))
    → open_listening_sockets conf calls s
      ≡ (record s { listen_socket_list = listed ports fds (suc n) 0 }, true)
open_listening_sockets-listed conf calls ports fds n s c none_yet has h =
    let same : (j : ℕ) → j < suc n → port_of conf j ≡ ports j =
      λ j b. port_of-HasPort conf j (ports j) (has j b) in
    open_listening_sockets-opened conf calls fds n s c none_yet
      (λ j b. subst (λ (p : Bool × ℕ). Opens (calls j) p (fds j)) (sym (same j b)) (h j b))
    ∙ ap (λ (ls : List Listening). (record s { listen_socket_list = ls }, true))
        (opened-listed conf ports fds (suc n) 0 (λ j a b. same j (omega arith)))

-- If the first `n` sockets open, and for the next one the kernel gives a socket, but `setsockopt`,
-- `ioctl`, `bind` at the low 16 bits of its port or `listen` fails, then this socket is closed, the
-- first ones stay open at the ports of the configuration, and the start fails, whatever the rest.
pub open_listening_sockets-closes :
    (conf : ConfigMap) (calls : ℕ → SocketCalls) (ports : ℕ → Bool × ℕ) (fds : ℕ → ℕ) (n m fd : ℕ)
    (s : Setup)
    → s.listen_port_count ≡ (false, n + suc m)
    → ((j : ℕ) → j < n + 1 → HasPort conf j (ports j))
    → ((j : ℕ) → j < n → Opens (calls j) (ports j) (fds j))
    → (calls n).socket ≡ some fd
    → Fails (calls n) (ports n)
    → open_listening_sockets conf calls s
      ≡ (close_socket fd (with_sockets s (listed ports fds n 0)), false)
open_listening_sockets-closes conf calls ports fds n m fd s c has made given bad =
    let same : (j : ℕ) → j < n + 1 → port_of conf j ≡ ports j =
      λ j b. port_of-HasPort conf j (ports j) (has j b) in
    let opens : (j : ℕ) → j < n → Opens (calls j) (port_of conf j) (fds j) = λ j b.
      subst (λ (p : Bool × ℕ). Opens (calls j) p (fds j)) (sym (same j (omega arith))) (made j b) in
    let t = with_sockets s (opened conf fds n 0) in
    failing_if conf calls s (close_socket fd t) (
      ap (λ (p : Bool × ℕ). open_loop conf calls (rounds_of p) 0 s) c
      ∙ open_loop_on conf calls fds n (suc m) 0 s (λ j a b. opens j (omega arith))
      ∙ ap (λ (k : ℕ). open_loop conf calls (suc m) k t) (omega arith)
      ∙ open_loop_bad conf calls m n fd t given
          (subst (Fails (calls n)) (sym (same n (omega arith))) bad))
    ∙ ap (λ (ls : List Listening). (close_socket fd (with_sockets s ls), false))
        (opened-listed conf ports fds n 0 (λ j a b. same j (omega arith)))
