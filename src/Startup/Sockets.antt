-- ===== src/Startup/Sockets.antt =====
-- The listening sockets that the start opens.
use flydragon.Base.{
  ℕ, zero, suc, ◌+◌, ◌<◌, ◌≤◌, ◌≡◌, refl, sym, ap, ap₂, lt→ltb, ◌∙◌, List, [], ◌∷◌, ◌++◌, none,
  some, true, false, Bool, arith, length, inl, inr, Bool-cases, append_assoc, append-nil,
}
use flydragon.Config.{ConfigMap}
use flydragon.Startup.{
  Listening, Setup, SocketCalls, in_port, port_of, open_one, open_loop, close_socket,
  open_listening_sockets, rounds_of,
}

-- The kernel gives the socket for a port, and the other calls succeed.
pub record Opens (c : SocketCalls) (port : Bool × ℕ) (fd : ℕ) : Type 0 where
  pub made : c.socket ≡ some fd
  pub reuses : c.setsockopt ≡ true
  pub waits_not : c.nonblocking ≡ true
  pub bound : c.bind (in_port port) ≡ true
  pub listens : c.listen ≡ true

-- The kernel gives the socket, but another call fails.
pub data Fails (c : SocketCalls) (port : Bool × ℕ) : Type 0 where
  setsockopt : c.setsockopt ≡ false → Fails c port
  nonblocking : c.nonblocking ≡ false → Fails c port
  bind : c.bind (in_port port) ≡ false → Fails c port
  listen : c.listen ≡ false → Fails c port

-- The sockets from an index on.
abbrev pub opened : ConfigMap → (ℕ → ℕ) → ℕ → ℕ → List Listening
opened conf fds zero i = []
opened conf fds (suc n) i =
    record { port = port_of conf i; fd = fds i; connection = none } ∷ opened conf fds n (i + 1)

open_one-Opens :
    (conf : ConfigMap) (i fd : ℕ) (c : SocketCalls) (s : Setup)
    → Opens c (port_of conf i) fd
    → open_one conf i c s ≡ (
      record s {
        listen_socket_list =
            s.listen_socket_list
            ++ record { port = port_of conf i; fd = fd; connection = none } ∷ [];
      },
      true,
    )
unfolding open_one
open_one-Opens conf i fd c s h =
    rw h.made (rw h.reuses (rw h.waits_not (rw h.bound (rw h.listens refl))))

open_loop_step :
    (conf : ConfigMap) (calls : ℕ → SocketCalls) (n i : ℕ) (t s : Setup)
    → open_one conf i (calls i) s ≡ (t, true)
    → open_loop conf calls (suc n) i s ≡ open_loop conf calls n (i + 1) t
unfolding open_loop
open_loop_step conf calls n i t s e = rw e refl

-- The state with some sockets more.
abbrev pub with_sockets : Setup → List Listening → Setup
with_sockets s ls = record s { listen_socket_list = s.listen_socket_list ++ ls }

-- The loop over sockets that open goes on behind them.
pub open_loop_on :
    (conf : ConfigMap) (calls : ℕ → SocketCalls) (fds : ℕ → ℕ) (n m i : ℕ) (s : Setup)
    → ((j : ℕ) → i ≤ j → j < i + n → Opens (calls j) (port_of conf j) (fds j))
    → open_loop conf calls (n + m) i s
      ≡ open_loop conf calls m (i + n) (with_sockets s (opened conf fds n i))
open_loop_on conf calls fds zero m i s h =
    ap₂
      (λ (k : ℕ) (ls : List Listening).
        open_loop conf calls k i (record s { listen_socket_list = ls }))
      (omega arith) (sym (append-nil s.listen_socket_list))
    ∙ ap (λ (k : ℕ). open_loop conf calls m k (with_sockets s [])) (omega arith)
open_loop_on conf calls fds (suc n) m i s h =
    let l : Listening = record { port = port_of conf i; fd = fds i; connection = none } in
    ap (λ (k : ℕ). open_loop conf calls k i s) (omega arith)
    ∙ open_loop_step conf calls (n + m) i (with_sockets s (l ∷ [])) s
        (open_one-Opens conf i (fds i) (calls i) s (h i (omega arith) (omega arith)))
    ∙ open_loop_on conf calls fds n m (i + 1) (with_sockets s (l ∷ []))
        (λ j a b. h j (omega arith) (omega arith))
    ∙ ap₂
        (λ (k : ℕ) (ls : List Listening).
          open_loop conf calls m k (record s { listen_socket_list = ls }))
        (omega arith) (append_assoc s.listen_socket_list (l ∷ []) (opened conf fds n (i + 1)))

listening_if :
    (conf : ConfigMap) (calls : ℕ → SocketCalls) (s t : Setup)
    → open_loop conf calls (rounds_of s.listen_port_count) 0 s ≡ (t, true)
    → 0 < length t.listen_socket_list
    → open_listening_sockets conf calls s ≡ (t, true)
unfolding open_listening_sockets
listening_if conf calls s t e l =
    rw e (ap (λ (b : Bool). (t, b)) (lt→ltb 0 (length t.listen_socket_list) l))

pub failing_if :
    (conf : ConfigMap) (calls : ℕ → SocketCalls) (s t : Setup)
    → open_loop conf calls (rounds_of s.listen_port_count) 0 s ≡ (t, false)
    → open_listening_sockets conf calls s ≡ (t, false)
unfolding open_listening_sockets
failing_if conf calls s t e = rw e refl

open_loop_none :
    (conf : ConfigMap) (calls : ℕ → SocketCalls) (i : ℕ) (s : Setup)
    → open_loop conf calls 0 i s ≡ (s, true)
unfolding open_loop
open_loop_none conf calls i s = refl

none-Fails :
    (c : SocketCalls) (port : Bool × ℕ)
    → c.setsockopt ≡ true
    → c.nonblocking ≡ true
    → c.bind (in_port port) ≡ true
    → c.listen ≡ true
    → ¬ Fails c port
none-Fails c port p q r t (setsockopt e) = absurd (cc (p, e))
none-Fails c port p q r t (nonblocking e) = absurd (cc (q, e))
none-Fails c port p q r t (bind e) = absurd (cc (r, e))
none-Fails c port p q r t (listen e) = absurd (cc (t, e))

open_one-Fails :
    (conf : ConfigMap) (i fd : ℕ) (c : SocketCalls) (s : Setup)
    → c.socket ≡ some fd
    → Fails c (port_of conf i)
    → open_one conf i c s ≡ (close_socket fd s, false)
unfolding open_one
open_one-Fails conf i fd c s made bad = rw made (elim (Bool-cases c.setsockopt) [
  | inr e ↦ rw e refl
  | inl p ↦ rw p (elim (Bool-cases c.nonblocking) [
    | inr e ↦ rw e refl
    | inl q ↦ rw q (elim (Bool-cases (c.bind (in_port (port_of conf i)))) [
      | inr e ↦ rw e refl
      | inl r ↦ rw r (elim (Bool-cases c.listen) [
        | inr e ↦ rw e refl
        | inl t ↦ absurd (none-Fails c (port_of conf i) p q r t bad)
      ])
    ])
  ])
])

pub open_loop_bad :
    (conf : ConfigMap) (calls : ℕ → SocketCalls) (m i fd : ℕ) (s : Setup)
    → (calls i).socket ≡ some fd
    → Fails (calls i) (port_of conf i)
    → open_loop conf calls (suc m) i s ≡ (close_socket fd s, false)
unfolding open_loop
open_loop_bad conf calls m i fd s made bad = rw (open_one-Fails conf i fd (calls i) s made bad) refl

-- All sockets open, at the ports that `port_of` gives.
pub open_listening_sockets-opened :
    (conf : ConfigMap) (calls : ℕ → SocketCalls) (fds : ℕ → ℕ) (n : ℕ) (s : Setup)
    → s.listen_port_count ≡ (false, suc n)
    → s.listen_socket_list ≡ []
    → ((j : ℕ) → j < suc n → Opens (calls j) (port_of conf j) (fds j))
    → open_listening_sockets conf calls s
      ≡ (record s { listen_socket_list = opened conf fds (suc n) 0 }, true)
open_listening_sockets-opened conf calls fds n s c none_yet h =
    let r : suc n ≡ suc n + 0 = omega arith in
    listening_if conf calls s (record s { listen_socket_list = opened conf fds (suc n) 0 })
      (ap (λ (p : Bool × ℕ). open_loop conf calls (rounds_of p) 0 s) c
        ∙ ap (λ (k : ℕ). open_loop conf calls k 0 s) r
        ∙ open_loop_on conf calls fds (suc n) 0 0 s (λ j a b. h j (omega arith))
        ∙ open_loop_none conf calls (0 + suc n) (with_sockets s (opened conf fds (suc n) 0))
        ∙ ap
            (λ (ls : List Listening).
              (record s { listen_socket_list = ls ++ opened conf fds (suc n) 0 }, true))
            none_yet)
      (omega arith)
