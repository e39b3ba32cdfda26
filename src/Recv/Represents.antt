-- ===== src/Recv/Represents.antt =====
-- The fields of a connection that hold a part of a packet, and what a handler has to leave behind.
use flydragon.Base.{
  ℕ, ◌+◌, ◌<◌, ◌≡◌, ◌≢◌, ◌⊎◌, inl, refl, ap, ap₂, ◌∙◌, sym, List, [], ◌++◌, map, arith, length,
  length-append, update_self, update_ne, take, append_assoc, append-nil, map-append, some,
}
use flydragon.Comm.{hd_init, hd_recving, bd_init, bd_recving}
use flydragon.State.{Msg, Conn, Server, head_at, msg_at, set_conn}
use flydragon.Recv.Framing.{announced, HasHeader}

-- The connection waits for the rest of a header, of which it has `p`.
pub record InHead (c : Conn) (p : List ℕ) : Type 0 where
  pub short : length p < 8
  pub points : c.precvbuf ≡ head_at (length p)
  pub wants : length p + c.irecvlen ≡ 8
  pub filled : take (length p) c.data_head_info ≡ p
  pub room : length c.data_head_info ≡ 20
  pub stat :
      ((c.cur_stat ≡ hd_init) × (length p ≡ 0)) ⊎ ((c.cur_stat ≡ hd_recving) × (0 < length p))

-- The connection `i` waits for the rest of a packet, of which it has `p` in a buffer of its own.
pub record InBody (i : ℕ) (c : Conn) (p : List ℕ) : Type 0 where
  pub msg : Msg
  pub holds : c.pnew_mem_pointer ≡ some msg
  pub owner : msg.conn ≡ i
  pub stamp : msg.sequence ≡ c.sequence
  pub size : length msg.bytes ≡ announced p
  pub header : HasHeader p
  pub short : length p < announced p
  pub points : c.precvbuf ≡ msg_at (length p)
  pub wants : length p + c.irecvlen ≡ announced p
  pub filled : take (length p) msg.bytes ≡ p
  pub room : length c.data_head_info ≡ 20
  pub stat :
      ((c.cur_stat ≡ bd_init) × (length p ≡ 8)) ⊎ ((c.cur_stat ≡ bd_recving) × (8 < length p))

-- The connection `i` has received `p` of a packet that is not complete.
abbrev pub Represents : ℕ → Conn → List ℕ → Type 0
Represents i c p = InHead c p ⊎ InBody i c p

-- The buffer of a packet that connection `i` received.
abbrev pub packet : ℕ → ℕ → List ℕ → Msg
packet i sequence bs = record { conn = i; sequence = sequence; bytes = bs }

-- From `s` to `t` connection `i` delivered the packets `done`, and has `rest` of the next one.
pub record Delivers (i : ℕ) (s t : Server) (done : List (List ℕ)) (rest : List ℕ) : Type 0 where
  pub left : Represents i (t.conn i) rest
  pub queue : t.msg_recv_queue ≡ s.msg_recv_queue ++ map (packet i (s.conn i).sequence) done
  pub tasks : t.tasks ≡ s.tasks + length done
  pub sequence : (t.conn i).sequence ≡ (s.conn i).sequence
  pub others : (j : ℕ) → j ≢ i → t.conn j ≡ s.conn j

pub Delivers-refl :
    (i : ℕ) (s : Server) (p : List ℕ) → Represents i (s.conn i) p → Delivers i s s [] p
Delivers-refl i s p h = record {
  left = h;
  queue = sym (append-nil s.msg_recv_queue);
  tasks = omega arith;
  sequence = refl;
  others = λ j d. refl;
}

pub Delivers-trans :
    {i : ℕ} {s t u : Server} {xs ys : List (List ℕ)} {p q : List ℕ}
    → Delivers i s t xs p
    → Delivers i t u ys q
    → Delivers i s u (xs ++ ys) q
Delivers-trans {i} {s} {t} {u} {xs} {ys} d e = record {
  left = e.left;
  queue =
      e.queue
      ∙ ap₂ (λ (a : List Msg) (n : ℕ). a ++ map (packet i n) ys) d.queue d.sequence
      ∙ append_assoc s.msg_recv_queue _ _
      ∙ ap (◌++◌ s.msg_recv_queue) (sym (map-append (packet i (s.conn i).sequence) xs ys));
  tasks = omega (arith, d.tasks, e.tasks, length-append xs ys);
  sequence = e.sequence ∙ d.sequence;
  others = λ j n. e.others j n ∙ d.others j n;
}

-- From `s` to `t` only what connection `i` has of a packet may have changed.
pub record Keeps (i : ℕ) (s t : Server) : Type 0 where
  pub queue : t.msg_recv_queue ≡ s.msg_recv_queue
  pub tasks : t.tasks ≡ s.tasks
  pub sequence : (t.conn i).sequence ≡ (s.conn i).sequence
  pub others : (j : ℕ) → j ≢ i → t.conn j ≡ s.conn j

pub Keeps-set :
    {i : ℕ} {s t : Server} (c : Conn)
    → Keeps i s t
    → c.sequence ≡ (s.conn i).sequence
    → Keeps i s (set_conn t i c)
Keeps-set {i} {s} {t} c k e = record {
  queue = k.queue;
  tasks = k.tasks;
  sequence = ap (λ (d : Conn). d.sequence) (update_self t.conn i c) ∙ e;
  others = λ j n. update_ne t.conn i c j (λ (q : i ≡ j). n (sym q)) ∙ k.others j n;
}

pub Keeps-Delivers :
    {i : ℕ} {s t : Server} {p : List ℕ}
    → Keeps i s t
    → Represents i (t.conn i) p
    → Delivers i s t [] p
Keeps-Delivers {s} k h = record {
  left = h;
  queue = k.queue ∙ sym (append-nil s.msg_recv_queue);
  tasks = omega (arith, k.tasks);
  sequence = k.sequence;
  others = k.others;
}

-- The connection is set to wait for a header.
pub InHead-fresh :
    (c : Conn)
    → c.cur_stat ≡ hd_init
    → c.precvbuf ≡ head_at 0
    → c.irecvlen ≡ 8
    → length c.data_head_info ≡ 20
    → InHead c []
InHead-fresh c a b d e = record {
  short = omega arith;
  points = b;
  wants = omega (arith, d);
  filled = refl;
  room = e;
  stat = inl (a, refl);
}
