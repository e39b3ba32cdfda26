-- ===== src/Recv/Sending.antt =====
-- What the receiving half leaves to the sending half.
use flydragon.Base.{
  update_keeps, ℕ, ◌≡◌, inl, inr, refl, ap, ◌∙◌, true, update, List, [], ◌∷◌, Option, some, arith,
  ltb, ◌==◌, Bool-cases, Option-cases, length,
}
use flydragon.Comm.{RecvStat, hd_init, hd_recving, bd_init, bd_recving}
use flydragon.Comm.Header.{read_header}
use flydragon.State.{Msg, Conn, Server, Handler, RecvPtr, head_at, msg_at, set_conn}
use flydragon.State.Held.{held_of, pools_of, Keeps, Keeps-refl, Keeps-trans, sets-Keeps}
use flydragon.State.Memory.{alloc_memory}
use flydragon.Recv.Stream.{handle_reads, AreReads}
use flydragon.Recv.{
  got, deposit, recvproc, in_msg_recv_queue, proc_plast, reject_header, accept_header, proc_p1,
  move_on, receive, wait_request_handler, store_at, after_read, new_message,
}

-- The fields of a connection that it sends from, and its handlers.
abbrev pub kept_of : Conn → ℕ × Option Msg × ℕ × ℕ × ℕ × Handler × Handler
kept_of c = (
  c.throw_send_count, c.psend_mem_pointer, c.psendbuf, c.isendlen, c.sequence, c.rhandler,
  c.whandler,
)

-- From `s` to `t` nothing changed of what is sent to connection `j`.
pub record SendsSame (j : ℕ) (s t : Server) : Type 0 where
  pub fields : kept_of (t.conn j) ≡ kept_of (s.conn j)
  pub wire : t.wire j ≡ s.wire j
  pub queue : t.msg_send_queue ≡ s.msg_send_queue
  pub count : t.send_msg_queue_count ≡ s.send_msg_queue_count
  pub stop : t.stop_event ≡ s.stop_event
  pub keeps : Keeps j s t

-- The fields one by one.
module _ {j : ℕ} {s t : Server} (same : SendsSame j s t) where
  pub same_throws : (t.conn j).throw_send_count ≡ (s.conn j).throw_send_count
  same_throws = ap (λ (f : ℕ × Option Msg × ℕ × ℕ × ℕ × Handler × Handler). f.0) same.fields

  pub same_holds : (t.conn j).psend_mem_pointer ≡ (s.conn j).psend_mem_pointer
  same_holds = ap (λ (f : ℕ × Option Msg × ℕ × ℕ × ℕ × Handler × Handler). f.1) same.fields

  pub same_rhandler : (t.conn j).rhandler ≡ (s.conn j).rhandler
  same_rhandler = ap (λ (f : ℕ × Option Msg × ℕ × ℕ × ℕ × Handler × Handler). f.5) same.fields

pub SendsSame-refl : {j : ℕ} {s : Server} → SendsSame j s s
SendsSame-refl = record {
  fields = refl;
  wire = refl;
  queue = refl;
  count = refl;
  stop = refl;
  keeps = Keeps-refl;
}

pub SendsSame-trans : {j : ℕ} {s t u : Server} → SendsSame j s t → SendsSame j t u → SendsSame j s u
SendsSame-trans a b = record {
  fields = b.fields ∙ a.fields;
  wire = b.wire ∙ a.wire;
  queue = b.queue ∙ a.queue;
  count = b.count ∙ a.count;
  stop = b.stop ∙ a.stop;
  keeps = Keeps-trans a.keeps b.keeps;
}

-- A change of connection `i` that leaves what it sends.
changes :
    (i j : ℕ) (c : Conn) {s t : Server}
    → kept_of c ≡ kept_of (s.conn i)
    → held_of c ≡ held_of (s.conn i)
    → t.conn ≡ update s.conn i c
    → t.wire ≡ s.wire
    → t.msg_send_queue ≡ s.msg_send_queue
    → t.send_msg_queue_count ≡ s.send_msg_queue_count
    → t.stop_event ≡ s.stop_event
    → pools_of t ≡ pools_of s
    → SendsSame j s t
changes i j c {s} {t} kept held conn wire queue count stop pools = record {
  fields = ap (λ (f : ℕ → Conn). kept_of (f j)) conn ∙ update_keeps kept_of s.conn i c j kept;
  wire = ap (λ (w : ℕ → List ℕ). w j) wire;
  queue = queue;
  count = count;
  stop = stop;
  keeps = sets-Keeps i j c held conn pools;
}

module _ (lo : ℕ → ℕ) (i j : ℕ) where
  plast-SendsSame : (s : Server) → SendsSame j s (proc_plast i s)
  unfolding proc_plast in_msg_recv_queue
  plast-SendsSame s = elim (Option-cases (s.conn i).pnew_mem_pointer) [
    | inl e ↦ rw (e, proc_plast) SendsSame-refl
    | inr (m, e) ↦ rw (e, proc_plast) (changes i j _ refl refl refl refl refl refl refl refl)
  ]

  moves-SendsSame : (stat : RecvStat) (n : ℕ) (s : Server) → SendsSame j s (move_on stat n i s)
  unfolding move_on
  moves-SendsSame stat n s = changes i j _ refl refl refl refl refl refl refl refl

  reject-SendsSame : (s : Server) → SendsSame j s (reject_header i s)
  unfolding reject_header
  reject-SendsSame s = changes i j _ refl refl refl refl refl refl refl refl

  accept-SendsSame : (len : ℕ) (s : Server) → SendsSame j s (accept_header lo len i s)
  unfolding accept_header
  accept-SendsSame len s =
      let t =
        record (set_conn s i (record (s.conn i) {
          ifnewrecv_mem = true;
          pnew_mem_pointer = some (new_message lo i len (s.conn i));
        })) { blocks = alloc_memory s.blocks } in
      let made : SendsSame j s t = changes i j _ refl refl refl refl refl refl refl refl in
      elim (Bool-cases (len == 8)) [
        | inl e ↦ rw e (SendsSame-trans made (plast-SendsSame t))
        | inr e ↦
            rw e (SendsSame-trans made (changes i j _ refl refl refl refl refl refl refl refl))
      ]

  p1-SendsSame : (s : Server) → SendsSame j s (proc_p1 lo i s)
  unfolding proc_p1
  p1-SendsSame s =
      let len = (read_header (s.conn i).data_head_info).pkg_len in
      elim (Bool-cases (ltb len 8)) [
        | inl e ↦ rw e (reject-SendsSame s)
        | inr e ↦ rw e (elim (Bool-cases (ltb 29000 len)) [
          | inl b ↦ rw b (reject-SendsSame s)
          | inr b ↦ rw b (accept-SendsSame len s)
        ])
      ]

  receive-SendsSame : (stat : RecvStat) (n : ℕ) (s : Server) → SendsSame j s (receive lo stat n i s)
  unfolding receive
  receive-SendsSame hd_init n s = elim (Bool-cases (n == 8)) [
    | inl e ↦ rw e (p1-SendsSame s)
    | inr e ↦ rw e (moves-SendsSame hd_recving n s)
  ]
  receive-SendsSame hd_recving n s = elim (Bool-cases ((s.conn i).irecvlen == n)) [
    | inl e ↦ rw e (p1-SendsSame s)
    | inr e ↦ rw e (moves-SendsSame hd_recving n s)
  ]
  receive-SendsSame bd_init n s = elim (Bool-cases (n == (s.conn i).irecvlen)) [
    | inl e ↦ rw e (plast-SendsSame s)
    | inr e ↦ rw e (moves-SendsSame bd_recving n s)
  ]
  receive-SendsSame bd_recving n s = elim (Bool-cases ((s.conn i).irecvlen == n)) [
    | inl e ↦ rw e (plast-SendsSame s)
    | inr e ↦ rw e (moves-SendsSame bd_recving n s)
  ]

  store_at-kept_of :
      (p : RecvPtr) (xs : List ℕ) (c : Conn)
      → (kept_of (store_at p xs c) ≡ kept_of c) × (held_of (store_at p xs c) ≡ held_of c)
  unfolding store_at
  store_at-kept_of (head_at k) xs c = (refl, refl)
  store_at-kept_of (msg_at k) xs c = elim (Option-cases c.pnew_mem_pointer) [
    | inl e ↦ rw (e, store_at) (refl, refl)
    | inr (m, e) ↦ rw (e, store_at) (refl, refl)
  ]

  -- At a readable event at which bytes come, nothing changes of what any connection sends.
  pub wait_request_handler-SendsSame :
      (x : ℕ) (xs : List ℕ) (now : ℕ) (s : Server)
      → SendsSame j s (wait_request_handler lo (got (x ∷ xs)) now i s)
  unfolding wait_request_handler recvproc deposit after_read
  wait_request_handler-SendsSame x xs now s =
      let t = set_conn s i (deposit (x ∷ xs) (s.conn i)) in
      SendsSame-trans
        (changes i j _ (store_at-kept_of (s.conn i).precvbuf (x ∷ xs) (s.conn i)).0
          (store_at-kept_of (s.conn i).precvbuf (x ∷ xs) (s.conn i)).1 refl refl refl refl refl
          refl)
        (receive-SendsSame (t.conn i).cur_stat (length (x ∷ xs)) t)

-- What arrives from a client changes nothing of what is sent.
pub handle_reads-SendsSame :
    (lo : ℕ → ℕ) (i : ℕ) (rs : List (ℕ × List ℕ)) (s : Server)
    → AreReads lo i rs s
    → SendsSame i s (handle_reads lo i rs s)
handle_reads-SendsSame lo i [] s are = SendsSame-refl
handle_reads-SendsSame lo i ((now, []) ∷ rs) s are = absurd (omega arith)
handle_reads-SendsSame lo i ((now, x ∷ xs) ∷ rs) s are =
    SendsSame-trans (wait_request_handler-SendsSame lo i i x xs now s)
      (handle_reads-SendsSame lo i rs _ are.2)
