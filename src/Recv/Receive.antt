-- ===== src/Recv/Receive.antt =====
-- The pieces of one readable event: the bytes are put down, the pointers move on, a packet is
-- handed over, a header is refused.
use flydragon.Base.{
  ℕ, ◌+◌, ◌-◌, ◌≤◌, ◌<◌, ◌≡◌, inl, inr, refl, ap, subst, tabulate, ◌∙◌, sym, List, [], ◌∷◌, ◌++◌,
  arith, length, length-append, length-blit, length-tabulate, take, drop, blit, take-blit,
  take-append-drop, update, update_self, update_ne, some, none, false,
}
use flydragon.Comm.{hd_recving, bd_recving}
use flydragon.Comm.Header.{read_header}
use flydragon.State.{Msg, Conn, Server, head_at, msg_at, set_conn}
use flydragon.Recv.{
  got, await_header, deposit, receive, proc_plast, reject_header, new_message, advance,
  wait_request_handler,
}
use flydragon.Recv.Framing.{announced, HasHeader-append, announced-append}
use flydragon.Recv.Represents.{
  InHead, InBody, packet, Delivers, Keeps, Keeps-set, Keeps-Delivers, InHead-fresh,
}

deposit-cur_stat : (xs : List ℕ) (c : Conn) → (deposit xs c).cur_stat ≡ c.cur_stat
unfolding deposit
deposit-cur_stat xs c = ground arith

-- The bytes are put down, then the state decides.
pub handler-receive :
    (lo : ℕ → ℕ) (x : ℕ) (xs : List ℕ) (now i : ℕ) (s : Server)
    → wait_request_handler lo (got (x ∷ xs)) now i s
      ≡ receive lo
          (s.conn i).cur_stat
          (length (x ∷ xs))
          i
          (set_conn s i (deposit (x ∷ xs) (s.conn i)))
unfolding wait_request_handler
handler-receive lo x xs now i s =
    rw (update_self s.conn i (deposit (x ∷ xs) (s.conn i)), deposit-cur_stat) refl

pub deposit-InHead :
    (xs : List ℕ) (c : Conn) (p : List ℕ)
    → InHead c p
    → deposit xs c ≡ record c { data_head_info = blit c.data_head_info (length p) xs }
unfolding deposit
deposit-InHead xs c p h = ground (arith, h.points)

pub deposit-InBody :
    (i : ℕ) (xs : List ℕ) (c : Conn) (p : List ℕ) (h : InBody i c p)
    → deposit xs c ≡ record c {
      pnew_mem_pointer = some (record h.msg { bytes = blit h.msg.bytes (length p) xs });
    }
unfolding deposit
deposit-InBody i xs c p h = ground (arith, h.points, h.holds)

-- Part of a header came.
pub move_on-InHead :
    (c : Conn) (p xs : List ℕ)
    → InHead c p
    → 0 < length xs
    → length p + length xs < 8
    → InHead
        (record c {
          data_head_info = blit c.data_head_info (length p) xs;
          cur_stat = hd_recving;
          precvbuf = advance (length xs) c.precvbuf;
          irecvlen = c.irecvlen - length xs;
        })
        (p ++ xs)
move_on-InHead c p xs h some_came few = record {
  short = omega (arith, l);
  points = rw h.points (ap head_at (sym l));
  wants = omega (arith, l, h.wants);
  filled =
      ap (λ (n : ℕ). take n (blit c.data_head_info (length p) xs)) l
      ∙ take-blit c.data_head_info (length p) xs (length p + length xs) refl (omega (arith, h.room))
      ∙ ap (λ (q : List ℕ). q ++ xs) h.filled;
  room = length-blit c.data_head_info (length p) xs ∙ h.room;
  stat = inr (refl, omega (arith, l));
}
  where
    l : length (p ++ xs) ≡ length p + length xs
    l = length-append p xs

-- Part of a body came.
pub move_on-InBody :
    (i : ℕ) (c : Conn) (p xs : List ℕ) (h : InBody i c p)
    → 0 < length xs
    → length p + length xs < announced p
    → InBody i
        (record c {
          pnew_mem_pointer = some (record h.msg { bytes = blit h.msg.bytes (length p) xs });
          cur_stat = bd_recving;
          precvbuf = advance (length xs) c.precvbuf;
          irecvlen = c.irecvlen - length xs;
        })
        (p ++ xs)
move_on-InBody i c p xs h some_came few = record {
  msg = record h.msg { bytes = blit h.msg.bytes (length p) xs };
  holds = refl;
  owner = h.owner;
  stamp = h.stamp;
  size = length-blit h.msg.bytes (length p) xs ∙ h.size ∙ sym a;
  header = HasHeader-append p xs h.header;
  short = omega (arith, l, a);
  points = rw h.points (ap msg_at (sym l));
  wants = omega (arith, l, a, h.wants);
  filled =
      ap (λ (n : ℕ). take n (blit h.msg.bytes (length p) xs)) l
      ∙ take-blit h.msg.bytes (length p) xs (length p + length xs) refl (omega (arith, h.size))
      ∙ ap (λ (q : List ℕ). q ++ xs) h.filled;
  room = h.room;
  stat = inr (refl, omega (arith, l, h.header.whole));
}
  where
    l : length (p ++ xs) ≡ length p + length xs
    l = length-append p xs

    a : announced (p ++ xs) ≡ announced p
    a = announced-append p xs (omega (arith, h.header.whole))

-- A complete packet goes to the queue, a task is started, and the next header is awaited.
pub proc_plast-Delivers :
    (i : ℕ) (s t : Server) (bs : List ℕ)
    → Keeps i s t
    → (t.conn i).pnew_mem_pointer ≡ some (packet i (s.conn i).sequence bs)
    → length (t.conn i).data_head_info ≡ 20
    → Delivers i s (proc_plast i t) (bs ∷ []) []
unfolding proc_plast
proc_plast-Delivers i s t bs k e room =
    rw (e, proc_plast)
      (record {
        left =
            inl (subst (λ (d : Conn). InHead d []) (sym here) (InHead-fresh c refl refl refl room));
        queue = ap (λ (q : List Msg). q ++ packet i (s.conn i).sequence bs ∷ []) k.queue;
        tasks = omega (arith, k.tasks);
        sequence = ap (λ (d : Conn). d.sequence) here ∙ k.sequence;
        others = λ j n. update_ne t.conn i c j (λ (q : i ≡ j). n (sym q)) ∙ k.others j n;
      })
  where
    c : Conn
    c = record (await_header (t.conn i)) { ifnewrecv_mem = false; pnew_mem_pointer = none }

    here : update t.conn i c i ≡ c
    here = update_self t.conn i c

-- What a header in `dataHeadInfo` announces.
pub announced-take :
    (c : Conn) (hd : List ℕ)
    → take 8 c.data_head_info ≡ hd
    → length hd ≡ 8
    → (read_header c.data_head_info).pkg_len ≡ announced hd
announced-take c hd e l =
    ap announced (sym (take-append-drop 8 c.data_head_info))
    ∙ ap (λ (q : List ℕ). announced (q ++ drop 8 c.data_head_info)) e
    ∙ announced-append hd (drop 8 c.data_head_info) (omega (arith, l))

-- The buffer made for a header starts with that header.
pub new_message-bytes :
    (lo : ℕ → ℕ) (i len : ℕ) (c : Conn) (hd : List ℕ)
    → take 8 c.data_head_info ≡ hd
    → length hd ≡ 8
    → 8 ≤ len
    → (take 8 (new_message lo i len c).bytes ≡ hd) × (length (new_message lo i len c).bytes ≡ len)
unfolding new_message
new_message-bytes lo i len c hd e l h = rw e (
  take-blit (tabulate len lo) 0 hd 8 (omega (arith, l)) (omega (arith, n)),
  length-blit (tabulate len lo) 0 hd ∙ n,
)
  where
    n : length (tabulate len lo) ≡ len
    n = length-tabulate len lo

pub reject_header-Delivers :
    (i : ℕ) (s t : Server)
    → Keeps i s t
    → length (t.conn i).data_head_info ≡ 20
    → Delivers i s (reject_header i t) [] []
unfolding reject_header
reject_header-Delivers i s t k room =
    Keeps-Delivers (Keeps-set (await_header (t.conn i)) k k.sequence) (
      inl (
        subst (λ (d : Conn). InHead d []) (sym (update_self t.conn i _))
          (InHead-fresh _ refl refl refl room)))
