-- ===== src/Recv/Headers.antt =====
-- A header that is complete: `flyd_wait_request_handler_proc_p1` against the reference.
use flydragon.Base.{
  ℕ, ◌-◌, ◌≤◌, ◌<◌, ◌≡◌, inl, inr, refl, ap, subst, ◌∙◌, sym, List, [], ◌∷◌, arith, length, take,
  update, update_self, some, eq_cases, true, take-length, ltb, ne→==, eq→==, Bool-cases, ltb→lt,
  ltb→ge,
}
use flydragon.Comm.{bd_init}
use flydragon.State.{Msg, Conn, Server, msg_at, set_conn}
use flydragon.Recv.{proc_p1, accept_header, new_message}
use flydragon.Recv.Framing.{announced, HasHeader, settle, settle_done, settle_grow, settle_bad}
use flydragon.Recv.Represents.{InBody, packet, Delivers, Keeps, Keeps-set, Keeps-Delivers}
use flydragon.Recv.Receive.{
  proc_plast-Delivers, announced-take, new_message-bytes, reject_header-Delivers,
}
use flydragon.Comm.Header.{read_header}

module _ (lo : ℕ → ℕ) (i : ℕ) (s t : Server) (hd : List ℕ) (k : Keeps i s t)
    (room : length (t.conn i).data_head_info ≡ 20) (filled : take 8 (t.conn i).data_head_info ≡ hd)
    (whole : length hd ≡ 8) where
  abbrev made : ℕ → Msg
  made len = new_message lo i len (t.conn i)

  abbrev holding : ℕ → Conn
  holding len = record (t.conn i) { ifnewrecv_mem = true; pnew_mem_pointer = some (made len) }

  made-packet : (len : ℕ) → 8 ≤ len → made len ≡ packet i (s.conn i).sequence (made len).bytes
  unfolding new_message
  made-packet len h = ground (arith, k.sequence)

  Keeps-holding : (len b : ℕ) → Keeps i s (record (set_conn t i (holding len)) { blocks = b })
  Keeps-holding len b =
      let k' = Keeps-set (holding len) k k.sequence in
      record { queue = k'.queue; tasks = k'.tasks; sequence = k'.sequence; others = k'.others }

  made-bytes : (len : ℕ) → len ≡ 8 → (made len).bytes ≡ hd
  made-bytes len e =
      let (first, size) = new_message-bytes lo i len (t.conn i) hd filled whole (omega arith) in
      sym (take-length (made len).bytes)
      ∙ ap (λ (n : ℕ). take n (made len).bytes) (size ∙ e)
      ∙ first

  -- A header alone is a packet.
  accept_header_alone : (len : ℕ) → len ≡ 8 → Delivers i s (accept_header lo len i t) (hd ∷ []) []
  unfolding accept_header
  accept_header_alone len e = rw (eq→== len 8 e) (
      proc_plast-Delivers i s _ hd (Keeps-holding len _)
        (ap (λ (d : Conn). d.pnew_mem_pointer) here
          ∙ ap some (
              made-packet len (omega arith) ∙ ap (packet i (s.conn i).sequence) (made-bytes len e)))
        (ap (λ (d : Conn). length d.data_head_info) here ∙ room))
    where
      here : update t.conn i (holding len) i ≡ holding len
      here = update_self t.conn i (holding len)

  abbrev awaiting : ℕ → Conn → Conn
  awaiting len c = record c { cur_stat = bd_init; precvbuf = msg_at 8; irecvlen = len - 8 }

  awaiting-InBody :
      (len : ℕ)
      → 8 < len
      → len ≤ 29000
      → announced hd ≡ len
      → InBody i (awaiting len (holding len)) hd
  unfolding new_message
  awaiting-InBody len h u e =
      let (first, size) = new_message-bytes lo i len (t.conn i) hd filled whole (omega arith) in
      record {
        msg = made len;
        holds = refl;
        owner = refl;
        stamp = refl;
        size = size ∙ sym e;
        header = omega (arith, whole, e, h, u);
        short = omega arith;
        points = ap msg_at (sym whole);
        wants = omega arith;
        filled = ap (λ (n : ℕ). take n (made len).bytes) whole ∙ first;
        room = room;
        stat = inl (refl, whole);
      }

  -- A header of a longer packet waits for the body.
  accept_header_body :
      (len : ℕ)
      → 8 < len
      → len ≤ 29000
      → announced hd ≡ len
      → Delivers i s (accept_header lo len i t) [] hd
  unfolding accept_header
  accept_header_body len h u e = rw (ne→== len 8 (omega arith)) (
      Keeps-Delivers
        (Keeps-set (awaiting len (update t.conn i (holding len) i)) (Keeps-holding len _)
          (ap (λ (d : Conn). d.sequence) (update_self t.conn i (holding len)) ∙ k.sequence))
        (inr (
          subst (λ (d : Conn). InBody i d hd)
            (sym (
              update_self (update t.conn i (holding len)) i _
              ∙ ap (awaiting len) (update_self t.conn i (holding len))))
            (awaiting-InBody len h u e))))

  -- The three branches on the announced length.
  pub proc_p1-Delivers : Delivers i s (proc_p1 lo i t) (settle hd).0 (settle hd).1
  unfolding proc_p1
  proc_p1-Delivers = elim (Bool-cases (ltb len 8)) [
    | inl low ↦ rw low (
        rw (settle_bad hd (omega (arith, whole)) (inl (omega (arith, a, ltb→lt len 8 low))))
          (reject_header-Delivers i s t k room))
    | inr fits ↦ rw fits (elim (Bool-cases (ltb 29000 len)) [
      | inl high ↦ rw high (
          rw (settle_bad hd (omega (arith, whole)) (inr (omega (arith, a, ltb→lt 29000 len high))))
            (reject_header-Delivers i s t k room))
      | inr below ↦
          rw below
            (accepted (omega (arith, ltb→ge len 8 fits)) (omega (arith, ltb→ge 29000 len below)))
    ])
  ]
    where
      len : ℕ
      len = (read_header (t.conn i).data_head_info).pkg_len

      a : len ≡ announced hd
      a = announced-take (t.conn i) hd filled whole

      header : 8 ≤ len → len ≤ 29000 → HasHeader hd
      header l u = omega (arith, whole, a, l, u)

      accepted :
          8 ≤ len
          → len ≤ 29000
          → Delivers i s (accept_header lo len i t) (settle hd).0 (settle hd).1
      accepted l u = elim (eq_cases len 8) [
        | inl e ↦
            rw (settle_done hd (header l u) (omega (arith, whole, a, e)))
              (accept_header_alone len e)
        | inr n ↦
            rw (settle_grow hd (header l u) (omega (arith, whole, a, l, n)))
              (accept_header_body len (omega (arith, l, n)) u (sym a))
      ]
