-- ===== src/Recv/Readable.antt =====
-- One readable event at which some bytes came, in each of the four states of
-- `flyd_wait_request_handler`.
use flydragon.Base.{
  ℕ, ◌+◌, ◌≤◌, ◌<◌, ◌≡◌, ◌≢◌, ◌⊎◌, inl, inr, refl, ap, subst, ◌∙◌, sym, List, ◌∷◌, ◌++◌, arith,
  length, take, blit, update_self, eq_cases, take-blit, length-blit, length-append, take-length,
  some,
}
use flydragon.Comm.{RecvStat, hd_init, hd_recving, bd_init, bd_recving}
use flydragon.State.{Msg, Conn, Server, set_conn}
use flydragon.Recv.{got, moved, receive, move_on, proc_p1, proc_plast, wait_request_handler}
use flydragon.Recv.Framing.{announced, frame, frame_short, frame_header, frame_grow, frame_body}
use flydragon.Recv.Represents.{
  InHead, InBody, Represents, packet, Delivers, Keeps, Keeps-set, Keeps-Delivers,
}
use flydragon.Recv.Receive.{
  handler-receive, deposit-InHead, deposit-InBody, move_on-InHead, move_on-InBody,
  proc_plast-Delivers,
}
use flydragon.Recv.Headers.{proc_p1-Delivers}

-- Where the branches of the states lead.
module _ (lo : ℕ → ℕ) (i : ℕ) (t : Server) (stat : RecvStat) (n : ℕ) where
  receive_head_whole :
      ((stat ≡ hd_init) × (n ≡ 8)) ⊎ ((stat ≡ hd_recving) × ((t.conn i).irecvlen ≡ n))
      → receive lo stat n i t ≡ proc_p1 lo i t
  unfolding receive
  receive_head_whole h = ground arith

  receive_head_part :
      ((stat ≡ hd_init) × (n ≢ 8)) ⊎ ((stat ≡ hd_recving) × ((t.conn i).irecvlen ≢ n))
      → receive lo stat n i t ≡ move_on hd_recving n i t
  unfolding receive
  receive_head_part h = ground arith

  receive_body_whole :
      (stat ≡ bd_init) ⊎ (stat ≡ bd_recving)
      → (t.conn i).irecvlen ≡ n
      → receive lo stat n i t ≡ proc_plast i t
  unfolding receive
  receive_body_whole h e = ground arith

  receive_body_part :
      (stat ≡ bd_init) ⊎ (stat ≡ bd_recving)
      → (t.conn i).irecvlen ≢ n
      → receive lo stat n i t ≡ move_on bd_recving n i t
  unfolding receive
  receive_body_part h e = ground arith

Keeps-refl : (i : ℕ) (s : Server) → Keeps i s s
Keeps-refl i s = record { queue = refl; tasks = refl; sequence = refl; others = λ j n. refl }

module _ (lo : ℕ → ℕ) (i : ℕ) (s : Server) (p : List ℕ) (x : ℕ) (xs : List ℕ) where
  abbrev come : List ℕ
  come = x ∷ xs

  module _ (h : InHead (s.conn i) p) where
    abbrev filled_head : Conn
    filled_head = record (s.conn i) {
      data_head_info = blit (s.conn i).data_head_info (length p) come;
    }

    abbrev after_head : Server
    after_head = set_conn s i filled_head

    Keeps-after_head : Keeps i s after_head
    Keeps-after_head = Keeps-set filled_head (Keeps-refl i s) refl

    here_head : after_head.conn i ≡ filled_head
    here_head = update_self s.conn i filled_head

    -- The header is not complete yet.
    head_part :
        length p + length come < 8
        → Delivers i s
            (move_on hd_recving (length come) i after_head)
            (frame p come).0
            (frame p come).1
    unfolding move_on
    head_part few = rw (frame_short p come few) (
        Keeps-Delivers (Keeps-set _ Keeps-after_head (ap (λ (d : Conn). d.sequence) here_head)) (
          inl (
            subst (λ (d : Conn). InHead d (p ++ come))
              (sym (
                update_self after_head.conn i (moved hd_recving (length come) (after_head.conn i))
                ∙ ap (moved hd_recving (length come)) here_head))
              (move_on-InHead (s.conn i) p come h (omega arith) few))))

    head_filled : length p + length come ≡ 8 → take 8 (after_head.conn i).data_head_info ≡ p ++ come
    head_filled e =
        ap (λ (d : Conn). take 8 d.data_head_info) here_head
        ∙ take-blit (s.conn i).data_head_info (length p) come 8 (sym e) (omega (arith, h.room))
        ∙ ap (λ (q : List ℕ). q ++ come) h.filled

    -- The header is complete.
    head_whole :
        length p + length come ≡ 8
        → Delivers i s (proc_p1 lo i after_head) (frame p come).0 (frame p come).1
    head_whole e = rw (frame_header p come h.short e) (
        proc_p1-Delivers lo i s after_head (p ++ come) Keeps-after_head
          (ap (λ (d : Conn). length d.data_head_info) here_head
            ∙ length-blit (s.conn i).data_head_info (length p) come
            ∙ h.room)
          (head_filled e) (length-append p come ∙ e))

  module _ (h : InBody i (s.conn i) p) where
    abbrev filled_msg : Msg
    filled_msg = record h.msg { bytes = blit h.msg.bytes (length p) come }

    abbrev filled_body : Conn
    filled_body = record (s.conn i) { pnew_mem_pointer = some filled_msg }

    abbrev after_body : Server
    after_body = set_conn s i filled_body

    Keeps-after_body : Keeps i s after_body
    Keeps-after_body = Keeps-set filled_body (Keeps-refl i s) refl

    here_body : after_body.conn i ≡ filled_body
    here_body = update_self s.conn i filled_body

    -- The body is not complete yet.
    body_part :
        length p + length come < announced p
        → Delivers i s
            (move_on bd_recving (length come) i after_body)
            (frame p come).0
            (frame p come).1
    unfolding move_on
    body_part few = rw (frame_grow p come h.header few) (
        Keeps-Delivers (Keeps-set _ Keeps-after_body (ap (λ (d : Conn). d.sequence) here_body)) (
          inr (
            subst (λ (d : Conn). InBody i d (p ++ come))
              (sym (
                update_self after_body.conn i (moved bd_recving (length come) (after_body.conn i))
                ∙ ap (moved bd_recving (length come)) here_body))
              (move_on-InBody i (s.conn i) p come h (omega arith) few))))

    body_filled : length p + length come ≡ announced p → filled_msg.bytes ≡ p ++ come
    body_filled e =
        let n = length-blit h.msg.bytes (length p) come in
        sym (take-length filled_msg.bytes)
        ∙ ap (λ (k : ℕ). take k filled_msg.bytes) (n ∙ h.size ∙ sym e)
        ∙ take-blit h.msg.bytes (length p) come (length p + length come) refl
            (omega (arith, h.size))
        ∙ ap (λ (q : List ℕ). q ++ come) h.filled

    filled_packet :
        length p + length come ≡ announced p → filled_msg ≡ packet i (s.conn i).sequence (p ++ come)
    filled_packet e = ground (arith, body_filled e, h.owner, h.stamp)

    -- The body is complete.
    body_whole :
        length p + length come ≡ announced p
        → Delivers i s (proc_plast i after_body) (frame p come).0 (frame p come).1
    body_whole e = rw (frame_body p x xs h.header e) (
        proc_plast-Delivers i s after_body (p ++ come) Keeps-after_body
          (ap (λ (d : Conn). d.pnew_mem_pointer) here_body ∙ ap some (filled_packet e))
          (ap (λ (d : Conn). length d.data_head_info) here_body ∙ h.room))

  irecvlen_head : (h : InHead (s.conn i) p) → ((after_head h).conn i).irecvlen ≡ (s.conn i).irecvlen
  irecvlen_head h = ap (λ (d : Conn). d.irecvlen) (here_head h)

  irecvlen_body :
      (h : InBody i (s.conn i) p) → ((after_body h).conn i).irecvlen ≡ (s.conn i).irecvlen
  irecvlen_body h = ap (λ (d : Conn). d.irecvlen) (here_body h)

  -- While a header is awaited.
  receive_head :
      (h : InHead (s.conn i) p)
      → length come ≤ (s.conn i).irecvlen
      → Delivers i s
          (receive lo (s.conn i).cur_stat (length come) i (after_head h))
          (frame p come).0
          (frame p come).1
  receive_head h fits = elim (eq_cases (length p + length come) 8) [
    | inl e ↦
        rw
          (receive_head_whole lo i (after_head h) (s.conn i).cur_stat (length come) (elim h.stat [
            | inl (q, z) ↦ inl (q, omega arith)
            | inr (q, z) ↦ inr (q, omega (arith, irecvlen_head h, h.wants))
          ]))
          (head_whole h e)
    | inr n ↦
        rw
          (receive_head_part lo i (after_head h) (s.conn i).cur_stat (length come) (elim h.stat [
            | inl (q, z) ↦ inl (q, λ w. n (omega arith))
            | inr (q, z) ↦ inr (q, λ w. n (omega (arith, irecvlen_head h, h.wants)))
          ]))
          (head_part h (omega (arith, h.wants)))
  ]

  -- While a body is awaited.
  receive_body :
      (h : InBody i (s.conn i) p)
      → length come ≤ (s.conn i).irecvlen
      → Delivers i s
          (receive lo (s.conn i).cur_stat (length come) i (after_body h))
          (frame p come).0
          (frame p come).1
  receive_body h fits = elim (eq_cases (length p + length come) (announced p)) [
    | inl e ↦
        rw
          (receive_body_whole lo i (after_body h) (s.conn i).cur_stat (length come)
            (elim h.stat [ inl (q, z) ↦ inl q | inr (q, z) ↦ inr q ])
            (omega (arith, irecvlen_body h, h.wants)))
          (body_whole h e)
    | inr n ↦
        rw
          (receive_body_part lo i (after_body h) (s.conn i).cur_stat (length come)
            (elim h.stat [ inl (q, z) ↦ inl q | inr (q, z) ↦ inr q ])
            (λ w. n (omega (arith, irecvlen_body h, h.wants))))
          (body_part h (omega (arith, h.wants)))
  ]

  -- A readable event: whatever part of the wanted bytes comes, the packets that it completes are
  -- delivered and the rest is kept, as the reference says.
  pub wait_request_handler-Delivers :
      (now : ℕ)
      → Represents i (s.conn i) p
      → length come ≤ (s.conn i).irecvlen
      → Delivers i s (wait_request_handler lo (got come) now i s) (frame p come).0 (frame p come).1
  wait_request_handler-Delivers now (inl h) fits =
      rw (handler-receive lo x xs now i s, deposit-InHead come (s.conn i) p h) (receive_head h fits)
  wait_request_handler-Delivers now (inr h) fits =
      rw (handler-receive lo x xs now i s, deposit-InBody i come (s.conn i) p h)
        (receive_body h fits)
