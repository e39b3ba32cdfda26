-- ===== src/Logic/Gate.antt =====
-- Which messages `threadRecvProcFunc` hands over to a handler.
use flydragon.Base.{
  ℕ, zero, suc, List, [], ◌∷◌, ◌-◌, take, drop, bit_xor, ◌^◌, contains, ◌<◌, ◌+◌, ◌≡◌, ◌≢◌, ◌↔◌,
  inl, inr, refl, Option, none, some, Bool, true, false, arith, ◌==◌, get_elem?, leb, if◌then◌else◌,
  Bool-cases, sym, ap, ◌∙◌, u64, ==→eq, eq→==, ne→==,
}
use flydragon.Comm.Header.{read_header}
use flydragon.Crc.{get_crc}
use flydragon.Crc.Bitwise.{bitwise_crc, AreBytes, get_crc-bitwise_crc}
use flydragon.State.{Msg, Server}
use flydragon.Send.{SendCall, send_one}
use flydragon.Close.{zd_closesocket_proc}
use flydragon.Send.Same.{Same}
use flydragon.Send.Queue.{send_one_stale}
use flydragon.Close.Stale.{zd_closesocket_proc-Closed}
use flydragon.Logic.{
  Command, handle_ping, handle_register, handle_log_in, status_handler, crc_ok, find_handler,
  process,
}

-- The message code and its handler.
abbrev pub Handles : ℕ → Command → Type 0
Handles code handle_ping = code ≡ 0
Handles code handle_register = code ≡ 5
Handles code handle_log_in = code ≡ 6

-- The part of `find_handler` that looks up the code.
abbrev lookup : ℕ → Option Command
lookup code =
    if leb 7 code then none else elim (get_elem? status_handler code) [ none ↦ none | some c ↦ c ]

handler_code : (code : ℕ) (c : Command) → lookup code ≡ some c → Handles code c
handler_code zero handle_ping h = refl
handler_code zero handle_register h = absurd (cc)
handler_code zero handle_log_in h = absurd (cc)
handler_code (suc zero) c h = absurd (cc)
handler_code (suc (suc zero)) c h = absurd (cc)
handler_code (suc (suc (suc zero))) c h = absurd (cc)
handler_code (suc (suc (suc (suc zero)))) c h = absurd (cc)
handler_code (suc (suc (suc (suc (suc zero))))) handle_register h = refl
handler_code (suc (suc (suc (suc (suc zero))))) handle_ping h = absurd (cc)
handler_code (suc (suc (suc (suc (suc zero))))) handle_log_in h = absurd (cc)
handler_code (suc (suc (suc (suc (suc (suc zero)))))) handle_log_in h = refl
handler_code (suc (suc (suc (suc (suc (suc zero)))))) handle_ping h = absurd (cc)
handler_code (suc (suc (suc (suc (suc (suc zero)))))) handle_register h = absurd (cc)
handler_code (suc (suc (suc (suc (suc (suc (suc n))))))) c h = ground arith

code_handler : (code : ℕ) (c : Command) → Handles code c → lookup code ≡ some c
code_handler code handle_ping h = rw h refl
code_handler code handle_register h = rw h refl
code_handler code handle_log_in h = rw h refl

-- The tests of `find_handler`, one by one.
pub find_handler-some :
    (m : Msg) (s : Server) (c : Command)
    → (find_handler m s ≡ some c) ↔ (
        (crc_ok m ≡ true)
        × ((s.conn m.conn).sequence ≡ m.sequence)
        × Handles (read_header m.bytes).msg_code c)
unfolding find_handler
find_handler-some m s c = elim (Bool-cases (crc_ok m)) [
  | inr e ↦ rw e (λ h. absurd (cc h), λ h. absurd (cc h.0))
  | inl e ↦ rw e (elim (Bool-cases ((s.conn m.conn).sequence == m.sequence)) [
    | inr q ↦ rw q (λ h. absurd (cc h), λ h. absurd (cc (q, eq→== _ _ h.1)))
    | inl q ↦ rw q (λ h. (refl, ==→eq _ _ q, handler_code _ c h), λ h. code_handler _ c h.2)
  ])
]

-- The check of a message, by the definition of CRC-32: a header alone carries 0, and else the header
-- carries the CRC of the bytes that it announces behind itself.
pub record IsIntact (m : Msg) : Type 0 where
  pub header : (read_header m.bytes).pkg_len ≡ 8 → (read_header m.bytes).crc32 ≡ 0
  pub body :
      (read_header m.bytes).pkg_len ≢ 8
      → bit_xor
          (bitwise_crc 0xffffffff (take ((read_header m.bytes).pkg_len - 8) (drop 8 m.bytes)))
          0xffffffff
        ≡ (read_header m.bytes).crc32

AreBytes-take : (n : ℕ) (bs : List ℕ) → AreBytes bs → AreBytes (take n bs)
AreBytes-take zero bs h = tt
AreBytes-take (suc n) [] h = tt
AreBytes-take (suc n) (b ∷ bs) h = (h.0, AreBytes-take n bs h.1)

AreBytes-drop : (n : ℕ) (bs : List ℕ) → AreBytes bs → AreBytes (drop n bs)
AreBytes-drop zero bs h = h
AreBytes-drop (suc n) [] h = tt
AreBytes-drop (suc n) (b ∷ bs) h = AreBytes-drop n bs h.1

crc_ok-IsIntact : (m : Msg) → AreBytes m.bytes → (crc_ok m ≡ true) ↔ IsIntact m
unfolding crc_ok
crc_ok-IsIntact m are =
    let len = (read_header m.bytes).pkg_len in
    let rest = take (len - 8) (drop 8 m.bytes) in
    let same : get_crc rest ≡ bit_xor (bitwise_crc 0xffffffff rest) 0xffffffff =
      get_crc-bitwise_crc rest (AreBytes-take (len - 8) _ (AreBytes-drop 8 m.bytes are)) in
    elim (Bool-cases (8 == len)) [
      | inl e ↦ rw e (
        λ h. record {
          header = λ q. ==→eq (read_header m.bytes).crc32 0 h;
          body = λ d. absurd (d (sym (==→eq 8 len e)));
        },
        λ i. eq→== (read_header m.bytes).crc32 0 (i.header (sym (==→eq 8 len e))),
      )
      | inr e ↦
          let d : len ≢ 8 = λ q. absurd (cc (eq→== 8 len (sym q), e)) in
          rw e (
            λ h. record {
              header = λ q. absurd (d q);
              body = λ n. sym same ∙ ==→eq (get_crc rest) (read_header m.bytes).crc32 h;
            },
            λ i. eq→== (get_crc rest) (read_header m.bytes).crc32 (same ∙ i.body d),
          )
    ]

-- A message of bytes is handed over to a handler just if it is intact, which is said by CRC-32 as it is
-- defined bit by bit, its sequence number is that of its connection, and the handler is that of its
-- code: 0 is a ping, 5 a registration, 6 a login.
pub find_handler-checked :
    (m : Msg) (s : Server) (c : Command)
    → AreBytes m.bytes
    → (find_handler m s ≡ some c) ↔ (
        IsIntact m
        × ((s.conn m.conn).sequence ≡ m.sequence)
        × Handles (read_header m.bytes).msg_code c)
find_handler-checked m s c are =
    let (into, back) = crc_ok-IsIntact m are in
    let (gate, admit) = find_handler-some m s c in
    (
      λ h. let (ok, number, code) = gate h in (into ok, number, code),
      λ h. let (intact, number, code) = h in admit (back intact, number, code),
    )

find_handler_stale :
    (m : Msg) (s : Server) → (s.conn m.conn).sequence ≢ m.sequence → find_handler m s ≡ none
unfolding find_handler
find_handler_stale m s d = elim (Bool-cases (crc_ok m)) [
  | inl e ↦ rw (e, ne→== _ _ d) refl
  | inr e ↦ rw e refl
]

process_stale :
    (left_over : ℕ → ℕ) (now : ℕ) (m : Msg) (s : Server)
    → (s.conn m.conn).sequence ≢ m.sequence
    → process left_over now m s ≡ s
unfolding process
process_stale left_over now m s d = rw (find_handler_stale m s d, process) refl

-- A message that carries another number than its connection is not handled, and leaves the queue with
-- no change of the connection or of its wire.
pub stale_messages :
    (m : Msg) (s : Server)
    → (s.conn m.conn).sequence ≢ m.sequence
    → ((left_over : ℕ → ℕ) (now : ℕ) → process left_over now m s ≡ s)
      × ((call : SendCall) (ok : Bool)
          → Same m.conn s (send_one call ok m s).0 × ((send_one call ok m s).1 ≡ false))
stale_messages m s d =
    (λ left_over now. process_stale left_over now m s d, λ call ok. send_one_stale call ok m s d)

-- Once a connection that was not to be recycled yet is given up, a message that carries its earlier
-- number is not handled, with no effect, and as a message to be sent it leaves the queue with no
-- change of the connection or of its wire.
closed_messages :
    (now : ℕ) (m : Msg) (s : Server)
    → contains m.conn s.recyconnection_list ≡ false
    → m.sequence ≡ (s.conn m.conn).sequence
    → m.sequence < 2 ^ 64
    → let t = zd_closesocket_proc now m.conn s in
      ((left_over : ℕ → ℕ) → process left_over now m t ≡ t)
      × ((call : SendCall) (ok : Bool)
          → Same m.conn t (send_one call ok m t).0 × ((send_one call ok m t).1 ≡ false))
closed_messages now m s h q b =
    let bumped = ((zd_closesocket_proc-Closed now m.conn s).first h).0 in
    let d : ((zd_closesocket_proc now m.conn s).conn m.conn).sequence ≢ m.sequence =
      λ e. next_number m.sequence b (sym e ∙ bumped ∙ ap (λ (n : ℕ). u64 (n + 1)) (sym q)) in
    let (handled, taken) = stale_messages m _ d in (λ left_over. handled left_over now, taken)
  where
    next_number : (n : ℕ) → n < 2 ^ 64 → n ≢ u64 (n + 1)
    next_number n b = omega arith
