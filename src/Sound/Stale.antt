-- ===== src/Sound/Stale.antt =====
-- The sequence numbers keep what a client left behind from the next one on its connection.
use flydragon.Base.{ℕ, ◌+◌, ◌*◌, ◌^◌, ◌<◌, ◌≡◌, ◌≢◌, sym, ap, ◌∙◌, arith, Bool, false, u64}
use flydragon.State.{Msg, Server}
use flydragon.Pool.Owned.{occurs_not_contained}
use flydragon.Close.{zd_closesocket_proc}
use flydragon.Close.Stale.{zd_closesocket_proc-Closed}
use flydragon.Send.{SendCall, send_one}
use flydragon.Send.Same.{Same}
use flydragon.Logic.{process}
use flydragon.Logic.Gate.{stale_messages}
use flydragon.Sound.{IsSound}
use flydragon.Sound.Closing.{zd_closesocket_proc-StaysSound}
use flydragon.Sound.Serving.{IsOpen, IsOpen-owners}
use flydragon.Sound.Advance.{Advances, Advances-refl, Advances-trans}
use flydragon.Sound.AdvanceSteps.{Step-Advances}
use flydragon.Sound.Run.{Run, here, next, steps, Step-KeepsSound, Run-IsSound}

-- What some steps do to the number of a connection, and that it still exists.
record RunAdvances (j most : ℕ) (s t : Server) : Type 0 where
  number : Advances j most s t
  exists : j < t.next_conn

Run-RunAdvances :
    {s t : Server} (j : ℕ) (r : Run s t)
    → IsSound s
    → j < s.next_conn
    → RunAdvances j (4 * steps r) s t
Run-RunAdvances {s} j here h le = record { number = Advances-refl j 0 s; exists = le }
Run-RunAdvances j (next r room st) h le =
    let a = Run-RunAdvances j r h le in
    let sound = Run-IsSound r h in
    let b = Advances-trans a.number (Step-Advances j st sound room a.exists) in
    let k = Step-KeepsSound st room sound in
    record {
      number = record { count = b.count; goes = b.goes; few = omega (arith, b.few) };
      exists = omega (arith, a.exists, k.next);
    }

other_number : (n k p : ℕ) → n < 2 ^ 64 → k + 1 < 2 ^ 64 → u64 p ≡ u64 (u64 (n + 1) + k) → p ≢ n
other_number n k p a b e same = omega arith

-- If a connection of a sound state has a descriptor and is given up, then a message that carries its
-- number, whether it was received or is to be sent, is never taken for one of the next client: in
-- every state that the worker reaches by fewer than about 2 ^ 62 steps, it is not handled, with no
-- effect, and as a message to be sent it leaves the queue with no change of the connection, whoever
-- has it then, or of its wire.
pub Run-stale :
    (now : ℕ) (m : Msg) (s t : Server) (r : Run (zd_closesocket_proc now m.conn s) t)
    → IsSound s
    → IsOpen m.conn s
    → s.next_conn + 1 < 2 ^ 31
    → m.sequence ≡ (s.conn m.conn).sequence
    → m.sequence < 2 ^ 64
    → 4 * steps r + 1 < 2 ^ 64
    → ((left_over : ℕ → ℕ) (later : ℕ) → process left_over later m t ≡ t)
      × ((call : SendCall) (ok : Bool)
          → Same m.conn t (send_one call ok m t).0 × ((send_one call ok m t).1 ≡ false))
Run-stale now m s t r h o room stamp fits few =
    let j = m.conn in
    let z = IsOpen-owners j s h o in
    let closed = zd_closesocket_proc-StaysSound now j s h room o.exists (omega (arith, z)) in
    let (number, _, _, _) =
      (zd_closesocket_proc-Closed now j s).first
        (occurs_not_contained j s.recyconnection_list (omega (arith, z))) in
    let a = (Run-RunAdvances j r closed.sound (omega (arith, closed.next, o.exists))).number in
    stale_messages m t (
      other_number m.sequence a.count (t.conn j).sequence fits (omega (arith, a.few, few)) (
        a.goes.number
        ∙ ap (λ (n : ℕ). u64 (n + a.count)) (number ∙ ap (λ (n : ℕ). u64 (n + 1)) (sym stamp))))
