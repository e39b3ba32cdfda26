-- ===== src/Sound/Returns.antt =====
-- A connection that was given up comes back to the pool.
use flydragon.Base.{ℕ, ◌+◌, ◌^◌, ◌≤◌, ◌<◌, ◌≡◌, ◌⊎◌, inl, inr, refl, ap, ◌∙◌, arith, [], ◌∷◌}
use flydragon.State.{Server}
use flydragon.Pool.{recy_round}
use flydragon.Pool.Owned.{occurs, occurs-append, occurs_not_contained}
use flydragon.Close.{zd_closesocket_proc}
use flydragon.Close.Stale.{zd_closesocket_proc-Closed}
use flydragon.Send.Receiving.{send_round-ReceivesSame}
use flydragon.Sound.{IsSound}
use flydragon.Sound.Room.{IsSound-room}
use flydragon.Sound.Closing.{zd_closesocket_proc-StaysSound}
use flydragon.Sound.Serving.{IsOpen, IsOpen-owners, on_readable-KeepsSound, task-Keeps}
use flydragon.Sound.Waiting.{StillWaits, StillWaits-trans, Keeps-StillWaits}
use flydragon.Sound.Recycled.{WaitsOrFree, recy_round-WaitsOrFree, recy_round_frees}
use flydragon.Sound.Meanwhile.{process_event-StillWaits, monitor_round-StillWaits}
use flydragon.Sound.Run.{Step, event, task, sends, recycles, monitors, Run, here, next, Run-IsSound}

Step-WaitsOrFree :
    {s t : Server} (j : ℕ)
    → Step s t
    → IsSound s
    → s.next_conn + 2 < 2 ^ 31
    → 0 < occurs j s.recyconnection_list
    → WaitsOrFree j s t
Step-WaitsOrFree j (event lo e b s o) h room w = inl (
    process_event-StillWaits j lo e s b (exists_if (h.pooled.exists j) (omega (arith, w)))
      (on_readable-KeepsSound lo e s b h room o).next w)
  where
    exists_if : {a b c : ℕ} → (a ≤ b → c ≡ 0) → 0 < c → b < a
    exists_if g o = grind (arith, g)
Step-WaitsOrFree j (task lo now s t e) h room w =
    inl (Keeps-StillWaits j s t w (task-Keeps lo now s t e j))
Step-WaitsOrFree j (sends taken kernel s) h room w =
    inl (Keeps-StillWaits j s _ w (send_round-ReceivesSame j taken kernel s).keeps)
Step-WaitsOrFree j (recycles now s) h room w = recy_round-WaitsOrFree now j s w
Step-WaitsOrFree j (monitors now s) h room w = inl (monitor_round-StillWaits j now s h w)

-- On the way from `s` to `t` connection `j` is free in some state.
pub record Freed (j : ℕ) (s t : Server) : Type 0 where
  pub state : Server
  pub before : Run s state
  pub free : 0 < occurs j state.freeconnection_list
  pub after : Run state t

Run-Freed :
    {s t : Server} (j : ℕ)
    → Run s t
    → IsSound s
    → 0 < occurs j s.recyconnection_list
    → StillWaits j s t ⊎ Freed j s t
Run-Freed j here h w = inl (record { waits = w; since = refl; settings = refl })
Run-Freed j (next r room st) h w = elim (Run-Freed j r h w) [
  | inr f ↦
      inr
        (record { state = f.state; before = f.before; free = f.free; after = next f.after room st })
  | inl a ↦ elim (Step-WaitsOrFree j st (Run-IsSound r h) room a.waits) [
    | inl b ↦ inl (StillWaits-trans a b)
    | inr f ↦ inr (record { state = _; before = next r room st; free = f; after = here })
  ]
]

-- If a connection of a sound state has a descriptor and is given up, then whatever the worker does
-- next, while it is not to end and its connections can be counted, the first round of the recycling
-- thread after the waiting time has it back in the free list, if it was not back before.
pub Run-returns :
    (now later j : ℕ) (s t : Server)
    → IsSound s
    → IsOpen j s
    → s.stop_event ≡ 0
    → s.next_conn + 1 < 2 ^ 31
    → Run (zd_closesocket_proc now j s) t
    → t.next_conn + 2 < 2 ^ 31
    → now + s.recy_wait_time ≤ later
    → Freed j (zd_closesocket_proc now j s) (recy_round later t).0
Run-returns now later j s t h o running room r many over =
    let z = IsOpen-owners j s h o in
    let u = zd_closesocket_proc now j s in
    let sound = (zd_closesocket_proc-StaysSound now j s h room o.exists (omega (arith, z))).sound in
    let c = zd_closesocket_proc-Closed now j s in
    let (_, since, queue, _) =
      c.first (occurs_not_contained j s.recyconnection_list (omega (arith, z))) in
    let w : 0 < occurs j u.recyconnection_list =
      ground (arith, ap (occurs j) queue, occurs-append j s.recyconnection_list (j ∷ [])) in
    elim (Run-Freed j r sound w) [
      | inr f ↦ record {
        state = f.state;
        before = f.before;
        free = f.free;
        after = next f.after many (recycles later t);
      }
      | inl a ↦
          let k = Run-IsSound r sound in
          let stop = ap (λ (p : ℕ × ℕ). p.1) (a.settings ∙ c.settings) in
          let delay = ap (λ (p : ℕ × ℕ). p.0) (a.settings ∙ c.settings) in
          record {
            state = (recy_round later t).0;
            before = next r many (recycles later t);
            free =
                recy_round_frees later j t (stop ∙ running) k.pooled
                  (omega (arith, IsSound-room t k, many)) a.waits
                  (omega (arith, a.since, since, delay, over));
            after = here;
          }
    ]
