-- ===== src/Sound/Numbers.antt =====
-- How the sequence number of a connection advances when it is given up, recycled and taken.
use flydragon.Base.{
  ℕ, zero, suc, ◌+◌, ◌<◌, ◌≡◌, inl, inr, ap, subst, List, [], ◌∷◌, arith, length, Bool, true, false,
  contains, u64, ◌==◌, if◌then◌else◌, Bool-cases, Option-cases, eq_cases, is_positive,
}
use flydragon.State.{Timer, Conn, Server}
use flydragon.State.Held.{Held, Keeps}
use flydragon.Pool.{
  free_connection, put_one_to_free, first_due, recycle, recy_scan, is_due, recy_round,
}
use flydragon.Pool.Owned.{occurs, occurs-append, occurs_erased, first_due-occurs}
use flydragon.Logic.{proc_ping_time_out_checking}
use flydragon.Close.{zd_closesocket_proc}
use flydragon.Close.Stale.{zd_closesocket_proc-Closed}
use flydragon.Close.Elsewhere.{zd_closesocket_proc-Untouched}
use flydragon.Heartbeat.{check_all}
use flydragon.Heartbeat.Checks.{check_cases}
use flydragon.Sound.Recycling.{occurs-erase_ne}

-- From `s` to `t` the number of connection `j` goes on by `count`, up to a multiple of 2 ^ 64.
pub record Goes (j count : ℕ) (s t : Server) : Type 0 where
  pub number : u64 (t.conn j).sequence ≡ u64 ((s.conn j).sequence + count)

pub Goes-refl : (j : ℕ) (s : Server) → Goes j 0 s s
Goes-refl j s = record { number = omega arith }

pub Goes-trans : {j k l : ℕ} {s t u : Server} → Goes j k s t → Goes j l t u → Goes j (k + l) s u
Goes-trans a b = record { number = omega (arith, a.number, b.number) }

-- The number is the same.
pub same-Goes : (j : ℕ) (s t : Server) → (t.conn j).sequence ≡ (s.conn j).sequence → Goes j 0 s t
same-Goes j s t e = record { number = omega (arith, e) }

pub Keeps-Goes : (j : ℕ) (s t : Server) → Keeps j s t → Goes j 0 s t
Keeps-Goes j s t k = same-Goes j s t (ap (λ (c : Held). c.3) k.held)

-- The number goes on just when the connection comes to wait.
pub record ComesToWait (j : ℕ) (s t : Server) : Type 0 where
  pub count : ℕ
  pub goes : Goes j count s t
  pub more : count + occurs j s.recyconnection_list ≡ occurs j t.recyconnection_list

pub zd_closesocket_proc-ComesToWait :
    (now i j : ℕ) (s : Server) → ComesToWait j s (zd_closesocket_proc now i s)
zd_closesocket_proc-ComesToWait now i j s =
    let t = zd_closesocket_proc now i s in
    let c = zd_closesocket_proc-Closed now i s in
    let split = occurs-append j s.recyconnection_list (i ∷ []) in
    elim (eq_cases i j) [
      | inr d ↦ record {
        count = 0;
        goes =
            same-Goes j s t
              (ap (λ (c : Conn). c.sequence) (zd_closesocket_proc-Untouched i j d now s).conn);
        more = elim (Bool-cases (contains i s.recyconnection_list)) [
          | inl e ↦ let (_, _, q, _) = c.again e in omega (arith, ap (occurs j) q)
          | inr e ↦ let (_, _, q, _) = c.first e in ground (arith, ap (occurs j) q, split, d)
        ];
      }
      | inl e ↦ subst (λ (k : ℕ). ComesToWait k s t) e (own now i s)
    ]
  where
    own : (now i : ℕ) (s : Server) → ComesToWait i s (zd_closesocket_proc now i s)
    own now i s =
        let t = zd_closesocket_proc now i s in
        let c = zd_closesocket_proc-Closed now i s in
        elim (Bool-cases (contains i s.recyconnection_list)) [
          | inl e ↦
              let (number, _, q, _) = c.again e in
              record {
                count = 0;
                goes = same-Goes i s t number;
                more = omega (arith, ap (occurs i) q);
              }
          | inr e ↦
              let (number, _, q, _) = c.first e in
              record {
                count = 1;
                goes = record { number = omega (arith, number) };
                more =
                    ground (arith, ap (occurs i) q, occurs-append i s.recyconnection_list (i ∷ []));
              }
        ]

-- The checks of the monitor.
check-ComesToWait :
    (now j : ℕ) (p : Timer) (s : Server) → ComesToWait j s (proc_ping_time_out_checking now p s)
check-ComesToWait now j p s = elim (check_cases now p s) [
  | inl (_, _, e) ↦
      let r = zd_closesocket_proc-ComesToWait now p.conn j s in
      rw e (record { count = r.count; goes = record { number = r.goes.number }; more = r.more })
  | inr (_, e) ↦
      rw e (record { count = 0; goes = record { number = omega arith }; more = omega arith })
]

pub check_all-ComesToWait :
    (now j : ℕ) (ps : List Timer) (s : Server) → ComesToWait j s (check_all now ps s)
unfolding check_all
check_all-ComesToWait now j [] s = record { count = 0; goes = Goes-refl j s; more = omega arith }
check_all-ComesToWait now j (p ∷ ps) s =
    let a = check-ComesToWait now j p s in
    let b = check_all-ComesToWait now j ps (proc_ping_time_out_checking now p s) in
    record {
      count = a.count + b.count;
      goes = Goes-trans a.goes b.goes;
      more = omega (arith, a.more, b.more);
    }

-- The number goes on just when the connection leaves the queue.
pub record Leaves (j : ℕ) (s t : Server) : Type 0 where
  pub count : ℕ
  pub goes : Goes j count s t
  pub fewer : count + occurs j t.recyconnection_list ≡ occurs j s.recyconnection_list

Leaves-refl : (j : ℕ) (s : Server) → Leaves j s s
Leaves-refl j s = record { count = 0; goes = Goes-refl j s; fewer = omega arith }

Leaves-trans : {j : ℕ} {s t u : Server} → Leaves j s t → Leaves j t u → Leaves j s u
Leaves-trans a b = record {
  count = a.count + b.count;
  goes = Goes-trans a.goes b.goes;
  fewer = omega (arith, a.fewer, b.fewer);
}

recycle-Leaves :
    (i j : ℕ) (s : Server) → 0 < occurs i s.recyconnection_list → Leaves j s (recycle i s)
unfolding recycle free_connection put_one_to_free
recycle-Leaves i j s w = elim (eq_cases i j) [
  | inr d ↦ record {
    count = 0;
    goes = same-Goes j s _ (ground (arith, d));
    fewer = omega (arith, occurs-erase_ne i j s.recyconnection_list d);
  }
  | inl e ↦
      subst (λ (k : ℕ). Leaves k s (recycle i s)) e
        (record {
          count = 1;
          goes = record { number = ground arith };
          fewer = omega (arith, w, occurs_erased i s.recyconnection_list);
        })
]

scan-Leaves :
    (due : Server → ℕ → Bool) (fuel j : ℕ) (s : Server) → Leaves j s (recy_scan fuel due s)
unfolding recy_scan
scan-Leaves due zero j s = Leaves-refl j s
scan-Leaves due (suc fuel) j s = elim (Option-cases (first_due (due s) s.recyconnection_list)) [
  | inl e ↦ rw (e, recy_scan) (Leaves-refl j s)
  | inr (i, e) ↦
      rw (e, recy_scan)
        (Leaves-trans (recycle-Leaves i j s (first_due-occurs (due s) s.recyconnection_list i e))
          (scan-Leaves due fuel j (recycle i s)))
]

maybe_scan-Leaves :
    (due : Server → ℕ → Bool) (fuel j : ℕ) (positive : Bool) (s : Server)
    → Leaves j s (if positive then recy_scan fuel due s else s)
maybe_scan-Leaves due fuel j true s = scan-Leaves due fuel j s
maybe_scan-Leaves due fuel j false s = Leaves-refl j s

pub recy_round-Leaves : (now j : ℕ) (s : Server) → Leaves j s (recy_round now s).0
unfolding recy_round
recy_round-Leaves now j s =
    let a =
      maybe_scan-Leaves (is_due now) (length s.recyconnection_list) j
        (is_positive s.total_recyconnection_n) s in
    elim (Bool-cases (s.stop_event == 1)) [
      | inr e ↦ rw e a
      | inl e ↦ rw e (Leaves-trans a (maybe_scan-Leaves (λ _ _. true) _ j _ _))
    ]
