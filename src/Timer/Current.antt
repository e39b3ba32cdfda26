-- ===== src/Timer/Current.antt =====
-- The checks for a connection under one of its sequence numbers.
use flydragon.Base.{
  ltb, ◌≤◌, ◌<◌, ◌++◌, inl, inr, eq_cases, ℕ, ◌+◌, ◌≡◌, ◌≢◌, refl, ap, List, [], ◌∷◌, arith, ◌==◌,
  if◌then◌else◌,
}
use flydragon.State.{Entry}
use flydragon.Timer.{insert}
use flydragon.Timer.Delete.{others}

-- How many checks there are for connection `i` under the number `n`.
abbrev pub current : ℕ → ℕ → List Entry → ℕ
current i n [] = 0
current i n (e ∷ es) =
    (if e.timer.conn == i then if e.timer.sequence == n then 1 else 0 else 0) + current i n es

pub current-insert :
    (i n : ℕ) (e : Entry) (es : List Entry) → current i n (insert e es) ≡ current i n (e ∷ es)
unfolding insert
current-insert i n e [] = refl
current-insert i n e (x ∷ xs) = ground (arith, current-insert i n e xs)

-- The checks of another connection stay.
pub current-others :
    (i j n : ℕ) (es : List Entry) → i ≢ j → current j n (others i es) ≡ current j n es
current-others i j n [] d = refl
current-others i j n (e ∷ es) d = ground (arith, d, current-others i j n es d)

-- How many checks have their time after `last`.
abbrev pub late : ℕ → List Entry → ℕ
late last [] = 0
late last (e ∷ es) = (if ltb last e.time then 1 else 0) + late last es

pub late-insert :
    (last : ℕ) (e : Entry) (es : List Entry) → late last (insert e es) ≡ late last (e ∷ es)
unfolding insert
late-insert last e [] = refl
late-insert last e (x ∷ xs) = ground (arith, late-insert last e xs)

pub late-others : (last i : ℕ) (es : List Entry) → late last (others i es) ≤ late last es
late-others last i [] = omega arith
late-others last i (e ∷ es) = ground (arith, late-others last i es)

-- A check for connection `i` under the number `n` in a list, not after `last`.
pub record Found (i n last : ℕ) (es : List Entry) : Type 0 where
  pub before : List Entry
  pub entry : Entry
  pub after : List Entry
  pub cut : es ≡ before ++ entry ∷ after
  pub conn : entry.timer.conn ≡ i
  pub number : entry.timer.sequence ≡ n
  pub in_time : entry.time ≤ last

-- If there is one and none is late, it is found.
pub current-Found :
    (i n last : ℕ) (es : List Entry) → 0 < current i n es → late last es ≡ 0 → Found i n last es
current-Found i n last [] h l = absurd (omega arith)
current-Found i n last (e ∷ es) h l = elim (eq_cases e.timer.conn i) [
  | inr d ↦ further (current-Found i n last es (ground (arith, h, d)) (ground (arith, l)))
  | inl c ↦ elim (eq_cases e.timer.sequence n) [
    | inr d ↦ further (current-Found i n last es (ground (arith, h, d)) (ground (arith, l)))
    | inl q ↦ record {
      before = [];
      entry = e;
      after = es;
      cut = refl;
      conn = c;
      number = q;
      in_time = ground (arith, l);
    }
  ]
]
  where
    further : Found i n last es → Found i n last (e ∷ es)
    further f = record {
      before = e ∷ f.before;
      entry = f.entry;
      after = f.after;
      cut = ap (◌∷◌ e) f.cut;
      conn = f.conn;
      number = f.number;
      in_time = f.in_time;
    }
