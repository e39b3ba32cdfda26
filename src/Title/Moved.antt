-- ===== src/Title/Moved.antt =====
-- The loop of `flyd_init_setproctitle` that moves the environment.
use flydragon.Base.{
  ℕ, ◌+◌, ◌<◌, ◌≤◌, ◌≡◌, ◌⊎◌, inl, refl, sym, ap, ◌∙◌, subst, List, [], ◌∷◌, length, arith,
}
use flydragon.Title.{Bytes, put_string, move_all}
use flydragon.Title.Strings.{
  HasString, AreBytes, HasString-same, string_at-HasString, put_string_out, put_string-HasString,
  HasString-AreBytes,
}

-- The pointers and the strings go together.
abbrev pub Each : (ℕ → List ℕ → Type 0) → List ℕ → List (List ℕ) → Type 0
Each P [] [] = Unit {0}
Each P [] (cs ∷ css) = ⊥
Each P (e ∷ es) [] = ⊥
Each P (e ∷ es) (cs ∷ css) = P e cs × Each P es css

pub Each-map :
    (P Q : ℕ → List ℕ → Type 0) (es : List ℕ) (css : List (List ℕ))
    → ((e : ℕ) (cs : List ℕ) → P e cs → Q e cs)
    → Each P es css
    → Each Q es css
Each-map P Q [] [] f h = tt
Each-map P Q [] (cs ∷ css) f h = h
Each-map P Q (e ∷ es) [] f h = h
Each-map P Q (e ∷ es) (cs ∷ css) f h = (f e cs h.0, Each-map P Q es css f h.1)

-- The room that the strings need.
abbrev pub room : List (List ℕ) → ℕ
room [] = 0
room (cs ∷ css) = length cs + 1 + room css

-- The string stands at the address and outside of the `n` bytes from `a` on.
abbrev pub Outside : Bytes → ℕ → ℕ → ℕ → List ℕ → Type 0
Outside m a n e cs = HasString m e cs × ((e + length cs < a) ⊎ (a + n ≤ e))

-- The string stands at the address, between `a` and `b`.
abbrev pub Inside : Bytes → ℕ → ℕ → ℕ → List ℕ → Type 0
Inside m a b e cs = HasString m e cs × (a ≤ e) × (e + length cs < b)

Outside-put :
    (m : Bytes) (p n : ℕ) (cs : List ℕ) (e : ℕ) (ds : List ℕ)
    → Outside m p (length cs + 1 + n) e ds
    → Outside (put_string m p cs) (p + (length cs + 1)) n e ds
Outside-put m p n cs e ds h = (
  HasString-same m (put_string m p cs) e ds (λ q a b. put_string_out cs m p q (ground (arith, h.1)))
      h.0,
  ground (arith, h.1),
)

-- The block is filled with the strings, one behind the other; nothing else changes.
pub record Moves (p : ℕ) (css : List (List ℕ)) (m : Bytes) (r : List ℕ × Bytes) : Type 0 where
  pub unchanged : (q : ℕ) → (q < p) ⊎ (p + room css ≤ q) → r.1 q ≡ m q
  pub inside : Each (Inside r.1 p (p + room css)) r.0 css

-- A string is put first, and the others behind it.
Moves-put :
    (p : ℕ) (cs : List ℕ) (css : List (List ℕ)) (m : Bytes) (r : List ℕ × Bytes)
    → AreBytes cs
    → Moves (p + (length cs + 1)) css (put_string m p cs) r
    → Moves p (cs ∷ css) m (p ∷ r.0, r.1)
Moves-put p cs css m r b h = record {
  unchanged =
      λ q o. h.unchanged q (ground (arith, o)) ∙ put_string_out cs m p q (ground (arith, o));
  inside = (
    (
      HasString-same (put_string m p cs) r.1 p cs (λ q a b. h.unchanged q (inl (omega (arith, b))))
          (put_string-HasString cs m p b),
      omega arith,
      omega arith,
    ),
    Each-map (Inside r.1 (p + (length cs + 1)) (p + (length cs + 1) + room css))
        (Inside r.1 p (p + room (cs ∷ css))) r.0 css
        (λ e cs i. (i.0, omega (arith, i.1), omega (arith, i.2))) h.inside,
  );
}

pub move_all-Moves :
    (fuel p : ℕ) (es : List ℕ) (css : List (List ℕ)) (m : Bytes)
    → Each (Outside m p (room css)) es css
    → room css ≤ fuel
    → Moves p css m (move_all fuel p es m)
unfolding move_all
move_all-Moves fuel p [] [] m h f = record { unchanged = λ q o. refl; inside = tt }
move_all-Moves fuel p [] (cs ∷ css) m h f = absurd h
move_all-Moves fuel p (e ∷ es) [] m h f = absurd h
move_all-Moves fuel p (e ∷ es) (cs ∷ css) m h f =
    let first = string_at-HasString fuel m e cs h.0.0 (omega (arith, f)) in
    let step : List ℕ → List ℕ × Bytes = λ ds. (
      p ∷ (move_all fuel (p + (length ds + 1)) es (put_string m p ds)).0,
      (move_all fuel (p + (length ds + 1)) es (put_string m p ds)).1,
    ) in
    let rest =
      Each-map (Outside m p (room (cs ∷ css)))
        (Outside (put_string m p cs) (p + (length cs + 1)) (room css)) es css
        (Outside-put m p (room css) cs) h.1 in
    subst (Moves p (cs ∷ css) m) (ap step (sym first)) (
      Moves-put p cs css m _ (HasString-AreBytes m e cs h.0.0) (
        move_all-Moves fuel (p + (length cs + 1)) es css (put_string m p cs) rest
          (omega (arith, f))))
