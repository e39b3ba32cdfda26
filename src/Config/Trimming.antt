-- ===== src/Config/Trimming.antt =====
-- `Trim` of app/flyd_string.cc on blanks at the ends.
use flydragon.Base.{ℕ, ◌≡◌, refl, ap, ◌∙◌, List, [], ◌∷◌, ◌++◌, true}
use flydragon.Config.{isspace, ltrim, rtrim, put_before, trim}

-- No blank at either end.
pub record IsTrimmed (s : List ℕ) : Type 0 where
  pub left : ltrim s ≡ s
  pub right : rtrim s ≡ s

rtrim-append : (s : List ℕ) (c : ℕ) → isspace c ≡ true → rtrim (s ++ c ∷ []) ≡ rtrim s
unfolding rtrim
rtrim-append [] c h = rw h refl
rtrim-append (x ∷ xs) c h = ap (put_before x) (rtrim-append xs c h)

-- A blank behind, as after a name.
pub trim-append : (s : List ℕ) (c : ℕ) → IsTrimmed s → isspace c ≡ true → trim (s ++ c ∷ []) ≡ s
unfolding trim
trim-append s c t h = ap ltrim (rtrim-append s c h ∙ t.right) ∙ t.left

-- A blank on each side, as around a value.
pub trim_between :
    (s : List ℕ) (b c : ℕ)
    → IsTrimmed s
    → isspace b ≡ true
    → isspace c ≡ true
    → trim (b ∷ s ++ c ∷ []) ≡ s
unfolding trim
trim_between s b c t k h =
    ap (λ (r : List ℕ). ltrim (put_before b r)) (rtrim-append s c h ∙ t.right) ∙ front s t.left
  where
    front : (s : List ℕ) → ltrim s ≡ s → ltrim (put_before b s) ≡ s
    front [] l = rw k refl
    front (x ∷ xs) l = rw k l
