-- ===== src/Title/Strings.antt =====
-- What `strcpy` and `memset` of app/flyd_setproctitle.cc write, and what they leave.
use flydragon.Base.{
  ℕ, zero, suc, ◌+◌, ◌<◌, ◌≤◌, ◌≡◌, ◌≢◌, ◌⊎◌, inl, inr, refl, ◌∙◌, subst, List, [], ◌∷◌, length,
  update, update_self, update_ne, arith,
}
use flydragon.Title.{Bytes, string_at, put_string, clear}

-- At the address stands the string, with a 0 behind it.
abbrev pub HasString : Bytes → ℕ → List ℕ → Type 0
HasString m p [] = m p ≡ 0
HasString m p (c ∷ cs) = (m p ≡ c) × (c ≢ 0) × HasString m (p + 1) cs

pub HasString-same :
    (m t : Bytes) (p : ℕ) (cs : List ℕ)
    → ((q : ℕ) → p ≤ q → q ≤ p + length cs → t q ≡ m q)
    → HasString m p cs
    → HasString t p cs
HasString-same m t p [] same h = same p (omega arith) (omega arith) ∙ h
HasString-same m t p (c ∷ cs) same h = (
  same p (omega arith) (omega arith) ∙ h.0,
  h.1,
  HasString-same m t (p + 1) cs (λ q a b. same q (omega arith) (omega arith)) h.2,
)

pub string_at-HasString :
    (fuel : ℕ) (m : Bytes) (p : ℕ) (cs : List ℕ)
    → HasString m p cs
    → length cs < fuel
    → string_at fuel m p ≡ cs
unfolding string_at
string_at-HasString zero m p cs h f = absurd (omega arith)
string_at-HasString (suc fuel) m p [] h f = ground (arith, h)
string_at-HasString (suc fuel) m p (c ∷ cs) h f =
    let r = string_at-HasString fuel m (p + 1) cs h.2 (omega (arith, f)) in
    ground (arith, h.0, h.1, r)

pub put_string_out :
    (cs : List ℕ) (m : Bytes) (p q : ℕ) → (q < p) ⊎ (p + length cs < q) → put_string m p cs q ≡ m q
unfolding put_string
put_string_out [] m p q h = update_ne m p 0 q (λ e. ground (arith, h, e))
put_string_out (c ∷ cs) m p q h =
    put_string_out cs (update m p c) (p + 1) q (ground (arith, h))
    ∙ update_ne m p c q (λ e. ground (arith, h, e))

pub clear_out : (n : ℕ) (m : Bytes) (p q : ℕ) → (q < p) ⊎ (p + n ≤ q) → clear m p n q ≡ m q
unfolding clear
clear_out zero m p q h = refl
clear_out (suc n) m p q h =
    clear_out n (update m p 0) (p + 1) q (ground (arith, h))
    ∙ update_ne m p 0 q (λ e. ground (arith, h, e))

pub clear_in : (n : ℕ) (m : Bytes) (p q : ℕ) → p ≤ q → q < p + n → clear m p n q ≡ 0
unfolding clear
clear_in zero m p q a b = absurd (omega arith)
clear_in (suc n) m p q a b = elim (le_cases p q a) [
  | inl e ↦
      clear_out n (update m p 0) (p + 1) q (inl (omega (arith, e)))
      ∙ subst (λ (i : ℕ). update m p 0 i ≡ 0) e (update_self m p 0)
  | inr l ↦ clear_in n (update m p 0) (p + 1) q (omega arith) (omega arith)
]
  where
    le_cases : (p q : ℕ) → p ≤ q → (p ≡ q) ⊎ (p < q)
    le_cases p q h = ground arith

-- The bytes of a string, none of them 0.
abbrev pub AreBytes : List ℕ → Type 0
AreBytes [] = Unit {0}
AreBytes (c ∷ cs) = (c ≢ 0) × AreBytes cs

pub put_string-HasString :
    (cs : List ℕ) (m : Bytes) (p : ℕ) → AreBytes cs → HasString (put_string m p cs) p cs
unfolding put_string
put_string-HasString [] m p h = update_self m p 0
put_string-HasString (c ∷ cs) m p h = (
  put_string_out cs (update m p c) (p + 1) p (inl (omega arith)) ∙ update_self m p c,
  h.0,
  put_string-HasString cs (update m p c) (p + 1) h.1,
)

pub HasString-AreBytes : (m : Bytes) (p : ℕ) (cs : List ℕ) → HasString m p cs → AreBytes cs
HasString-AreBytes m p [] h = tt
HasString-AreBytes m p (c ∷ cs) h = (h.1, HasString-AreBytes m (p + 1) cs h.2)
