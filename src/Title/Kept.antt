-- ===== src/Title/Kept.antt =====
-- What the change of the title does to the arguments and to the environment.
use flydragon.Base.{
  ℕ, zero, suc, ◌+◌, ◌-◌, ◌<◌, ◌≤◌, ◌≡◌, ◌⊎◌, inl, inr, refl, sym, ap, ap₂, ◌∙◌, subst, List, [],
  ◌∷◌, ◌++◌, none, false, Bool-cases, leb, length, arith,
}
use flydragon.Title.{Bytes, Titled, put_string, clear, move_all, init_setproctitle, setproctitle}
use flydragon.Title.Strings.{
  HasString, AreBytes, HasString-same, put_string_out, clear_out, clear_in, put_string-HasString,
}
use flydragon.Title.Moved.{Each, Each-map, room, Outside, Inside, move_all-Moves}

-- The `n` bytes from an address on.
abbrev pub bytes_at : Bytes → ℕ → ℕ → List ℕ
bytes_at m p zero = []
bytes_at m p (suc n) = m p ∷ bytes_at m (p + 1) n

abbrev pub zeros : ℕ → List ℕ
zeros zero = []
zeros (suc n) = 0 ∷ zeros n

bytes_at-HasString :
    (m : Bytes) (p : ℕ) (cs : List ℕ) → HasString m p cs → bytes_at m p (length cs) ≡ cs
bytes_at-HasString m p [] h = refl
bytes_at-HasString m p (c ∷ cs) h = ap₂ ◌∷◌ h.0 (bytes_at-HasString m (p + 1) cs h.2)

bytes_at-same :
    (n : ℕ) (m t : Bytes) (p : ℕ)
    → ((q : ℕ) → q < p + n → t q ≡ m q)
    → bytes_at t p n ≡ bytes_at m p n
bytes_at-same zero m t p h = refl
bytes_at-same (suc n) m t p h =
    ap₂ ◌∷◌ (h p (omega arith)) (bytes_at-same n m t (p + 1) (λ q b. h q (omega (arith, b))))

bytes_at-zeros :
    (n : ℕ) (m : Bytes) (p : ℕ) → ((q : ℕ) → p ≤ q → q < p + n → m q ≡ 0) → bytes_at m p n ≡ zeros n
bytes_at-zeros zero m p h = refl
bytes_at-zeros (suc n) m p h =
    ap₂ ◌∷◌ (h p (omega arith) (omega arith))
      (bytes_at-zeros n m (p + 1) (λ q a b. h q (omega (arith, a)) (omega (arith, b))))

bytes_at_append :
    (a b : ℕ) (m : Bytes) (p : ℕ) → bytes_at m p (a + b) ≡ bytes_at m p a ++ bytes_at m (p + a) b
bytes_at_append zero b m p =
    let n : 0 + b ≡ b = omega arith in let same : p + 0 ≡ p = omega arith in rw (n, same) refl
bytes_at_append (suc a) b m p =
    let n : suc a + b ≡ suc (a + b) = omega arith in
    let same : p + suc a ≡ p + 1 + a = omega arith in
    rw (n, same) (ap (◌∷◌ (m p)) (bytes_at_append a b m (p + 1)))

-- The title and zeros behind it, up to the end of the room.
titled_lem :
    (title : List ℕ) (m : Bytes) (p n : ℕ)
    → AreBytes title
    → bytes_at (clear (put_string m p title) (p + length title) n) p (length title + n)
      ≡ title ++ zeros n
titled_lem title m p n h =
    let w = put_string m p title in
    bytes_at_append (length title) n _ p
    ∙ ap₂ ◌++◌
        (bytes_at-same (length title) w _ p (λ q b. clear_out n w (p + length title) q (inl b))
          ∙ bytes_at-HasString w p title (put_string-HasString title m p h))
        (bytes_at-zeros n _ (p + length title) (clear_in n w (p + length title)))

-- Once the environment has moved, each of its strings stands in the new block.
init_setproctitle_lem :
    (css : List (List ℕ)) (envmem : ℕ) (s : Titled)
    → room css ≡ s.envneedmem
    → Each (Outside s.memory envmem s.envneedmem) s.environ css
    → (let t = init_setproctitle envmem s in
        Each (Inside t.memory envmem (envmem + s.envneedmem)) t.environ css)
unfolding init_setproctitle
init_setproctitle_lem css envmem s fits h =
    let n = s.envneedmem in
    let m = clear s.memory envmem n in
    let ready =
      Each-map (Outside s.memory envmem n) (Outside m envmem n) s.environ css
        (λ e cs o. (
          HasString-same s.memory m e cs
              (λ q a b. clear_out n s.memory envmem q (ground (arith, o.1))) o.0,
          o.1,
        ))
        h in
    let r = move_all n envmem s.environ m in
    let moves =
      move_all-Moves n envmem s.environ css m
        (subst (λ (k : ℕ). Each (Outside m envmem k) s.environ css) (sym fits) ready)
        (omega (arith, fits)) in
    subst (λ (k : ℕ). Each (Inside r.1 envmem (envmem + k)) r.0 css) fits moves.inside

-- The title leaves the strings of a block that is apart from the arguments.
setproctitle_lem :
    (title : List ℕ) (css : List (List ℕ)) (a b : ℕ) (s : Titled)
    → (s.argv_0 + (s.argvneedmem + s.envneedmem) ≤ a) ⊎ (b ≤ s.argv_0)
    → Each (Inside s.memory a b) s.environ css
    → Each (HasString (setproctitle title s).memory) (setproctitle title s).environ css
unfolding setproctitle
setproctitle_lem title css a b s apart h =
    elim (Bool-cases (leb (s.argvneedmem + s.envneedmem) (length title))) [
      | inl full ↦
          rw full
            (Each-map (Inside s.memory a b) (HasString s.memory) s.environ css (λ e cs i. i.0) h)
      | inr fits ↦ rw fits (Each-map (Inside s.memory a b) _ s.environ css (kept fits) h)
    ]
  where
    w : Bytes
    w = put_string s.memory s.argv_0 title

    rest : ℕ
    rest = s.argvneedmem + s.envneedmem - length title

    kept :
        leb (s.argvneedmem + s.envneedmem) (length title) ≡ false
        → (e : ℕ) (cs : List ℕ) → Inside s.memory a b e cs
        → HasString (clear w (s.argv_0 + length title) rest) e cs
    kept fits e cs i =
        HasString-same s.memory _ e cs
          (λ q le ge.
            clear_out rest w (s.argv_0 + length title) q (ground (arith, apart, i.1, i.2, fits))
            ∙ put_string_out title s.memory s.argv_0 q (ground (arith, apart, i.1, i.2, fits)))
          i.0

-- The title does not fit, or stands alone in the room.
setproctitle-titled :
    (title : List ℕ) (s : Titled)
    → AreBytes title
    → (let esy = s.argvneedmem + s.envneedmem in
        let u = setproctitle title s in
        ((esy ≤ length title) × (u ≡ s))
        ⊎ ((length title < esy)
            × (bytes_at u.memory s.argv_0 esy ≡ title ++ zeros (esy - length title))
            × (u.argv_1 ≡ none)))
unfolding setproctitle
setproctitle-titled title s b =
    let esy = s.argvneedmem + s.envneedmem in
    elim (Bool-cases (leb esy (length title))) [
      | inl full ↦ inl (ground (arith, full), rw full refl)
      | inr fits ↦
          let n = esy - length title in
          let w = clear (put_string s.memory s.argv_0 title) (s.argv_0 + length title) n in
          let all : length title + n ≡ esy = ground (arith, fits) in
          inr (
            ground (arith, fits),
            rw fits (
                subst (λ (k : ℕ). bytes_at w s.argv_0 k ≡ title ++ zeros n) all
                  (titled_lem title s.memory s.argv_0 n b)),
            rw fits refl,
          )
    ]

-- If no byte of the title is 0, the environment needs as much room as was counted for it and stands
-- outside of the new block, and the block is apart from the room of the arguments and the old
-- environment, then after the environment has moved and the title is set, each variable of the
-- environment reads as before; a title that does not fit into the room with its final 0 changes
-- nothing, and else the room holds the title and only zeros behind it, and the arguments end after
-- the first.
pub setproctitle-moved :
    (title : List ℕ) (css : List (List ℕ)) (envmem : ℕ) (s : Titled)
    → AreBytes title
    → room css ≡ s.envneedmem
    → Each (Outside s.memory envmem s.envneedmem) s.environ css
    → (s.argv_0 + (s.argvneedmem + s.envneedmem) ≤ envmem) ⊎ (envmem + s.envneedmem ≤ s.argv_0)
    → (let esy = s.argvneedmem + s.envneedmem in
        let t = init_setproctitle envmem s in
        let u = setproctitle title t in
        Each (HasString u.memory) u.environ css
        × (((esy ≤ length title) × (u ≡ t))
            ⊎ ((length title < esy)
                × (bytes_at u.memory s.argv_0 esy ≡ title ++ zeros (esy - length title))
                × (u.argv_1 ≡ none))))
unfolding init_setproctitle
setproctitle-moved title css envmem s b fits h apart = (
  setproctitle_lem title css envmem (envmem + s.envneedmem) (init_setproctitle envmem s) apart
      (init_setproctitle_lem css envmem s fits h),
  setproctitle-titled title (init_setproctitle envmem s) b,
)
