-- ===== src/Recv/Framing.antt =====
-- What the receiving state machine is for: the packets in a stream of bytes, a byte at a time.
-- The reference knows nothing of buffers, of chunks or of the four states.
use flydragon.Base.{
  ℕ, ◌+◌, ◌≤◌, ◌<◌, ◌≡◌, refl, ◌⊎◌, ap, ◌∙◌, sym, List, [], ◌∷◌, ◌++◌, ◌||◌, ltb, ◌==◌,
  if◌then◌else◌, arith, length, length-append, get_or-append_left, append_assoc, append-nil,
}
use flydragon.Comm.Header.{read_header}

-- The length that the header at the start of some bytes announces.
abbrev pub announced : List ℕ → ℕ
announced bs = (read_header bs).pkg_len

-- The bytes of a packet: as many as its header says, from the header alone to 29000.
pub record IsPacket (bs : List ℕ) : Type 0 where
  pub sized : announced bs ≡ length bs
  pub lower : 8 ≤ length bs
  pub upper : length bs ≤ 29000

-- What becomes of the bytes at hand: a packet, nothing for a bad header, or still part of a packet.
unfoldable pub settle : List ℕ → List (List ℕ) × List ℕ
settle p =
    if ltb (length p) 8
    then ([], p)
    else if ltb (announced p) 8 || ltb 29000 (announced p)
    then ([], [])
    else if length p == announced p
    then (p ∷ [], [])
    else ([], p)

-- The packets that some bytes complete behind a part of a packet, and the part that is left.
unfoldable pub frame : List ℕ → List ℕ → List (List ℕ) × List ℕ
unfolding settle
frame p [] = ([], p)
frame p (b ∷ bs) =
    let (done, q) = settle (p ++ b ∷ []) in let (more, r) = frame q bs in (done ++ more, r)

pub frame-append_packets :
    (p xs ys : List ℕ) → (frame p (xs ++ ys)).0 ≡ (frame p xs).0 ++ (frame (frame p xs).1 ys).0
unfolding frame
frame-append_packets p [] ys = refl
frame-append_packets p (x ∷ xs) ys =
    let q = (settle (p ++ x ∷ [])).1 in
    ap (◌++◌ (settle (p ++ x ∷ [])).0) (frame-append_packets q xs ys)
    ∙ sym (append_assoc (settle (p ++ x ∷ [])).0 (frame q xs).0 (frame (frame q xs).1 ys).0)

pub frame-append_rest : (p xs ys : List ℕ) → (frame p (xs ++ ys)).1 ≡ (frame (frame p xs).1 ys).1
unfolding frame
frame-append_rest p [] ys = refl
frame-append_rest p (x ∷ xs) ys = frame-append_rest (settle (p ++ x ∷ [])).1 xs ys

-- Two bytes are enough for the announced length.
pub announced-append : (p xs : List ℕ) → 2 ≤ length p → announced (p ++ xs) ≡ announced p
unfolding read_header
announced-append p xs h =
    omega
      (arith, get_or-append_left p xs 0 0 (omega arith), get_or-append_left p xs 1 0 (omega arith))

-- A part of a packet that has its header, and whose length is in range.
pub record HasHeader (p : List ℕ) : Type 0 where
  pub whole : 8 ≤ length p
  pub lower : 8 ≤ announced p
  pub upper : announced p ≤ 29000

pub HasHeader-append : (p xs : List ℕ) → HasHeader p → HasHeader (p ++ xs)
HasHeader-append p xs h =
    omega (arith, h, length-append p xs, announced-append p xs (omega (arith, h.whole)))

pub settle_short : (p : List ℕ) → length p < 8 → settle p ≡ ([], p)
unfolding settle
settle_short p h = ground arith

pub settle_grow : (p : List ℕ) → HasHeader p → length p < announced p → settle p ≡ ([], p)
unfolding settle
settle_grow p h l = ground arith

pub settle_done : (p : List ℕ) → HasHeader p → length p ≡ announced p → settle p ≡ (p ∷ [], [])
unfolding settle
settle_done p h l = ground arith

pub settle_bad :
    (p : List ℕ) → 8 ≤ length p → (announced p < 8) ⊎ (29000 < announced p) → settle p ≡ ([], [])
unfolding settle
settle_bad p h l = ground arith

frame_skip :
    (p : List ℕ) (x : ℕ) (xs : List ℕ)
    → settle (p ++ x ∷ []) ≡ ([], p ++ x ∷ [])
    → frame p (x ∷ xs) ≡ frame (p ++ x ∷ []) xs
unfolding frame
frame_skip p x xs e = rw e

frame_one : (p : List ℕ) (x : ℕ) → frame p (x ∷ []) ≡ settle (p ++ x ∷ [])
unfolding frame
frame_one p x = rw append-nil

-- While the header is incomplete nothing is settled.
pub frame_short : (p xs : List ℕ) → length p + length xs < 8 → frame p xs ≡ ([], p ++ xs)
unfolding frame
frame_short p [] h = rw append-nil
frame_short p (x ∷ xs) h =
    let l = length-append p (x ∷ []) in
    frame_skip p x xs (settle_short (p ++ x ∷ []) (omega (arith, l)))
    ∙ frame_short (p ++ x ∷ []) xs (omega (arith, l))
    ∙ ap (λ (q : List ℕ). ([], q)) (append_assoc p (x ∷ []) xs)

-- The bytes that complete a header settle it.
pub frame_header :
    (p xs : List ℕ) → length p < 8 → length p + length xs ≡ 8 → frame p xs ≡ settle (p ++ xs)
frame_header p [] h e = absurd (omega arith)
frame_header p (x ∷ []) h e = frame_one p x
frame_header p (x ∷ y ∷ ys) h e =
    let l = length-append p (x ∷ []) in
    frame_skip p x (y ∷ ys) (settle_short (p ++ x ∷ []) (omega (arith, l)))
    ∙ frame_header (p ++ x ∷ []) (y ∷ ys) (omega (arith, l)) (omega (arith, l))
    ∙ ap settle (append_assoc p (x ∷ []) (y ∷ ys))

-- Behind a header, nothing is settled before the announced length is reached.
pub frame_grow :
    (p xs : List ℕ) → HasHeader p → length p + length xs < announced p → frame p xs ≡ ([], p ++ xs)
unfolding frame
frame_grow p [] h l = rw append-nil
frame_grow p (x ∷ xs) h l =
    let n = length-append p (x ∷ []) in
    let a = announced-append p (x ∷ []) (omega (arith, h.whole)) in
    frame_skip p x xs
      (settle_grow (p ++ x ∷ []) (HasHeader-append p (x ∷ []) h) (omega (arith, n, a)))
    ∙ frame_grow (p ++ x ∷ []) xs (HasHeader-append p (x ∷ []) h) (omega (arith, n, a))
    ∙ ap (λ (q : List ℕ). ([], q)) (append_assoc p (x ∷ []) xs)

-- The bytes that complete a packet deliver it.
pub frame_body :
    (p : List ℕ) (x : ℕ) (xs : List ℕ)
    → HasHeader p
    → length p + length (x ∷ xs) ≡ announced p
    → frame p (x ∷ xs) ≡ ((p ++ x ∷ xs) ∷ [], [])
frame_body p x [] h e =
    frame_one p x
    ∙ settle_done (p ++ x ∷ []) (HasHeader-append p (x ∷ []) h) (
        omega
          (arith, length-append p (x ∷ []), announced-append p (x ∷ []) (omega (arith, h.whole))))
frame_body p x (y ∷ ys) h e =
    let n = length-append p (x ∷ []) in
    let a = announced-append p (x ∷ []) (omega (arith, h.whole)) in
    frame_skip p x (y ∷ ys)
      (settle_grow (p ++ x ∷ []) (HasHeader-append p (x ∷ []) h) (omega (arith, n, a)))
    ∙ frame_body (p ++ x ∷ []) y ys (HasHeader-append p (x ∷ []) h) (omega (arith, n, a))
    ∙ ap (λ (q : List ℕ). (q ∷ [], [])) (append_assoc p (x ∷ []) (y ∷ ys))
