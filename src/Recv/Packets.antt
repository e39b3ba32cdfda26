-- ===== src/Recv/Packets.antt =====
-- The reference of Framing on a stream that is made of packets.
use flydragon.Base.{
  ℕ, ◌+◌, ◌≡◌, refl, ap, ap₂, append-nil, ◌∙◌, sym, List, [], ◌∷◌, ◌++◌, arith, length,
  length-append, length-take, take, drop, take-append-drop,
}
use flydragon.Recv.Framing.{
  IsPacket, HasHeader, announced, announced-append, settle, frame, settle_done, settle_grow,
  frame-append_packets, frame-append_rest, frame_header, frame_body,
}

-- The header of a packet, and what is behind it.
module _ (bs : List ℕ) (ok : IsPacket bs) where
  head_length : length (take 8 bs) ≡ 8
  head_length = length-take 8 bs ok.lower

  split_length : length (take 8 bs) + length (drop 8 bs) ≡ length bs
  split_length = sym (length-append (take 8 bs) (drop 8 bs)) ∙ ap length (take-append-drop 8 bs)

  head_announced : announced (take 8 bs) ≡ length bs
  head_announced =
      sym (announced-append (take 8 bs) (drop 8 bs) (omega (arith, head_length)))
      ∙ ap announced (take-append-drop 8 bs)
      ∙ ok.sized

  head_HasHeader : HasHeader (take 8 bs)
  head_HasHeader = omega (arith, head_length, head_announced, ok.lower, ok.upper)

  frame_head : frame [] (take 8 bs) ≡ settle (take 8 bs)
  frame_head = frame_header [] (take 8 bs) (omega arith) (omega (arith, head_length))

  -- The two parts together, by whether there is a body.
  frame_parts :
      (r : List ℕ)
      → drop 8 bs ≡ r
      → ((frame [] (take 8 bs)).0 ++ (frame (frame [] (take 8 bs)).1 r).0 ≡ bs ∷ [])
        × ((frame (frame [] (take 8 bs)).1 r).1 ≡ [])
  frame_parts [] e =
      let l = ap length e in
      let whole : take 8 bs ≡ bs =
        sym (append-nil (take 8 bs)) ∙ ap (◌++◌ (take 8 bs)) (sym e) ∙ take-append-drop 8 bs in
      let d =
        settle_done (take 8 bs) head_HasHeader (omega (arith, l, split_length, head_announced)) in
      rw (frame_head, d) (unfold frame in (ap (λ (q : List ℕ). q ∷ []) whole, refl))
  frame_parts (x ∷ xs) e =
      let l = ap length e in
      let g =
        settle_grow (take 8 bs) head_HasHeader (omega (arith, l, split_length, head_announced)) in
      let b =
        frame_body (take 8 bs) x xs head_HasHeader
          (omega (arith, l, split_length, head_announced)) in
      let whole : take 8 bs ++ x ∷ xs ≡ bs =
        ap (◌++◌ (take 8 bs)) (sym e) ∙ take-append-drop 8 bs in
      rw (frame_head, g) (rw b (ap (λ (q : List ℕ). q ∷ []) whole, refl))

  -- A packet is delivered whole, and leaves nothing behind.
  pub frame_packet : frame [] bs ≡ (bs ∷ [], [])
  frame_packet =
      let (done, left) = frame_parts (drop 8 bs) refl in
      ap (frame []) (sym (take-append-drop 8 bs))
      ∙ ap₂ (λ (a : List (List ℕ)) (b : List ℕ). (a, b))
          (frame-append_packets [] (take 8 bs) (drop 8 bs) ∙ done)
          (frame-append_rest [] (take 8 bs) (drop 8 bs) ∙ left)

-- Every one of the byte strings is a packet.
abbrev pub ArePackets : List (List ℕ) → Type 0
ArePackets [] = Unit {0}
ArePackets (p ∷ ps) = IsPacket p × ArePackets ps

abbrev pub concat : List (List ℕ) → List ℕ
concat [] = []
concat (p ∷ ps) = p ++ concat ps

-- The reference finds the packets of a stream of packets, and leaves nothing behind.
pub frame-concat : (ps : List (List ℕ)) → ArePackets ps → frame [] (concat ps) ≡ (ps, [])
frame-concat [] ok = unfold frame in refl
frame-concat (p ∷ ps) ok =
    let e = frame_packet p ok.0 in
    let ih = frame-concat ps ok.1 in
    ap₂ (λ (a : List (List ℕ)) (b : List ℕ). (a, b))
      (frame-append_packets [] p (concat ps) ∙ rw (e, ih) refl)
      (frame-append_rest [] p (concat ps) ∙ rw (e, ih) refl)
