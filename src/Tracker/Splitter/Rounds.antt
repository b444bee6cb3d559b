-- ===== src/Tracker/Splitter/Rounds.antt =====
-- What every round and every `push` does, on any bytes at all.
use avt_tracker.Base.{
  ap₂, index_of-split, none, take-append-drop, ◌++◌, ◌∷◌, [], ◌⊎◌, ap, ℕ, zero, suc, ◌+◌, ◌<◌, ◌≤◌,
  ◌≡◌, refl, arith, some, List, All, min, length, get_elem?, ◌-◌, take, drop, index_of, uint16_at,
  length-drop, length-take, index_of-bound, index_of-found, Option-cases, inl, inr, sym, ◌∙◌,
  get_elem?-drop, get_elem?-of-get_or, get_elem?-take,
}
use avt_tracker.Tracker.Splitter.{
  frame_terminator, colon, FrameLength, undefined, null, known, fallback_length, length_after_colon,
  resolve_frame_length, Round, stop, resync, emit, round_of, round, drain,
}

fallback_end :
    (b : List ℕ) (m n : ℕ)
    → fallback_length b m ≡ known n
    → (m < n) × (get_elem? b (n - 1) ≡ some frame_terminator)
unfolding fallback_length
fallback_end b m n h = elim (Option-cases (index_of frame_terminator (drop m b))) [
  | inl e ↦ ground arith
  | inr (k, e) ↦ ground (arith, get_elem?-drop m k b, index_of-found 35 (drop m b) k e)
]

after_colon_end :
    (b : List ℕ) (c n : ℕ)
    → length_after_colon b c ≡ known n
    → (c + 3 < n) × (get_elem? b (n - 1) ≡ some frame_terminator)
unfolding length_after_colon
after_colon_end b c n h = ground (
  arith,
  fallback_end b (c + 1 + 2 + 18) n,
  get_elem?-of-get_or b (c + 1 + 2 + uint16_at b (c + 1)) 34,
)

round_of-resync :
    (b rest : List ℕ) (r : FrameLength)
    → round_of b r ≡ resync rest
    → (i : ℕ) × (index_of frame_terminator b ≡ some i) × (rest ≡ drop (i + 1) b) × (r ≡ null)
unfolding round_of
round_of-resync b rest undefined h = cc
round_of-resync b rest null h = ground arith
round_of-resync b rest (known n) h = ground arith

round_of-emit :
    (b frame rest : List ℕ) (r : FrameLength)
    → round_of b r ≡ emit frame rest
    → (n : ℕ) × (r ≡ known n) × (n ≤ length b) × (frame ≡ take n b) × (rest ≡ drop n b)
unfolding round_of
round_of-emit b frame rest undefined h = cc
round_of-emit b frame rest null h = ground arith
round_of-emit b frame rest (known n) h = (n, refl, ground arith, ground arith, ground arith)

resolve-known :
    (b : List ℕ) (n : ℕ)
    → resolve_frame_length b ≡ known n
    → (c : ℕ) × (index_of colon (take (min (length b) 8) b) ≡ some c)
      × (c + 3 < n)
      × (get_elem? b (n - 1) ≡ some frame_terminator)
unfolding resolve_frame_length
resolve-known b n h = elim (Option-cases (index_of colon (take (min (length b) 8) b))) [
  | inl e ↦ ground arith
  | inr (c, e) ↦ let (far, ends) = after_colon_end b c n (ground arith) in (c, e, far, ends)
]

pub round-resync :
    (b rest : List ℕ)
    → round b ≡ resync rest
    → (i : ℕ) × (index_of frame_terminator b ≡ some i)
      × (rest ≡ drop (i + 1) b)
      × (resolve_frame_length b ≡ null)
unfolding round
round-resync b rest h = round_of-resync b rest (resolve_frame_length b) h

pub round-emit :
    (b frame rest : List ℕ)
    → round b ≡ emit frame rest
    → (n : ℕ) × (resolve_frame_length b ≡ known n)
      × (n ≤ length b)
      × (frame ≡ take n b)
      × (rest ≡ drop n b)
unfolding round
round-emit b frame rest h = round_of-emit b frame rest (resolve_frame_length b) h

resync_shorter : (b rest : List ℕ) → round b ≡ resync rest → length rest < length b
resync_shorter b rest h =
    let (i, e, r, _) = round-resync b rest h in
    omega (arith, ap (length {A = ℕ}) r, length-drop (i + 1) b, index_of-bound 35 b i e)

emit_shorter : (b frame rest : List ℕ) → round b ≡ emit frame rest → length rest < length b
emit_shorter b frame rest h =
    let (n, e, le, _, r) = round-emit b frame rest h in
    let (c, _, far, _) = resolve-known b n e in
    omega (arith, ap (length {A = ℕ}) r, length-drop n b)

-- A frame as the splitter hands it on: a colon among its first eight bytes, '#' as its last.
pub record IsDelimited (frame : List ℕ) : Type 0 where
  pub head_end : ℕ
  pub head_early : head_end < 8
  pub has_colon : get_elem? frame head_end ≡ some colon
  pub has_end : get_elem? frame (length frame - 1) ≡ some frame_terminator

emit-IsDelimited : (b frame rest : List ℕ) → round b ≡ emit frame rest → IsDelimited frame
emit-IsDelimited b frame rest h =
    let (n, e, le, f, _) = round-emit b frame rest h in
    let (c, found, far, ends) = resolve-known b n e in
    let size : length (take n b) ≡ n = omega (arith, length-take n b) in
    let early : c < min (length b) 8 = omega (
      arith,
      index_of-bound colon (take (min (length b) 8) b) c found,
      length-take (min (length b) 8) b,
    ) in
    rw f (record {
      head_end = c;
      head_early = omega arith;
      has_colon =
          get_elem?-take n c b (omega arith)
          ∙ sym (get_elem?-take (min (length b) 8) c b early)
          ∙ index_of-found colon (take (min (length b) 8) b) c found;
      has_end = rw size (get_elem?-take n (n - 1) b (omega arith) ∙ ends);
    })

pub Round-cases :
    (r : Round)
    → (r ≡ stop)
      ⊎ ((rest : List ℕ) × (r ≡ resync rest))
      ⊎ ((frame rest : List ℕ) × (r ≡ emit frame rest))
Round-cases stop = inl refl
Round-cases (resync rest) = inr (inl (rest, refl))
Round-cases (emit frame rest) = inr (inr (frame, rest, refl))

-- One step of the loop in each case.
pub drain-stop : (fuel : ℕ) (b : List ℕ) → round b ≡ stop → drain (suc fuel) b ≡ ([], b)
unfolding drain
drain-stop fuel b e = rw (e, drain)

pub drain-resync :
    (fuel : ℕ) (b rest : List ℕ) → round b ≡ resync rest → drain (suc fuel) b ≡ drain fuel rest
unfolding drain
drain-resync fuel b rest e = rw (e, drain)

pub drain-emit :
    (fuel : ℕ) (b frame rest : List ℕ)
    → round b ≡ emit frame rest
    → drain (suc fuel) b ≡ (frame ∷ (drain fuel rest).0, (drain fuel rest).1)
unfolding drain
drain-emit fuel b frame rest e = rw (e, drain)

-- Enough fuel: the loop has ended by itself, at a buffer from which a further round takes nothing.
pub drain_settled : (fuel : ℕ) (b : List ℕ) → length b < fuel → round (drain fuel b).1 ≡ stop
drain_settled zero b h = absurd (omega arith)
drain_settled (suc fuel) b h = elim (Round-cases (round b)) [
  | inl e ↦ rw (drain-stop fuel b e) e
  | inr (inl (rest, e)) ↦
      rw (drain-resync fuel b rest e)
        (drain_settled fuel rest (omega (arith, resync_shorter b rest e)))
  | inr (inr (frame, rest, e)) ↦
      rw (drain-emit fuel b frame rest e)
        (drain_settled fuel rest (omega (arith, emit_shorter b frame rest e)))
]

pub drain-IsDelimited : (fuel : ℕ) (b : List ℕ) → All IsDelimited (drain fuel b).0
drain-IsDelimited zero b = unfold drain in tt
drain-IsDelimited (suc fuel) b = elim (Round-cases (round b)) [
  | inl e ↦ rw (drain-stop fuel b e) tt
  | inr (inl (rest, e)) ↦ rw (drain-resync fuel b rest e) (drain-IsDelimited fuel rest)
  | inr (inr (frame, rest, e)) ↦
      rw (drain-emit fuel b frame rest e)
        (emit-IsDelimited b frame rest e, drain-IsDelimited fuel rest)
]

-- How the bytes of a buffer were used: frames in order, between stretches dropped up to a '#'.
pub data Cuts : List ℕ → List (List ℕ) → List ℕ → Type 0 where
  left_over : {b : List ℕ} → Cuts b [] b
  dropped :
      {b rest left : List ℕ} {frames : List (List ℕ)} (junk : List ℕ)
      → b ≡ junk ++ (frame_terminator ∷ rest)
      → index_of frame_terminator junk ≡ none
      → resolve_frame_length b ≡ null
      → Cuts rest frames left
      → Cuts b frames left
  framed :
      {b rest left : List ℕ} {frames : List (List ℕ)} (frame : List ℕ)
      → b ≡ frame ++ rest
      → resolve_frame_length b ≡ known (length frame)
      → IsDelimited frame
      → Cuts rest frames left
      → Cuts b (frame ∷ frames) left

pub drain-Cuts : (fuel : ℕ) (b : List ℕ) → Cuts b (drain fuel b).0 (drain fuel b).1
drain-Cuts zero b = unfold drain in left_over
drain-Cuts (suc fuel) b = elim (Round-cases (round b)) [
  | inl e ↦ rw (drain-stop fuel b e) left_over
  | inr (inl (rest, e)) ↦
      let (i, found, r, dead) = round-resync b rest e in
      let (split, absent) = index_of-split frame_terminator b i found in
      let next : i + 1 ≡ suc i = omega arith in
      rw (drain-resync fuel b rest e) (
        dropped (take i b)
          (split ∙ ap (λ t. take i b ++ (frame_terminator ∷ t)) (rw (← next) (sym r))) absent dead
          (drain-Cuts fuel rest))
  | inr (inr (frame, rest, e)) ↦
      let (n, k, le, f, r) = round-emit b frame rest e in
      let size : n ≡ length frame = omega (arith, ap (length {A = ℕ}) f, length-take n b) in
      rw (drain-emit fuel b frame rest e) (
        framed frame (sym (take-append-drop n b) ∙ ap₂ (λ t u. t ++ u) (sym f) (sym r))
          (k ∙ ap known size) (emit-IsDelimited b frame rest e) (drain-Cuts fuel rest))
]
