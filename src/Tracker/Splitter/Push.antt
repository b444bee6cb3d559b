-- ===== src/Tracker/Splitter/Push.antt =====
-- What one `push` does with the bytes held and a chunk, on any bytes at all.
use avt_tracker.Base.{
  refl, sym, inr, [], inl, Bool-cases, ltb, ◌∷◌, All, arith, suc, ◌++◌, ◌==◌, ◌≤◌, if◌then◌else◌,
  length, ◌≡◌, List, ℕ,
}
use avt_tracker.Tracker.Splitter.{stop, round, Pushed, drain, Splitter, check_overflow, push}
use avt_tracker.Tracker.Splitter.Rounds.{
  IsDelimited, drain_settled, drain-IsDelimited, Cuts, drain-Cuts,
}

-- The bytes that `push` works on: those held, then the chunk.
joined : (held chunk : List ℕ) → (if length held == 0 then chunk else held ++ chunk) ≡ held ++ chunk
joined [] chunk = refl
joined (x ∷ held) chunk = ground arith

abbrev pub loop_of : List ℕ → List (List ℕ) × List ℕ
loop_of b = drain (suc (length b)) b

-- `push` is the loop over all bytes, then the overflow check.
pub push_lem :
    (s : Splitter) (chunk : List ℕ)
    → push s chunk
      ≡ check_overflow
          (record s { buffer = (loop_of (s.buffer ++ chunk)).1 })
          (loop_of (s.buffer ++ chunk)).0
unfolding push
push_lem s chunk = rw (joined s.buffer chunk)

frames-check_overflow :
    (s : Splitter) (frames : List (List ℕ)) → (check_overflow s frames).0.frames ≡ frames
unfolding check_overflow
frames-check_overflow s frames = ground arith

-- Overflow or not, the frames of the loop are handed on.
pub frames-push :
    (s : Splitter) (chunk : List ℕ) → (push s chunk).0.frames ≡ (loop_of (s.buffer ++ chunk)).0
frames-push s chunk = rw push_lem (frames-check_overflow _ _)

-- The account of one `push`.
pub record Account (s : Splitter) (chunk : List ℕ) (out : Pushed × Splitter) : Type 0 where
  pub left : List ℕ
  pub cuts : Cuts (s.buffer ++ chunk) out.0.frames left
  pub delimited : All IsDelimited out.0.frames
  pub settled : round left ≡ stop
  pub flag : out.0.overflowed ≡ ltb s.max_buffer_bytes (length left)
  pub held : out.1.buffer ≡ (if ltb s.max_buffer_bytes (length left) then [] else left)
  pub same_limit : out.1.max_buffer_bytes ≡ s.max_buffer_bytes

check_overflow-Account :
    (s : Splitter) (chunk left : List ℕ) (frames : List (List ℕ))
    → Cuts (s.buffer ++ chunk) frames left
    → All IsDelimited frames
    → round left ≡ stop
    → Account s chunk (check_overflow (record s { buffer = left }) frames)
unfolding check_overflow
check_overflow-Account s chunk left frames cuts del settled =
    elim (Bool-cases (ltb s.max_buffer_bytes (length left))) [
      | inl e ↦ rw e (record {
        left = left;
        cuts = cuts;
        delimited = del;
        settled = settled;
        flag = sym e;
        held = rw e;
        same_limit = refl;
      })
      | inr e ↦ rw e (record {
        left = left;
        cuts = cuts;
        delimited = del;
        settled = settled;
        flag = sym e;
        held = rw e;
        same_limit = refl;
      })
    ]

-- Each byte held or received ends up in a frame, in a dropped stretch that ends with '#' behind no
-- valid head, or in the buffer; the frames are delimited; nothing more could be cut off; the
-- buffer is emptied, and the flag set, exactly if more than the limit is left.
pub push-Account : (s : Splitter) (chunk : List ℕ) → Account s chunk (push s chunk)
push-Account s chunk = rw push_lem (
    check_overflow-Account s chunk _ _ (drain-Cuts _ _) (drain-IsDelimited _ _)
      (drain_settled _ _ (omega arith)))

-- Memory stays bounded: whatever arrives, a splitter holds at most its limit after each `push`.
pub push_bound :
    (s : Splitter) (chunk : List ℕ) → length (push s chunk).1.buffer ≤ s.max_buffer_bytes
push_bound s chunk = let a = push-Account s chunk in rw a.held (ground arith)
