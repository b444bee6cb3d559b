-- ===== src/Tracker/Cursor/Reads.antt =====
-- What each read returns and where it leaves the cursor.
use avt_tracker.Base.{
  true, take-append_self, false, refl, drop-append_self, length-append, length-drop, ltb, ◌*◌, ap,
  arith, ◌%◌, ◌∙◌, drop, length, ◌/◌, ◌^◌, ℕ, zero, suc, ◌+◌, ◌≡◌, ◌≤◌, ◌<◌, List, [], ◌∷◌, ◌++◌,
}
use avt_tracker.Tracker.Cursor.{
  is_width, skip, truncated_frame, err, be_from, be_value, ensure, ok, remaining, Cursor,
  read_bytes, read_uint_be,
}
use native.Mathlib.Nat.{pow-suc}

-- The cursor stands inside its buffer, before the bytes `rest`.
pub record IsAt (c : Cursor) (rest : List ℕ) : Type 0 where
  pub ahead : drop c.offset c.buf ≡ rest
  pub inside : c.offset ≤ length c.buf

abbrev pub moved : ℕ → Cursor → Cursor
moved n c = record c { offset = c.offset + n }

drop-drop : (m n : ℕ) (xs : List ℕ) → drop (m + n) xs ≡ drop n (drop m xs)
drop-drop zero n xs = ap (λ (k : ℕ). drop k xs) (omega arith)
drop-drop (suc m) zero [] =
    ap (λ (k : ℕ). drop k []) (let e : suc m + zero ≡ suc m = omega arith in e)
drop-drop (suc m) (suc n) [] = let e : suc m + suc n ≡ suc (m + suc n) = omega arith in rw e
drop-drop (suc m) n (x ∷ xs) =
    let e : suc m + n ≡ suc (m + n) = omega arith in rw e (drop-drop m n xs)

remaining-IsAt : (c : Cursor) (rest : List ℕ) → IsAt c rest → remaining c ≡ length rest
remaining-IsAt c rest h = omega (arith, length-drop c.offset c.buf, ap (length {A = ℕ}) h.ahead)

pub moved-IsAt :
    (c : Cursor) (bytes rest : List ℕ) → IsAt c (bytes ++ rest) → IsAt (moved (length bytes) c) rest
moved-IsAt c bytes rest h = record {
  ahead = drop-drop c.offset (length bytes) c.buf ∙ rw h.ahead (drop-append_self bytes rest);
  inside = omega (arith, remaining-IsAt c (bytes ++ rest) h, length-append bytes rest);
}

-- The next `length bytes` bytes.
pub read_bytes_next :
    (c : Cursor) (bytes rest : List ℕ)
    → IsAt c (bytes ++ rest)
    → read_bytes (length bytes) c ≡ (ok bytes, moved (length bytes) c)
unfolding read_bytes ensure
read_bytes_next c bytes rest h =
    let enough : ltb (remaining c) (length bytes) ≡ false =
      ground (arith, remaining-IsAt c (bytes ++ rest) h, length-append bytes rest) in
    rw (enough, h.ahead, take-append_self)

-- A read that needs more than is left throws, and leaves the cursor where it was.
pub read_bytes_short :
    (c : Cursor) (n : ℕ)
    → remaining c < n
    → read_bytes n c ≡ (err (truncated_frame n (remaining c) c.offset), c)
unfolding read_bytes ensure
read_bytes_short c n h = ground arith

-- An unsigned read of a width that Node takes, where it has enough bytes.
uint_of_bytes :
    (c : Cursor) (w : ℕ) (bytes : List ℕ)
    → is_width w ≡ true
    → w ≤ remaining c
    → read_bytes w c ≡ (ok bytes, moved w c)
    → read_uint_be w c ≡ (ok (be_value bytes), moved w c)
unfolding read_uint_be ensure
uint_of_bytes c w bytes width h r =
    let enough : ltb (remaining c) w ≡ false = ground arith in rw (enough, width, r)

-- `writeUIntBE`: the bytes of a value, the highest first.
unfoldable pub be_bytes : ℕ → ℕ → List ℕ
be_bytes zero v = []
be_bytes (suc w) v = be_bytes w (v / 256) ++ (v % 256 ∷ [])

pub length-be_bytes : (w v : ℕ) → length (be_bytes w v) ≡ w
unfolding be_bytes
length-be_bytes zero v = refl
length-be_bytes (suc w) v =
    omega (arith, length-append (be_bytes w (v / 256)) (v % 256 ∷ []), length-be_bytes w (v / 256))

be_from-append :
    (acc : ℕ) (xs : List ℕ) (b : ℕ) → be_from acc (xs ++ (b ∷ [])) ≡ be_from acc xs * 256 + b
be_from-append acc [] b = refl
be_from-append acc (x ∷ xs) b = be_from-append (acc * 256 + x) xs b

pub be_value-be_bytes : (w v : ℕ) → v < 256 ^ w → be_value (be_bytes w v) ≡ v
unfolding be_bytes
be_value-be_bytes zero v h = omega arith
be_value-be_bytes (suc w) v h =
    be_from-append 0 (be_bytes w (v / 256)) (v % 256)
    ∙ rw (be_value-be_bytes w (v / 256) (omega (arith, pow-suc 256 w))) (omega arith)

-- A big-endian read of `w` bytes, one to six, at the place where a number below 256 ^ w was written
-- in `w` bytes returns the number, and moves the cursor by `w`.
pub read_uint_be-be_bytes :
    (c : Cursor) (w v : ℕ) (rest : List ℕ)
    → 1 ≤ w
    → w ≤ 6
    → v < 256 ^ w
    → IsAt c (be_bytes w v ++ rest)
    → read_uint_be w c ≡ (ok v, moved w c)
read_uint_be-be_bytes c w v rest some_byte six h at =
    let r : read_bytes w c ≡ (ok (be_bytes w v), moved w c) =
      rw length-be_bytes at (read_bytes_next c (be_bytes w v) rest at) in
    let enough : w ≤ remaining c = omega (
      arith,
      remaining-IsAt c (be_bytes w v ++ rest) at,
      length-append (be_bytes w v) rest,
      length-be_bytes w v,
    ) in
    uint_of_bytes c w (be_bytes w v) (ground arith) enough r ∙ rw (be_value-be_bytes w v h) refl

-- The next `n` bytes are `bytes`: what the methods do, and where the cursor stands afterwards.
module _ (c : Cursor) (n : ℕ) (bytes rest : List ℕ) (size : length bytes ≡ n)
    (at : IsAt c (bytes ++ rest)) where
  pub next-IsAt : IsAt (moved n c) rest
  next-IsAt = rw size at (moved-IsAt c bytes rest at)

  pub next_bytes : read_bytes n c ≡ (ok bytes, moved n c)
  next_bytes = rw size at (read_bytes_next c bytes rest at)

  pub next_uint : is_width n ≡ true → read_uint_be n c ≡ (ok (be_value bytes), moved n c)
  next_uint width =
      uint_of_bytes c n bytes width
        (omega (arith, remaining-IsAt c (bytes ++ rest) at, length-append bytes rest)) next_bytes

  pub next_skip : skip n c ≡ (ok tt, moved n c)
  unfolding skip ensure
  next_skip =
      let enough : ltb (remaining c) n ≡ false =
        ground (arith, remaining-IsAt c (bytes ++ rest) at, length-append bytes rest) in
      rw enough
