-- ===== src/Tracker/Cursor/Forward.antt =====
-- Every read moves the cursor forward inside its buffer, whether it returns or throws.
use avt_tracker.Base.{inr, inl, ltb, Bool-cases, length, ◌∙◌, ℕ, ◌≡◌, ◌≤◌, refl, arith}
use avt_tracker.Base.Exec.{err, ok, continue, gets, lift, throw, ◌>>=◌, Result}
use avt_tracker.Tracker.Cursor.{
  is_width, check_width, remaining, ensure, read_uint8, Cursor, Read, read_bytes, read_int_be,
  read_length_prefixed_ascii, read_uint_be, skip,
}
use avt_tracker.Tracker.Errors.{Error}

pub record Advances (c d : Cursor) : Type 0 where
  pub same_buf : d.buf ≡ c.buf
  pub forward : c.offset ≤ d.offset
  pub inside : c.offset ≤ length c.buf → d.offset ≤ length d.buf

pub Advances-refl : (c : Cursor) → Advances c c
Advances-refl c = record { same_buf = refl; forward = omega arith; inside = λ h. h }

pub Advances-trans : {c d e : Cursor} → Advances c d → Advances d e → Advances c e
Advances-trans a b = record {
  same_buf = b.same_buf ∙ a.same_buf;
  forward = omega arith;
  inside = λ h. b.inside (a.inside h);
}

pub record Forward {A : Type 0} (m : Read A) : Type 0 where
  pub at : (c : Cursor) → Advances c (m c).1

module _ {A B : Type 0} where
  continue-Forward :
      (r : Result Error A) (f : A → Read B) (c d : Cursor)
      → Advances c d
      → ((a : A) → Forward (f a))
      → Advances c (continue r f d).1
  continue-Forward (ok a) f c d h k = Advances-trans h ((k a).at d)
  continue-Forward (err e) f c d h k = h

  pub Forward-bind :
      (m : Read A) (f : A → Read B) → Forward m → ((a : A) → Forward (f a)) → Forward (m >>= f)
  Forward-bind m f km kf = record { at = λ c. continue-Forward (m c).0 f c (m c).1 (km.at c) kf }

module _ {A : Type 0} where
  pub Forward-gets : (f : Cursor → A) → Forward (gets f)
  Forward-gets f = record { at = λ c. Advances-refl c }

  pub Forward-throw : (e : Error) → Forward {A = A} (throw e)
  Forward-throw e = record { at = λ c. Advances-refl c }

  pub Forward-lift : (r : Result Error A) → Forward (lift r)
  Forward-lift r = record { at = λ c. Advances-refl c }

pub Forward-read_bytes : (n : ℕ) → Forward (read_bytes n)
unfolding read_bytes ensure
Forward-read_bytes n = record {
  at = λ c. elim (Bool-cases (ltb (remaining c) n)) [
    | inl e ↦ rw e (Advances-refl c)
    | inr e ↦ rw e (record { same_buf = refl; forward = omega arith; inside = λ h. ground arith })
  ];
}

pub Forward-skip : (n : ℕ) → Forward (skip n)
unfolding skip ensure
Forward-skip n = record {
  at = λ c. elim (Bool-cases (ltb (remaining c) n)) [
    | inl e ↦ rw e (Advances-refl c)
    | inr e ↦ rw e (record { same_buf = refl; forward = omega arith; inside = λ h. ground arith })
  ];
}

Forward-ensure : (n : ℕ) → Forward (ensure n)
unfolding ensure
Forward-ensure n = record {
  at = λ c. elim (Bool-cases (ltb (remaining c) n)) [
    | inl e ↦ rw e (Advances-refl c)
    | inr e ↦ rw e (Advances-refl c)
  ];
}

Forward-check_width : (n : ℕ) → Forward (check_width n)
Forward-check_width n = record {
  at = λ c. elim (Bool-cases (is_width n)) [
    | inl e ↦ rw e (Advances-refl c)
    | inr e ↦ rw e (Advances-refl c)
  ];
}

pub Forward-read_uint_be : (w : ℕ) → Forward (read_uint_be w)
unfolding read_uint_be
Forward-read_uint_be w = Forward-bind (ensure w) _ (Forward-ensure w) (λ enough.
    Forward-bind (check_width w) _ (Forward-check_width w)
      (λ width. Forward-bind (read_bytes w) _ (Forward-read_bytes w) (λ b. Forward-gets _)))

pub Forward-read_int_be : (w : ℕ) → Forward (read_int_be w)
unfolding read_int_be
Forward-read_int_be w =
    Forward-bind (read_uint_be w) _ (Forward-read_uint_be w) (λ b. Forward-gets _)

pub Forward-read_ascii : Forward read_length_prefixed_ascii
unfolding read_length_prefixed_ascii
Forward-read_ascii =
    Forward-bind read_uint8 _ (Forward-read_uint_be 1)
      (λ n. Forward-bind (read_bytes n) _ (Forward-read_bytes n) (λ b. Forward-gets _))

pub ruleset forward_rules = (
  Forward-bind, Forward-gets, Forward-throw, Forward-lift, Forward-read_bytes, Forward-skip,
  Forward-read_uint_be, Forward-read_int_be, Forward-read_ascii,
)
