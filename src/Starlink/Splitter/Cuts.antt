-- ===== src/Starlink/Splitter/Cuts.antt =====
-- The loop of the line splitter, against a recursion over the bytes.
use avt_tracker.Base.{
  length-drop, index_of-bound, Option-cases, inr, ◌∙◌, inl, length, Bool-cases, ap, drop, take,
  if◌then◌else◌, index_of, ◌==◌, ℕ, zero, suc, ◌+◌, ◌-◌, ◌<◌, ◌≡◌, List, [], ◌∷◌, ◌++◌, refl, arith,
  true, false, some, none,
}
use avt_tracker.Starlink.Splitter.{
  drain_lines, line_end, push_line, Text, carriage_return, line_terminator, Utf8,
}

-- A byte in front of what was cut: it ends an empty line, or stands first in the first line.
unfoldable pub attach : ℕ → List (List ℕ) × List ℕ → List (List ℕ) × List ℕ
attach x ([], rest) = if x == line_terminator then ([] ∷ [], rest) else ([], x ∷ rest)
attach x (line ∷ lines, rest) =
    if x == line_terminator then ([] ∷ line ∷ lines, rest) else ((x ∷ line) ∷ lines, rest)

-- The terminated lines of a byte string, without their terminators, and the bytes behind the last.
unfoldable pub cut_lines : List ℕ → List (List ℕ) × List ℕ
cut_lines [] = ([], [])
cut_lines (x ∷ xs) = attach x (cut_lines xs)

-- A line without the carriage return at its end.
unfoldable pub chop : List ℕ → List ℕ
chop [] = []
chop (x ∷ []) = if x == carriage_return then [] else x ∷ []
chop (x ∷ y ∷ line) = x ∷ chop (y ∷ line)

-- The lines as texts, the blank ones left out.
unfoldable pub texts : Utf8 → List (List ℕ) → List Text
texts utf8 [] = []
texts utf8 (line ∷ lines) = push_line (utf8.decode (chop line)) (texts utf8 lines)

pub texts-append :
    (utf8 : Utf8) (xs ys : List (List ℕ)) → texts utf8 (xs ++ ys) ≡ texts utf8 xs ++ texts utf8 ys
unfolding texts
texts-append utf8 [] ys = refl
texts-append utf8 (x ∷ xs) ys = push_line-append (utf8.decode (chop x)) (texts-append utf8 xs ys)
  where
    push_line-append :
        (t : Text)
        → texts utf8 (xs ++ ys) ≡ texts utf8 xs ++ texts utf8 ys
        → push_line t (texts utf8 (xs ++ ys)) ≡ push_line t (texts utf8 xs) ++ texts utf8 ys
    push_line-append [] e = e
    push_line-append (c ∷ t) e = ap (λ (r : List Text). (c ∷ t) ∷ r) e

pub cut_lines-absent : (b : List ℕ) → index_of line_terminator b ≡ none → cut_lines b ≡ ([], b)
unfolding cut_lines attach
cut_lines-absent [] h = refl
cut_lines-absent (x ∷ b) h = ground (arith, cut_lines-absent b)

attach-cons :
    (x : ℕ) (line : List ℕ) (lines : List (List ℕ)) (rest : List ℕ)
    → (x == line_terminator) ≡ false
    → attach x (line ∷ lines, rest) ≡ ((x ∷ line) ∷ lines, rest)
unfolding attach
attach-cons x line lines rest h = rw h

attach-newline :
    (x : ℕ) (cut : List (List ℕ) × List ℕ)
    → (x == line_terminator) ≡ true
    → attach x cut ≡ ([] ∷ cut.0, cut.1)
unfolding attach
attach-newline x ([], rest) h = rw h
attach-newline x (line ∷ lines, rest) h = rw h

pub cut_lines-found :
    (b : List ℕ) (n : ℕ)
    → index_of line_terminator b ≡ some n
    → cut_lines b ≡ (take n b ∷ (cut_lines (drop (suc n) b)).0, (cut_lines (drop (suc n) b)).1)
unfolding cut_lines
cut_lines-found [] n h = cc
cut_lines-found (x ∷ b) zero h = attach-newline x (cut_lines b) (ground arith)
cut_lines-found (x ∷ b) (suc n) h =
    rw (cut_lines-found b n (ground arith)) (attach-cons x _ _ _ (ground arith))

-- The cut of `xs ++ ys`, from the cut of `xs`.
abbrev pub resumed : List (List ℕ) × List ℕ → List ℕ → List (List ℕ) × List ℕ
resumed cut ys = (cut.0 ++ (cut_lines (cut.1 ++ ys)).0, (cut_lines (cut.1 ++ ys)).1)

goes_on_lem :
    (x : ℕ) (cut : List (List ℕ) × List ℕ) (ys : List ℕ)
    → (x == line_terminator) ≡ false
    → attach x (resumed cut ys) ≡ resumed (attach x cut) ys
unfolding cut_lines attach
goes_on_lem x ([], rest) ys h = rw h
goes_on_lem x (line ∷ lines, rest) ys h = rw h

resumed-attach :
    (x : ℕ) (cut : List (List ℕ) × List ℕ) (ys : List ℕ)
    → attach x (resumed cut ys) ≡ resumed (attach x cut) ys
unfolding cut_lines
resumed-attach x cut ys = elim (Bool-cases (x == line_terminator)) [
  | inl ends ↦ rw (attach-newline x cut ends) (attach-newline x (resumed cut ys) ends)
  | inr goes_on ↦ goes_on_lem x cut ys goes_on
]

-- Cutting goes on where it stopped.
pub cut_lines-append : (xs ys : List ℕ) → cut_lines (xs ++ ys) ≡ resumed (cut_lines xs) ys
unfolding cut_lines
cut_lines-append [] ys = refl
cut_lines-append (x ∷ xs) ys = rw (cut_lines-append xs ys) (resumed-attach x (cut_lines xs) ys)

line_end-cons :
    (x : ℕ) (b : List ℕ) (n : ℕ) → line_end (x ∷ b) (suc (suc n)) ≡ suc (line_end b (suc n))
unfolding line_end
line_end-cons x b n =
    let e : suc (suc n) - 1 ≡ suc n = omega arith in
    let e' : suc n - 1 ≡ n = omega arith in rw (e, e') (ground arith)

-- What the code does with a found terminator is `chop` of the line.
chop-take : (b : List ℕ) (n : ℕ) → n < length b → chop (take n b) ≡ take (line_end b n) b
unfolding chop line_end
chop-take [] n h = elim h [ ]
chop-take (x ∷ b) zero h = refl
chop-take (x ∷ []) (suc n) h = absurd (omega arith)
chop-take (x ∷ y ∷ b) (suc zero) h = ground arith
chop-take (x ∷ y ∷ b) (suc (suc n)) h =
    ap (λ (line : List ℕ). x ∷ line) (chop-take (y ∷ b) (suc n) (omega arith))
    ∙ rw (line_end-cons x (y ∷ b) n)

-- With fuel for each byte and one more the loop is the recursion: it has not run out.
pub drain_lines-cut :
    (utf8 : Utf8) (fuel : ℕ) (b : List ℕ)
    → length b < fuel
    → drain_lines utf8 fuel b ≡ (texts utf8 (cut_lines b).0, (cut_lines b).1)
unfolding drain_lines texts
drain_lines-cut utf8 zero b h = absurd (omega arith)
drain_lines-cut utf8 (suc fuel) b h = elim (Option-cases (index_of line_terminator b)) [
  | inl absent ↦ rw (drain_lines, absent, cut_lines-absent b absent)
  | inr (n, found) ↦
      let next : n + 1 ≡ suc n = omega arith in
      let inside = index_of-bound line_terminator b n found in
      let rest =
        drain_lines-cut utf8 fuel (drop (suc n) b) (omega (arith, length-drop (suc n) b)) in
      rw (drain_lines, found, next, rest, cut_lines-found b n found, chop-take b n inside)
]
