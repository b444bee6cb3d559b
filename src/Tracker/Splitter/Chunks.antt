-- ===== src/Tracker/Splitter/Chunks.antt =====
-- Frames that arrive in pieces: when the way a stream is split into chunks does not matter, and
-- when it does.
use avt_tracker.Base.{
  index_of-front_absent, take, take_all, min, length-append, ap, arith, drop, none, ◌∙◌, append-nil,
  refl, uint16_at, ◌<◌, index_of, inr, length, sym, inl, ◌⊎◌, ℕ, zero, suc, ◌+◌, ◌≡◌, List, [], ◌∷◌,
  ◌++◌,
}
use avt_tracker.Tracker.Splitter.{
  stop, round_of, round, frame_terminator, undefined, colon, fallback_length, length_after_colon,
  resolve_frame_length,
}
use avt_tracker.Tracker.Splitter.Whole.{bytes, length-opening, declared_at, resolve-head, Frame}
use mathlib.Core.Path.{subst}

module _ {A : Type 0} where
  -- Two ways to cut one list.
  pub prefix_split :
      (p q xs ys : List A)
      → p ++ q ≡ xs ++ ys
      → ((r : List A) × (p ≡ xs ++ r) × (r ++ q ≡ ys))
        ⊎ ((y : A) × (r : List A) × (xs ≡ p ++ (y ∷ r)) × (q ≡ (y ∷ r) ++ ys))
  prefix_split p q [] ys e = inl (p, refl, e)
  prefix_split [] q (x ∷ xs) ys e = inr (x, xs, refl, e)
  prefix_split (z ∷ p) q (x ∷ xs) ys e = elim (prefix_split p q xs ys (cc)) [
    | inl (r, a, b) ↦ inl (r, cc, b)
    | inr (y, r, a, b) ↦ inr (y, r, cc, b)
  ]

-- A proper prefix of `xs ++ (x ∷ [])` is a prefix of `xs`.
prefix_of_last :
    (p : List ℕ) (y : ℕ) (q xs : List ℕ) (x : ℕ)
    → p ++ (y ∷ q) ≡ xs ++ (x ∷ [])
    → (r : List ℕ) × (xs ≡ p ++ r)
prefix_of_last p y q xs x e = elim (prefix_split p (y ∷ q) xs (x ∷ []) e) [
  | inl ([], a, b) ↦ ([], sym (append-nil p ∙ a ∙ append-nil xs))
  | inl (z ∷ r, a, b) ↦ absurd (omega (arith, ap (length {A = ℕ}) b, length-append r (y ∷ q)))
  | inr (z, r, a, b) ↦ (z ∷ r, a)
]

resolve-none :
    (b window : List ℕ)
    → take (min (length b) 8) b ≡ window
    → index_of colon window ≡ none
    → length window < 8
    → resolve_frame_length b ≡ undefined
unfolding resolve_frame_length
resolve-none b window e plain short = rw (e, resolve_frame_length, plain) (ground arith)

resolve-unfinished_head :
    (p : List ℕ) → index_of colon p ≡ none → length p < 8 → resolve_frame_length p ≡ undefined
resolve-unfinished_head p plain short =
    let whole : min (length p) 8 ≡ length p = omega arith in
    resolve-none p p (rw whole (take_all p)) plain short

fallback-quiet :
    (b : List ℕ) (m : ℕ)
    → index_of frame_terminator (drop m b) ≡ none
    → fallback_length b m ≡ undefined
unfolding fallback_length
fallback-quiet b m quiet = ground arith

after_colon-waits :
    (b : List ℕ) (c d : ℕ)
    → uint16_at b (c + 1) ≡ d
    → length b < c + d + 4
    → index_of frame_terminator (drop (c + 21) b) ≡ none
    → length_after_colon b c ≡ undefined
unfolding length_after_colon
after_colon-waits b c d declared short quiet =
    let e : c + 1 + 2 + 18 ≡ c + 21 = omega arith in
    rw declared (ground (arith, e, fallback-quiet b (c + 1 + 2 + 18) (rw e quiet)))

after_colon-short : (b : List ℕ) (c : ℕ) → length b < c + 3 → length_after_colon b c ≡ undefined
unfolding length_after_colon
after_colon-short b c h = ground arith

round-undefined : (b : List ℕ) → resolve_frame_length b ≡ undefined → round b ≡ stop
unfolding round round_of
round-undefined b e = rw e

-- No '#' stands between the earliest place of a terminator and the real one.
abbrev pub IsQuiet : Frame → Type 0
IsQuiet f = index_of frame_terminator (drop 18 f.body) ≡ none

pub drop_head :
    (head : List ℕ) (hi lo : ℕ) (tail : List ℕ)
    → drop (length head + 21) (head ++ (colon ∷ hi ∷ lo ∷ tail)) ≡ drop 18 tail
drop_head [] hi lo tail = refl
drop_head (x ∷ head) hi lo tail =
    let e : suc (length head) + 21 ≡ suc (length head + 21) = omega arith in
    rw e (drop_head head hi lo tail)

part_quiet :
    (n : ℕ) (p r : List ℕ)
    → index_of frame_terminator (drop n (p ++ r)) ≡ none
    → index_of frame_terminator (drop n p) ≡ none
part_quiet zero p r h = index_of-front_absent frame_terminator p r h
part_quiet (suc n) [] r h = refl
part_quiet (suc n) (x ∷ p) r h = part_quiet n p r h

-- The part of a quiet frame's body that has arrived.
body_waits :
    (f : Frame) (p r : List ℕ)
    → IsQuiet f
    → f.body ≡ p ++ r
    → resolve_frame_length (f.head ++ (colon ∷ f.hi ∷ f.lo ∷ p)) ≡ undefined
body_waits f p r quiet e =
    resolve-head f.head (f.hi ∷ f.lo ∷ p) f.honest.plain f.honest.short
    ∙ after_colon-waits _ (length f.head) (length f.body)
        (declared_at f.head f.hi f.lo p ∙ f.honest.declared)
        (omega (arith, length-opening f.head f.hi f.lo p, ap (length {A = ℕ}) e, length-append p r))
        (rw drop_head
          (part_quiet 18 p r (subst (λ t. index_of frame_terminator (drop 18 t) ≡ none) e quiet)))

head_waits : (f : Frame) (p r : List ℕ) → f.head ≡ p ++ r → resolve_frame_length p ≡ undefined
head_waits f p r e =
    resolve-unfinished_head p
      (index_of-front_absent colon p r (subst (λ t. index_of colon t ≡ none) e f.honest.plain))
      (let s = f.honest.short in omega (arith, ap (length {A = ℕ}) e, length-append p r))

length_waits :
    (f : Frame) (tail : List ℕ)
    → length tail < 2
    → resolve_frame_length (f.head ++ (colon ∷ tail)) ≡ undefined
length_waits f tail few =
    resolve-head f.head tail f.honest.plain f.honest.short
    ∙ after_colon-short _ (length f.head) (omega (arith, length-append f.head (colon ∷ tail)))

-- A quiet frame that has not arrived whole is waited for.
pub round-part :
    (f : Frame) (p : List ℕ) (y : ℕ) (q : List ℕ)
    → IsQuiet f
    → p ++ (y ∷ q) ≡ bytes f
    → round p ≡ stop
round-part f p y q quiet e = round-undefined p (elim (prefix_split p (y ∷ q) f.head _ e) [
  | inl ([], a, b) ↦ head_waits f p [] (sym (append-nil p ∙ a ∙ append-nil f.head))
  | inl (c ∷ [], a, b) ↦ let ce : c ≡ colon = cc in rw (a, ce) (length_waits f [] (omega arith))
  | inl (c ∷ hi ∷ [], a, b) ↦
      let ce : c ≡ colon = cc in rw (a, ce) (length_waits f (hi ∷ []) (omega arith))
  | inl (c ∷ hi ∷ lo ∷ t, a, b) ↦
      let ce : c ≡ colon = cc in
      let he : hi ≡ f.hi = cc in
      let le : lo ≡ f.lo = cc in
      let te : t ++ (y ∷ q) ≡ f.body ++ (frame_terminator ∷ []) = cc in
      let (r, whole) = prefix_of_last t y q f.body frame_terminator te in
      rw (a, ce, he, le) (body_waits f t r quiet whole)
  | inr (z, r, a, b) ↦ head_waits f p (z ∷ r) a
])
