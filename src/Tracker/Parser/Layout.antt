-- ===== src/Tracker/Parser/Layout.antt =====
-- `parseFrame` on a frame that is laid out as the protocol says.
use avt_tracker.Base.{
  false, ltb, index_of-append_absent, append_assoc, drop-append_plus, get_or-append_self, some,
  take-append_self, suc, sym, true, ◌∙◌, ap, drop, length-append, take, none, index_of, length, ℕ,
  ◌+◌, ◌-◌, ◌≡◌, ◌<◌, List, [], ◌∷◌, ◌++◌, refl, arith,
}
use avt_tracker.Base.Text.{Text}
use avt_tracker.Tracker.Cursor.{ascii}
use avt_tracker.Tracker.Header.{read_head_token}
use avt_tracker.Tracker.Parser.{ok, binary_section, has_trailing_hash}

length-ascii : (xs : List ℕ) → length (ascii xs) ≡ length xs
length-ascii [] = refl
length-ascii (x ∷ xs) = ap suc (length-ascii xs)

-- The head token of a frame that starts with `head` and a colon.
abbrev pub token_of : List ℕ → Text
token_of head = ascii (head ++ (b':' ∷ []))

module _ (head : List ℕ) (plain : index_of b':' head ≡ none) (short : length head < 8) where
  length-token : length (token_of head) ≡ length head + 1
  length-token = omega (arith, length-ascii (head ++ (b':' ∷ [])), length-append head (b':' ∷ []))

  take_token :
      (rest : List ℕ) → take (length head + 1) (head ++ (b':' ∷ rest)) ≡ head ++ (b':' ∷ [])
  take_token rest =
      let e : length head + 1 ≡ length (head ++ (b':' ∷ [])) =
        omega (arith, length-append head (b':' ∷ [])) in
      rw e (
        ap (take (length (head ++ (b':' ∷ [])))) (sym (append_assoc head (b':' ∷ []) rest))
        ∙ take-append_self (head ++ (b':' ∷ [])) rest)

  pub read_head_token-head :
      (rest : List ℕ) → read_head_token (head ++ (b':' ∷ rest)) ≡ ok (token_of head)
  unfolding read_head_token
  read_head_token-head rest =
      let at : index_of b':' (head ++ (b':' ∷ rest)) ≡ some (length head) =
        index_of-append_absent b':' head (b':' ∷ rest) plain ∙ ap some (omega arith) in
      let early : ltb 7 (length head) ≡ false = ground arith in
      rw (at, read_head_token, early, take_token rest)

  module _ (section : List ℕ) where
    abbrev frame : List ℕ
    frame = head ++ (b':' ∷ (section ++ (0x23 ∷ [])))

    length-frame : length frame ≡ length head + length section + 2
    length-frame = omega (
      arith,
      length-append head (b':' ∷ (section ++ (0x23 ∷ []))),
      length-append section (0x23 ∷ []),
    )

    pub trailing : has_trailing_hash frame ≡ true
    trailing =
        let e : length frame - 1 ≡ length head + suc (length section + 0) =
          omega (arith, length-frame) in
        let last =
          get_or-append_self head (b':' ∷ (section ++ (0x23 ∷ []))) (suc (length section + 0)) 0
          ∙ get_or-append_self section (0x23 ∷ []) 0 0 in
        rw (e, last)

    pub behind : (n : ℕ) → drop (length (token_of head) + n) frame ≡ drop n (section ++ (0x23 ∷ []))
    behind n =
        let e : length (token_of head) + n ≡ length head + suc n = omega (arith, length-token) in
        rw e (drop-append_plus head (b':' ∷ (section ++ (0x23 ∷ []))) (suc n))

    pub binary_section-frame : binary_section frame (token_of head) ≡ section
    binary_section-frame =
        let size : length frame - 1 - length (token_of head) ≡ length section =
          omega (arith, length-frame, length-token) in
        let e : length (token_of head) ≡ length (token_of head) + 0 = omega arith in
        rw (trailing, size)
          (ap (λ (k : ℕ). take (length section) (drop k frame)) e
            ∙ ap (take (length section)) (behind 0)
            ∙ take-append_self section (0x23 ∷ []))
