-- ===== src/Cli/Words.antt =====
-- Words with blanks between them: what `strings.TrimSpace` and `strings.Split` make of a line.
use mathlib.Core.List.{append-nil}
use casbin_mesh.Prelude.{
  sym, ℕ, zero, suc, Str, str, ◌≡◌, ◌≢◌, refl, false, List, [], ◌∷◌, ◌++◌, arith, nat_eq, list_eq,
  list_beq, All, join, split_byte, is_space, trim_left, trim_right, trim_space, trim_left_from,
  is_wide_space-ascii, wide_more-ascii, ◌<◌, ◌∙◌, ap,
}

-- A word is not blank, has no white space and is in ASCII.
abbrev pub IsWord : Str → Type 0
IsWord w = (w ≢ []) × All (λ c. is_space c ≡ false) w × All (λ c. c < 128) w

-- Each word behind a blank.
abbrev pub tail : List Str → Str
tail [] = []
tail (w ∷ ws) = 32 ∷ (w ++ tail ws)

abbrev pub blanks : ℕ → List Str
blanks zero = []
blanks (suc n) = [] ∷ blanks n

pub join-tail : (w : Str) (ws : List Str) → join (str " ") (w ∷ ws) ≡ w ++ tail ws
unfolding join
join-tail w [] = sym (append-nil w)
join-tail w (x ∷ ws) = rw (join-tail x ws) refl

trim_right-word :
    (w t : Str)
    → All (λ c. is_space c ≡ false) w
    → All (λ c. c < 128) w
    → trim_right (w ++ t) ≡ w ++ trim_right t
unfolding trim_right
trim_right-word [] t clear ascii = refl
trim_right-word (c ∷ w) t clear ascii =
    rw
      (
        trim_right-word w t clear.1 ascii.1,
        clear.0,
        is_wide_space-ascii c (w ++ trim_right t) ascii.0,
      )
      refl

trim_right-blanks : (n : ℕ) → trim_right (tail (blanks n)) ≡ []
unfolding trim_right is_space list_beq
trim_right-blanks zero = refl
trim_right-blanks (suc n) = rw (trim_right-blanks n) refl

trim_right-tail :
    (n : ℕ) (ws : List Str) → All IsWord ws → trim_right (tail (ws ++ blanks n)) ≡ tail ws
unfolding trim_right is_space list_beq
trim_right-tail n [] words = trim_right-blanks n
trim_right-tail n ([] ∷ ws) words = absurd (words.0.0 refl)
trim_right-tail n ((c ∷ w) ∷ ws) words =
    rw
      (
        trim_right-word (c ∷ w) (tail (ws ++ blanks n)) words.0.1 words.0.2,
        trim_right-tail n ws words.1,
        is_wide_space-ascii 32 (c ∷ (w ++ tail ws)) (omega arith),
      )
      refl

-- Blank words at the end are trimmed off.
pub trim_right-words :
    (n : ℕ) (w : Str) (ws : List Str)
    → IsWord w
    → All IsWord ws
    → trim_right (join (str " ") (w ∷ (ws ++ blanks n))) ≡ w ++ tail ws
trim_right-words n w ws word words =
    ap trim_right (join-tail w (ws ++ blanks n))
    ∙ trim_right-word w (tail (ws ++ blanks n)) word.1 word.2
    ∙ ap (λ t. w ++ t) (trim_right-tail n ws words)

split-first :
    (w t : Str)
    → All (λ c. is_space c ≡ false) w
    → split_byte 32 (w ++ (32 ∷ t)) ≡ w ∷ split_byte 32 t
unfolding split_byte is_space
split-first [] t clear = refl
split-first (c ∷ w) t clear = ground (arith, clear.0, split-first w t clear.1)

split-last : (w : Str) → All (λ c. is_space c ≡ false) w → split_byte 32 (w ++ []) ≡ w ∷ []
unfolding split_byte is_space
split-last [] clear = refl
split-last (c ∷ w) clear = ground (arith, clear.0, split-last w clear.1)

-- The words come back.
pub split-tail :
    (w : Str) (ws : List Str) → IsWord w → All IsWord ws → split_byte 32 (w ++ tail ws) ≡ w ∷ ws
split-tail w [] word words = split-last w word.1
split-tail w (x ∷ ws) word words =
    split-first w (x ++ tail ws) word.1 ∙ ap (λ rest. w ∷ rest) (split-tail x ws words.0 words.1)

-- No blank is at the beginning of a word.
trim_left-word : (w t : Str) → IsWord w → trim_left (w ++ t) ≡ w ++ t
unfolding trim_left trim_left_from
trim_left-word [] t word = absurd (word.0 refl)
trim_left-word (c ∷ w) t word =
    rw (trim_left, trim_left_from, word.1.0, wide_more-ascii c (w ++ t) word.2.0) refl

-- A line of words is cut into its words.
pub words-line :
    (w : Str) (ws : List Str)
    → IsWord w
    → All IsWord ws
    → split_byte 32 (trim_space (join (str " ") (w ∷ ws))) ≡ w ∷ ws
unfolding trim_space
words-line w ws word words =
    let whole : trim_right (join (str " ") (w ∷ ws)) ≡ w ++ tail ws =
      ap (λ us. trim_right (join (str " ") (w ∷ us))) (sym (append-nil ws))
      ∙ trim_right-words 0 w ws word words in
    ap (λ t. split_byte 32 (trim_right (trim_left t))) (join-tail w ws)
    ∙ ap (λ t. split_byte 32 (trim_right t)) (trim_left-word w (tail ws) word)
    ∙ ap (λ t. split_byte 32 (trim_right t)) (sym (join-tail w ws))
    ∙ ap (λ t. split_byte 32 t) whole
    ∙ split-tail w ws word words
