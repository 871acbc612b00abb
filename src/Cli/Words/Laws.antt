-- ===== src/Cli/Words/Laws.antt =====
-- What the reads of server/src/cli/QuantumCommandCli.cpp give on words and numbers.
use management_sensors.Prelude.{
  ℕ, pos, ◌≤◌, ◌≡◌, refl, sym, ap, ◌∙◌, Bool, true, false, Text, [], ◌∷◌, ◌++◌, append_assoc, none,
  some, All, arith, ◌==◌,
}
use management_sensors.Cli.Words.{
  is_blank, is_space, is_digit, drop_while, drop_while_end, trim, span, word_of, not_space,
  read_word, digits_value, positive, int_of, read_int, good_int, int_max,
}

-- A word: characters, at least one, and no white space.
abbrev pub IsWord : Text → Type 0
IsWord [] = ⊥
IsWord (c ∷ w) = All (λ d. is_space d ≡ false) (c ∷ w)

-- Digits, at least one.
abbrev pub IsNumber : Text → Type 0
IsNumber [] = ⊥
IsNumber (c ∷ w) = All (λ d. is_digit d ≡ true) (c ∷ w)

-- The end of the text, or a character that fails the test.
abbrev pub Stops : (ℕ → Bool) → Text → Type 0
Stops p [] = Unit
Stops p (c ∷ s) = p c ≡ false

span-append :
    (p : ℕ → Bool) (w rest : Text)
    → All (λ d. p d ≡ true) w
    → Stops p rest
    → span p (w ++ rest) ≡ (w, rest)
unfolding span
span-append p [] [] h t = refl
span-append p [] (c ∷ rest) h t = ground arith
span-append p (c ∷ w) rest (q, h) t = ground (arith, span-append p w rest h t)

All-not_space : (w : Text) → All (λ d. is_space d ≡ false) w → All (λ d. not_space d ≡ true) w
unfolding not_space
All-not_space [] h = tt
All-not_space (c ∷ w) (q, h) = (ground arith, All-not_space w h)

pub read_word-append :
    (w rest : Text) → IsWord w → Stops not_space rest → read_word (w ++ rest) ≡ some (w, rest)
unfolding read_word drop_while
read_word-append [] rest h t = absurd h
read_word-append (c ∷ w) rest (q, h) t =
    rw q (rw (span-append not_space (c ∷ w) rest (All-not_space (c ∷ w) (q, h)) t) refl)

pub read_word-space : (s : Text) → read_word (b' ' ∷ s) ≡ read_word s
unfolding read_word drop_while is_space
read_word-space s = refl

pub read_int-space : (s : Text) → read_int (b' ' ∷ s) ≡ read_int s
unfolding read_int drop_while is_space
read_int-space s = refl

-- A digit is neither white space nor a sign.
digit_only :
    (c : ℕ)
    → is_digit c ≡ true
    → (is_space c ≡ false) × ((c == b'-') ≡ false) × ((c == b'+') ≡ false)
unfolding is_digit is_space
digit_only c h = (ground arith, ground arith, ground arith)

pub read_int-append :
    (ds rest : Text)
    → IsNumber ds
    → digits_value 0 ds ≤ int_max
    → Stops is_digit rest
    → read_int (ds ++ rest) ≡ good_int (pos (digits_value 0 ds)) rest
unfolding read_int drop_while int_of positive
read_int-append [] rest h m t = absurd h
read_int-append (c ∷ ds) rest (q, h) m t =
    let (space, minus, plus) = digit_only c q in
    rw space (rw minus (rw plus (rw (span-append is_digit (c ∷ ds) rest (q, h) t) (ground arith))))

space_of_blank : (c : ℕ) → is_space c ≡ false → is_blank c ≡ false
unfolding is_space is_blank
space_of_blank c h = ground arith

drop_while_end-cons :
    (c d : ℕ) (s t : Text)
    → drop_while_end is_blank s ≡ d ∷ t
    → drop_while_end is_blank (c ∷ s) ≡ c ∷ d ∷ t
unfolding drop_while_end
drop_while_end-cons c d s t h = rw (h, drop_while_end)

drop_while_end-word : (w : Text) → IsWord w → drop_while_end is_blank w ≡ w
unfolding drop_while_end
drop_while_end-word [] h = absurd h
drop_while_end-word (c ∷ []) (q, h) = rw (space_of_blank c q)
drop_while_end-word (c ∷ d ∷ w) (q, h) =
    drop_while_end-cons c d (d ∷ w) w (drop_while_end-word (d ∷ w) h)

append-cons : (s w : Text) → IsWord w → (d : ℕ) × (t : Text) × (s ++ w ≡ d ∷ t)
append-cons [] [] h = absurd h
append-cons [] (d ∷ w) h = (d, w, refl)
append-cons (c ∷ s) w h = (c, s ++ w, refl)

-- A text that ends in a word has no blank at its end.
drop_while_end-append : (s w : Text) → IsWord w → drop_while_end is_blank (s ++ w) ≡ s ++ w
drop_while_end-append [] w h = drop_while_end-word w h
drop_while_end-append (c ∷ s) w h =
    let (d, t, e) = append-cons s w h in
    drop_while_end-cons c d (s ++ w) t (drop_while_end-append s w h ∙ e) ∙ ap (λ u. c ∷ u) (sym e)

-- A text that begins and ends with a word is its own trim.
pub trim-words : (v s w : Text) → IsWord v → IsWord w → trim (v ++ (s ++ w)) ≡ v ++ (s ++ w)
unfolding trim drop_while
trim-words [] s w hv hw = absurd hv
trim-words (c ∷ v) s w (q, hv) hw =
    rw (space_of_blank c q)
      (rw (sym (append_assoc (c ∷ v) s w)) (drop_while_end-append ((c ∷ v) ++ s) w hw))

pub read_word-nil : read_word [] ≡ none
unfolding read_word drop_while span word_of
read_word-nil = refl
