-- ===== src/Prelude/Strings.antt =====
-- std::string as the list of its bytes, with the members of the standard library that the program
-- calls.
use Prim.Native.Nat.{ℕ, zero, suc, ◌+◌, ◌-◌, ◌/◌, ◌%◌}
use Prim.Native.Char.{code}
use Prim.Native.String.{String}
use mathlib.Core.Path.{◌≡◌, refl, ap}
use mathlib.Core.Logic.{◌≢◌, ◌↔◌, inl, inr}
use mathlib.Core.Bool.{Bool, true, false, ◌&&◌}
use mathlib.Core.Option
use mathlib.Core.Option.{Option, none, some}
use mathlib.Core.List.{List, [], ◌∷◌, ◌++◌}
use native.Mathlib.Omega.{arith}
use management_sensors.Prelude.Tests.{ltb, ◌==◌, ==_iff, if◌then◌else◌, Bool-cases}
use management_sensors.Prelude.Lists.{length, take, drop, replicate, All}

abbrev pub Text : Type 0
Text = List ℕ

-- The bytes of a literal, all of which are ASCII in this program.
abbrev pub codes : String → Text
codes String.[] = []
codes (String.◌∷◌ c s) = code c ∷ codes s

-- s == t
unfoldable pub text_eq : Text → Text → Bool
text_eq [] [] = true
text_eq [] (d ∷ t) = false
text_eq (c ∷ s) [] = false
text_eq (c ∷ s) (d ∷ t) = c == d && text_eq s t

pub text_eq_sound : (s t : Text) → text_eq s t ≡ true → s ≡ t
unfolding text_eq
text_eq_sound [] [] h = refl
text_eq_sound [] (d ∷ t) h = cc
text_eq_sound (c ∷ s) [] h = cc
text_eq_sound (c ∷ s) (d ∷ t) h = ground (arith, text_eq_sound s t)

pub text_eq_refl : (s : Text) → text_eq s s ≡ true
unfolding text_eq
text_eq_refl [] = refl
text_eq_refl (c ∷ s) = ground (arith, text_eq_refl s)

pub text_eq_iff : (s t : Text) → (text_eq s t ≡ true) ↔ (s ≡ t)
text_eq_iff s t = (text_eq_sound s t, λ e. rw e (text_eq_refl t))

-- s.starts_with(p)
unfoldable pub starts_with : Text → Text → Bool
starts_with s [] = true
starts_with [] (d ∷ p) = false
starts_with (c ∷ s) (d ∷ p) = c == d && starts_with s p

-- s.find(c): the first position of a character, or npos.
unfoldable pub find_char : ℕ → Text → Option ℕ
find_char c [] = none
find_char c (d ∷ s) = if d == c then some 0 else Option.map suc (find_char c s)

-- s.find(c, pos)
unfoldable pub find_char_from : ℕ → Text → ℕ → Option ℕ
find_char_from c s from = Option.map (λ i. from + i) (find_char c (drop from s))

-- s.find(p): the first position of a substring.
unfoldable pub find_text : Text → Text → Option ℕ
unfolding starts_with
find_text p [] = if starts_with [] p then some 0 else none
find_text p (c ∷ s) = if starts_with (c ∷ s) p then some 0 else Option.map suc (find_text p s)

-- s.rfind(c): the last position of a character.
unfoldable pub rfind_char : ℕ → Text → Option ℕ
rfind_char c [] = none
rfind_char c (d ∷ s) = elim (rfind_char c s) [
  | some i ↦ some (suc i)
  | none ↦ if d == c then some 0 else none
]

-- s.substr(pos, n), at a position inside the text.
abbrev pub substr : Text → ℕ → ℕ → Text
substr s from n = take n (drop from s)

-- s.back() == c, false for the empty text.
unfoldable pub ends_with_char : ℕ → Text → Bool
ends_with_char c [] = false
ends_with_char c (d ∷ []) = d == c
ends_with_char c (d ∷ e ∷ s) = ends_with_char c (e ∷ s)

-- s.pop_back()
unfoldable pub pop_back : Text → Text
pop_back [] = []
pop_back (c ∷ []) = []
pop_back (c ∷ d ∷ s) = c ∷ pop_back (d ∷ s)

-- Digits of a number, the first one first, before `acc`; the fuel bounds their count.
show_digits : ℕ → ℕ → Text → Text
show_digits zero n acc = acc
show_digits (suc f) n acc =
    let digit = b'0' + n % 10 in
    let rest = show_digits f (n / 10) (digit ∷ acc) in if ltb n 10 then digit ∷ acc else rest

-- std::to_string of an unsigned number.
unfoldable pub show_nat : ℕ → Text
unfolding show_digits
show_nat n = show_digits (suc n) n []

-- `std::setw(width) << std::setfill('0')` before a number that is written as `text`.
abbrev pub pad : ℕ → Text → Text
pad width text = replicate (width - length text) b'0' ++ text

-- The character does not occur.
abbrev pub Without : ℕ → Text → Type 0
Without c = All (λ d. d ≢ c)

pub find_char-append :
    (c : ℕ) (s t : Text) → Without c s → find_char c (s ++ c ∷ t) ≡ some (length s)
unfolding find_char
find_char-append c [] t h = ground arith
find_char-append c (d ∷ s) t (p, h) = ground (arith, find_char-append c s t h)

pub find_char-Without : (c : ℕ) (s : Text) → Without c s → find_char c s ≡ none
unfolding find_char
find_char-Without c [] h = refl
find_char-Without c (d ∷ s) (p, h) = ground (arith, find_char-Without c s h)

-- What a successful search says of the text.
pub find_char_split :
    (c : ℕ) (s : Text) (i : ℕ)
    → find_char c s ≡ some i
    → Without c (take i s) × (s ≡ take i s ++ c ∷ drop (suc i) s)
unfolding find_char
find_char_split c [] i h = cc
find_char_split c (d ∷ s) zero h = elim (Bool-cases (d == c)) [
  | inl e ↦ (tt, ap (λ x. x ∷ s) ((==_iff d c).0 e))
  | inr e ↦ absurd (ground arith)
]
find_char_split c (d ∷ s) (suc i) h = elim (Bool-cases (d == c)) [
  | inl e ↦ absurd (ground arith)
  | inr e ↦
      let (p, q) = find_char_split c s i (ground arith) in ((ground arith, p), ap (λ t. d ∷ t) q)
]

-- s.c_str(), as a std::string is built from it: the text up to its first NUL.
unfoldable pub c_str : Text → Text
c_str [] = []
c_str (c ∷ s) = if c == 0 then [] else c ∷ c_str s

-- A C++ `std::replace` of one character by another.
unfoldable pub replace_char : ℕ → ℕ → Text → Text
replace_char old new [] = []
replace_char old new (c ∷ s) = (if c == old then new else c) ∷ replace_char old new s

-- The `erase(remove(…))` idiom: every occurrence of a character goes.
unfoldable pub remove_char : ℕ → Text → Text
remove_char c [] = []
remove_char c (d ∷ s) = let rest = remove_char c s in if d == c then rest else d ∷ rest

pub starts_with-append : (p t : Text) → starts_with (p ++ t) p ≡ true
unfolding starts_with
starts_with-append [] [] = refl
starts_with-append [] (c ∷ t) = refl
starts_with-append (d ∷ p) t = ground (arith, starts_with-append p t)

pub starts_with-drop : (s p : Text) → starts_with s p ≡ true → s ≡ p ++ drop (length p) s
unfolding starts_with
starts_with-drop [] [] h = refl
starts_with-drop (c ∷ s) [] h = refl
starts_with-drop [] (d ∷ p) h = cc
starts_with-drop (c ∷ s) (d ∷ p) h = ground (arith, starts_with-drop s p)
