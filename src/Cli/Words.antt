-- ===== src/Cli/Words.antt =====
-- The reads that server/src/cli/QuantumCommandCli.cpp makes from a `std::istringstream`: each gives
-- what it reads and the text that is left.
pub mod Laws
use management_sensors.Prelude.{
  ℕ, ℤ, pos, negsuc, ◌+◌, ◌-◌, ◌*◌, ◌^◌, Bool, true, false, ◌&&◌, ◌||◌, Text, List, [], ◌∷◌, Option,
  none, some, leb, ltb, ◌==◌, if◌then◌else◌,
}

-- The set of `find_first_not_of(" \t\r\n")`.
unfoldable pub is_blank : ℕ → Bool
is_blank c = c == b' ' || (c == 9 || (c == 13 || c == 10))

-- std::isspace in the "C" locale.
unfoldable pub is_space : ℕ → Bool
is_space c = c == b' ' || (leb 9 c && leb c 13)

unfoldable pub is_digit : ℕ → Bool
is_digit c = leb b'0' c && leb c b'9'

unfoldable pub drop_while : (ℕ → Bool) → Text → Text
drop_while p [] = []
drop_while p (c ∷ s) = let rest = drop_while p s in if p c then rest else c ∷ s

-- The text up to its last character outside the set.
unfoldable pub drop_while_end : (ℕ → Bool) → Text → Text
drop_while_end p [] = []
drop_while_end p (c ∷ s) = elim (drop_while_end p s) [
  | [] ↦ if p c then [] else c ∷ []
  | d ∷ t ↦ c ∷ d ∷ t
]

-- `line.substr(first, last - first + 1)`, empty where every character is blank.
unfoldable pub trim : Text → Text
unfolding is_blank
trim line = drop_while_end is_blank (drop_while is_blank line)

-- The characters up to the first that fails the test, and the rest.
unfoldable pub span : (ℕ → Bool) → Text → Text × Text
span p [] = ([], [])
span p (c ∷ s) = let (a, b) = span p s in if p c then (c ∷ a, b) else ([], c ∷ s)

word_of : Text × Text → Option (Text × Text)
word_of ([], rest) = none
word_of (c ∷ w, rest) = some (c ∷ w, rest)

unfoldable pub not_space : ℕ → Bool
unfolding is_space
not_space c = if is_space c then false else true

-- `iss >> word`
unfoldable pub read_word : Text → Option (Text × Text)
unfolding word_of not_space
read_word s = word_of (span not_space (drop_while is_space s))

-- The number that digits stand for, after those that are read.
unfoldable pub digits_value : ℕ → Text → ℕ
digits_value acc [] = acc
digits_value acc (c ∷ s) = digits_value (acc * 10 + (c - b'0')) s

-- `iss >> number`: no character was left; or what was there is no int, and this is what is stored; or
-- an int and the rest.
pub data IntResult : Type 0 where
  no_input : IntResult
  bad_int : ℤ → IntResult
  good_int : ℤ → Text → IntResult

abbrev pub int_max : ℕ
int_max = 2 ^ 31 - 1

-- Without a sign, and after a minus sign.
unfoldable pub positive : Text × Text → IntResult
positive ([], rest) = bad_int (pos 0)
positive (c ∷ ds, rest) =
    let n = digits_value 0 (c ∷ ds) in
    if leb n int_max then good_int (pos n) rest else bad_int (pos int_max)

negate : ℕ → ℤ
negate n = if n == 0 then pos 0 else negsuc (n - 1)

unfoldable pub negative : Text × Text → IntResult
unfolding negate
negative ([], rest) = bad_int (pos 0)
negative (c ∷ ds, rest) =
    let n = digits_value 0 (c ∷ ds) in
    if leb n (int_max + 1) then good_int (negate n) rest else bad_int (negsuc int_max)

int_of : Text → IntResult
int_of [] = no_input
int_of (c ∷ s) =
    if c == b'-'
    then negative (span is_digit s)
    else if c == b'+'
    then positive (span is_digit s)
    else positive (span is_digit (c ∷ s))

unfoldable pub read_int : Text → IntResult
unfolding int_of
read_int s = int_of (drop_while is_space s)
