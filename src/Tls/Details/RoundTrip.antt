-- ===== src/Tls/Details/RoundTrip.antt =====
-- The wire code in the connection details, of server/src/net/QuantumSafeTlsEngine.hpp.
use management_sensors.Prelude.{
  ℕ, zero, suc, ◌+◌, ◌-◌, ◌*◌, ◌/◌, ◌%◌, ◌≤◌, ◌<◌, ◌^◌, ◌≡◌, refl, ap, ◌∙◌, inl, inr, Text, [], ◌∷◌,
  ◌++◌, length, replicate, length-replicate, length-append, if◌then◌else◌, ltb, arith, Bool-cases,
}
use management_sensors.Tls.Details.{hex_digit, hex_digits, show_wire_code}

-- The value of a digit, and of digits after what has been read.
abbrev pub digit_value : ℕ → ℕ
digit_value c = if ltb c b'a' then c - b'0' else c - b'a' + 10

abbrev pub hex_value : Text → ℕ → ℕ
hex_value [] read = read
hex_value (c ∷ s) read = hex_value s (read * 16 + digit_value c)

digit_value-hex_digit : (d : ℕ) → d < 16 → digit_value (hex_digit d) ≡ d
unfolding hex_digit
digit_value-hex_digit d h = ground arith

hex_value-hex_digits :
    (f n : ℕ) (acc : Text) → n < f → hex_value (hex_digits f n acc) 0 ≡ hex_value acc n
unfolding hex_digits
hex_value-hex_digits zero n acc h = absurd (omega arith)
hex_value-hex_digits (suc f) n acc h = elim (Bool-cases (ltb n 16)) [
  | inl small ↦
      let last : 0 + digit_value (hex_digit n) ≡ n =
        omega (arith, digit_value-hex_digit n (ground (arith, small))) in
      rw small (ap (hex_value acc) last)
  | inr large ↦
      let digit : digit_value (hex_digit (n % 16)) ≡ n % 16 =
        digit_value-hex_digit (n % 16) (omega arith) in
      let whole : n / 16 * 16 + n % 16 ≡ n = omega arith in
      let bound : n / 16 < f = ground (arith, large, h) in
      rw large (
        hex_value-hex_digits f (n / 16) (hex_digit (n % 16) ∷ acc) bound
        ∙ (ap (λ d. hex_value acc (n / 16 * 16 + d)) digit ∙ ap (hex_value acc) whole))
]

hex_value-replicate : (k : ℕ) (s : Text) → hex_value (replicate k b'0' ++ s) 0 ≡ hex_value s 0
hex_value-replicate zero s = refl
hex_value-replicate (suc k) s = hex_value-replicate k s

length-hex_digits :
    (k f n : ℕ) (acc : Text) → n < 16 ^ suc k → length (hex_digits f n acc) ≤ length acc + suc k
unfolding hex_digits
length-hex_digits k zero n acc h = omega arith
length-hex_digits zero (suc f) n acc h = ground arith
length-hex_digits (suc k) (suc f) n acc h =
    let shorter : n / 16 < 16 ^ suc k = omega (arith, h) in
    ground (arith, length-hex_digits k f (n / 16) (hex_digit (n % 16) ∷ acc) shorter)

-- A wire code of sixteen bits is written with four digits, from which it can be read.
pub show_wire_code-hex_value :
    (code : ℕ)
    → code < 2 ^ 16
    → (length (show_wire_code code) ≡ 4) × (hex_value (show_wire_code code) 0 ≡ code)
unfolding show_wire_code
show_wire_code-hex_value code h =
    let digits = hex_digits (suc code) code [] in
    let short : length digits ≤ 4 = length-hex_digits 3 (suc code) code [] h in
    (
      omega (
        arith,
        short,
        length-append {A = ℕ} (replicate (4 - length digits) b'0') digits,
        length-replicate {A = ℕ} (4 - length digits) b'0',
      ),
      hex_value-replicate (4 - length digits) digits
          ∙ hex_value-hex_digits (suc code) code [] (omega arith),
    )
