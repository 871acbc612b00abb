-- ===== src/Jwt/Base64url.antt =====
-- The base64url codec of libs/jwt/JwtManager.cpp inverts Botan's alphabet change and padding.
use management_sensors.Prelude.{
  ℕ, zero, suc, ◌+◌, ◌%◌, ◌≤◌, ◌<◌, ◌≡◌, ◌≢◌, refl, sym, ap, ◌∙◌, inl, inr, Text, length, replicate,
  All, Without, [], ◌∷◌, ◌++◌, append-nil, append_assoc, length-append, length-replicate,
  replace_char, remove_char, arith, ◌==◌, ==_iff, Bool-cases,
}
use management_sensors.Jwt.{Crypto, pad, base64url_encode, base64url_decode}

-- A character of the base64 alphabet is none of these.
pub record IsDigit (c : ℕ) : Type 0 where
  pub not_pad : c ≢ b'='
  pub not_minus : c ≢ b'-'
  pub not_underscore : c ≢ b'_'
  pub not_dot : c ≢ b'.'

-- Text of the base64 format: digits, then at most two pad characters up to a multiple of four.
pub record IsBase64 (s : Text) : Type 0 where
  pub body : Text
  pub pads : ℕ
  pub parts : s ≡ body ++ replicate pads b'='
  pub digits : All IsDigit body
  pub few : pads ≤ 2
  pub whole : length s % 4 ≡ 0

-- The loop of `base64url_decode` ends with a length that 4 divides, after three rounds at most.
pub pad_whole : (s : Text) → length (pad 3 s) % 4 ≡ 0
unfolding pad
pad_whole s = ground (
  arith,
  length-append s (b'=' ∷ []),
  length-append (s ++ b'=' ∷ []) (b'=' ∷ []),
  length-append ((s ++ b'=' ∷ []) ++ b'=' ∷ []) (b'=' ∷ []),
)

replicate-snoc :
    (k : ℕ) (s : Text) → (s ++ b'=' ∷ []) ++ replicate k b'=' ≡ s ++ replicate (suc k) b'='
replicate-snoc k s = append_assoc s (b'=' ∷ []) (replicate k b'=')

pad-replicate :
    (f k : ℕ) (s : Text) → k ≤ f → k < 4 → (length s + k) % 4 ≡ 0 → pad f s ≡ s ++ replicate k b'='
unfolding pad
pad-replicate zero zero s h small e = sym (append-nil s)
pad-replicate zero (suc k) s h small e = absurd (omega arith)
pad-replicate (suc f) zero s h small e =
    rw ((==_iff (length s % 4) 0).1 (omega (arith, e)), pad) (sym (append-nil s))
pad-replicate (suc f) (suc k) s h small e = elim (Bool-cases (length s % 4 == 0)) [
  | inl full ↦ absurd (omega (arith, (==_iff (length s % 4) 0).0 full))
  | inr short ↦
      rw (short, pad)
        (pad-replicate f k (s ++ b'=' ∷ []) (omega arith) (omega arith)
            (omega (arith, length-append s (b'=' ∷ [])))
          ∙ replicate-snoc k s)
]

-- What the encoder does to the digits.
abbrev url_digits : Text → Text
url_digits s = replace_char b'/' b'_' (replace_char b'+' b'-' s)

encode-pads : (k : ℕ) → remove_char b'=' (url_digits (replicate k b'=')) ≡ []
unfolding remove_char replace_char
encode-pads zero = refl
encode-pads (suc k) = encode-pads k

encode-digits :
    (s : Text) (k : ℕ)
    → All IsDigit s
    → remove_char b'=' (url_digits (s ++ replicate k b'=')) ≡ url_digits s
unfolding remove_char replace_char
encode-digits [] k d = encode-pads k
encode-digits (c ∷ s) k (p, d) = ground (arith, p.not_pad, encode-digits s k d)

decode-digits :
    (s : Text) → All IsDigit s → replace_char b'_' b'/' (replace_char b'-' b'+' (url_digits s)) ≡ s
unfolding replace_char
decode-digits [] d = refl
decode-digits (c ∷ s) (p, d) = ground (arith, p.not_minus, p.not_underscore, decode-digits s d)

length-url_digits : (s : Text) → length (url_digits s) ≡ length s
unfolding replace_char
length-url_digits [] = refl
length-url_digits (c ∷ s) = ap suc (length-url_digits s)

url_digits-Without-dot : (s : Text) → All IsDigit s → Without b'.' (url_digits s)
unfolding replace_char
url_digits-Without-dot [] d = tt
url_digits-Without-dot (c ∷ s) (p, d) = (ground (arith, p.not_dot), url_digits-Without-dot s d)

module _ (c : Crypto) (bytes : Text) (format : IsBase64 (c.base64_encode bytes)) where
  open format use {body, pads, parts, digits, few, whole}

  encode-body : base64url_encode c bytes ≡ url_digits body
  unfolding base64url_encode
  encode-body = rw parts (encode-digits body pads digits)

  -- The encoded text has no dot, so it can be a part of a token.
  pub base64url_encode-Without-dot : Without b'.' (base64url_encode c bytes)
  base64url_encode-Without-dot = rw encode-body (url_digits-Without-dot body digits)

  -- The decoder hands Botan exactly the text that Botan's encoder has made, padding included.
  pub base64url_decode-encode :
      base64url_decode c (base64url_encode c bytes) ≡ c.base64_decode (c.base64_encode bytes)
  unfolding base64url_decode
  base64url_decode-encode =
      ap (base64url_decode c) encode-body
      ∙ ap (λ t. c.base64_decode (pad 3 t)) (decode-digits body digits)
      ∙ ap c.base64_decode (
          pad-replicate 3 pads body (omega (arith, few)) (omega (arith, few)) (
            omega (
              arith,
              whole,
              ap length parts,
              length-append body (replicate pads b'='),
              length-replicate {A = ℕ} pads b'=',
            ))
          ∙ sym parts)
