-- ===== src/Jwt/Verify.antt =====
-- What `JwtManager::verify` accepts.
use management_sensors.Prelude.{
  ℕ, suc, ◌+◌, ◌-◌, ◌<◌, ◌≡◌, refl, sym, ap, ◌∙◌, inl, inr, Text, text_eq, text_eq_sound, find_char,
  find_char_from, find_char_split, find_char-append, substr, take, drop, length, Without, ◌∷◌, ◌++◌,
  Option, none, some, Outcome, ok, throw, arith, true, Bool-cases, Option-cases, ◌>>=◌,
  take-length_append, drop-suc-length_append, drop-drop,
}
use mathlib.Core.Option
use management_sensors.Json
use management_sensors.Jwt.{
  Crypto, JwtClaims, jwt_algo, base64url_decode, header_alg, read_claims, check_parts, check_split,
  caught, split_token, verify,
}

bind-ok {ℓ κ} :
    {A : Type ℓ} {B : Type κ} {b : B} (first : Outcome A) (next : A → Outcome B)
    → (first >>= next) ≡ ok b
    → (a : A) × (first ≡ ok a) × (next a ≡ ok b)
bind-ok (throw e) next h = cc
bind-ok (ok a) next h = (a, refl, h)

-- Where a text is cut at a dot after `h`, the rest starts one place further.
drop-dot : (h t : Text) → drop (length h + 1) (h ++ b'.' ∷ t) ≡ t
drop-dot h t =
    let e : length h + 1 ≡ suc (length h) = omega arith in rw e (drop-suc-length_append h b'.' t)

find_second :
    (h p s : Text)
    → Without b'.' p
    → find_char_from b'.' (h ++ b'.' ∷ (p ++ b'.' ∷ s)) (length h + 1)
      ≡ some (length h + 1 + length p)
unfolding find_char_from
find_second h p s dp =
    rw (drop-dot h (p ++ b'.' ∷ s))
      (ap (Option.map (λ i. length h + 1 + i)) (find_char-append b'.' p s dp))

drop_two : (h p s : Text) → drop (length h + 1 + length p + 1) (h ++ b'.' ∷ (p ++ b'.' ∷ s)) ≡ s
drop_two h p s =
    let e : length h + 1 + length p + 1 ≡ length h + 1 + (length p + 1) = omega arith in
    rw e (
      sym (drop-drop (length h + 1) (length p + 1) (h ++ b'.' ∷ (p ++ b'.' ∷ s)))
      ∙ ap (drop (length p + 1)) (drop-dot h (p ++ b'.' ∷ s))
      ∙ drop-dot p s)

substr_two :
    (h p s : Text)
    → substr (h ++ b'.' ∷ (p ++ b'.' ∷ s)) (length h + 1) (length h + 1 + length p - (length h) - 1)
      ≡ p
substr_two h p s =
    let e : length h + 1 + length p - (length h) - 1 ≡ length p = omega arith in
    rw (e, drop-dot h (p ++ b'.' ∷ s)) (take-length_append p (b'.' ∷ s))

-- A token of three parts, of which the first two hold no dot, is cut into these parts.
pub split_token-dots :
    (h p s : Text)
    → Without b'.' h
    → Without b'.' p
    → split_token (h ++ b'.' ∷ (p ++ b'.' ∷ s)) ≡ some (h, p, s)
unfolding split_token
split_token-dots h p s dh dp =
    rw (find_char-append b'.' h (p ++ b'.' ∷ s) dh, split_token)
      (rw (find_second h p s dp, split_token)
        (cc (drop_two h p s, substr_two h p s, take-length_append h (b'.' ∷ (p ++ b'.' ∷ s)))))

-- Cutting is sound: the parts make up the token, and the first two hold no dot.
abbrev pub Cut : Text → Text → Text → Text → Type 0
Cut token h p s = (token ≡ h ++ b'.' ∷ (p ++ b'.' ∷ s)) × Without b'.' h × Without b'.' p

Cut-at :
    (token : Text) (d i : ℕ)
    → find_char b'.' token ≡ some d
    → find_char b'.' (drop (suc d) token) ≡ some i
    → Cut token (take d token) (take i (drop (suc d) token)) (drop (suc i) (drop (suc d) token))
Cut-at token d i e₁ e₂ =
    let (dh, q) = find_char_split b'.' token d e₁ in
    let (dp, r) = find_char_split b'.' (drop (suc d) token) i e₂ in
    (q ∙ ap (λ t. take d token ++ b'.' ∷ t) r, dh, dp)

split_token_at :
    (token : Text) (d i : ℕ)
    → find_char b'.' token ≡ some d
    → find_char b'.' (drop (suc d) token) ≡ some i
    → split_token token
      ≡ some (take d token, take i (drop (suc d) token), drop (suc i) (drop (suc d) token))
unfolding split_token find_char_from
split_token_at token d i e₁ e₂ =
    let one : d + 1 ≡ suc d = omega arith in
    let two : d + 1 + i - d - 1 ≡ i = omega arith in
    let three : d + 1 + i + 1 ≡ suc d + suc i = omega arith in
    let second : find_char b'.' (drop (d + 1) token) ≡ some i = rw one e₂ in
    rw (e₁, split_token)
      (rw (second, split_token) (rw (two, three, one, ← drop-drop (suc d) (suc i) token)))

split_token-none :
    (token : Text) (d : ℕ)
    → find_char b'.' token ≡ some d
    → find_char b'.' (drop (suc d) token) ≡ none
    → split_token token ≡ none
unfolding split_token find_char_from
split_token-none token d e₁ e₂ =
    let one : d + 1 ≡ suc d = omega arith in rw (e₁, split_token) (rw one (rw (e₂, split_token)))

split_token_no_dot : (token : Text) → find_char b'.' token ≡ none → split_token token ≡ none
unfolding split_token
split_token_no_dot token e₁ = rw (e₁, split_token)

split_token-Cut : (token h p s : Text) → split_token token ≡ some (h, p, s) → Cut token h p s
split_token-Cut token h p s e = elim (Option-cases (find_char b'.' token)) [
  | inl no_dot ↦ absurd (cc (split_token_no_dot token no_dot))
  | inr (d, e₁) ↦ elim (Option-cases (find_char b'.' (drop (suc d) token))) [
    | inl no_dot ↦ absurd (cc (split_token-none token d e₁ no_dot))
    | inr (i, e₂) ↦
        let same : ◌≡◌ {A = Option (Text × Text × Text)}
            (some (take d token, take i (drop (suc d) token), drop (suc i) (drop (suc d) token)))
            (some (h, p, s)) =
          sym (split_token_at token d i e₁ e₂) ∙ e in
        let eh : take d token ≡ h = cc in
        let ep : take i (drop (suc d) token) ≡ p = cc in
        let es : drop (suc i) (drop (suc d) token) ≡ s = cc in
        rw eh at (rw ep at (rw es at (Cut-at token d i e₁ e₂)))
  ]
]

-- The parts of an accepted token, and what `verify` has checked of them.
pub record Accepted (lib : Json.Library) (c : Crypto) (token : Text) (now : ℕ) (claims : JwtClaims)
    : Type 0 where
  pub header : Text
  pub payload : Text
  pub signature : Text
  pub signature_bytes : Text
  pub parts : token ≡ header ++ (b'.' ∷ (payload ++ (b'.' ∷ signature)))
  pub header_plain : Without b'.' header
  pub payload_plain : Without b'.' payload
  pub algorithm : header_alg lib c header ≡ ok jwt_algo
  pub signature_read : base64url_decode c signature ≡ ok signature_bytes
  pub signed : c.verify_message (header ++ (b'.' ∷ payload)) signature_bytes ≡ true
  pub claims_read : read_claims lib c payload ≡ ok claims
  pub unexpired : now < claims.exp

check_parts-Accepted :
    (lib : Json.Library) (c : Crypto) (token h p s : Text) (now : ℕ) (claims : JwtClaims)
    → Cut token h p s
    → check_parts lib c h p s now ≡ ok (some claims)
    → Accepted lib c token now claims
unfolding check_parts
check_parts-Accepted lib c token h p s now claims cut e =
    let (alg, e₁, r₁) = bind-ok (header_alg lib c h) _ e in
    elim (Bool-cases (text_eq alg jwt_algo)) [
      | inr other ↦ absurd (ground (arith, other, r₁))
      | inl es384 ↦
          let (sig, e₂, r₂) = bind-ok (base64url_decode c s) _ (rw es384 at r₁) in
          elim (Bool-cases (c.verify_message (h ++ b'.' ∷ p) sig)) [
            | inr forged ↦ absurd (ground (arith, forged, r₂))
            | inl signed ↦
                let (found, e₃, r₃) = bind-ok (read_claims lib c p) _ (rw signed at r₂) in
                let same : found ≡ claims = ground (arith, r₃) in
                record {
                  header = h;
                  payload = p;
                  signature = s;
                  signature_bytes = sig;
                  parts = cut.0;
                  header_plain = cut.1;
                  payload_plain = cut.2;
                  algorithm = e₁ ∙ ap ok (text_eq_sound alg jwt_algo es384);
                  signature_read = e₂;
                  signed = signed;
                  claims_read = rw same at e₃;
                  unexpired = ground (arith, r₃);
                }
          ]
    ]

caught-some :
    (o : Outcome (Option JwtClaims)) (claims : JwtClaims)
    → caught o ≡ some claims
    → o ≡ ok (some claims)
unfolding caught
caught-some (ok r) claims e = ap ok e
caught-some (throw x) claims e = cc

-- A token that `verify` accepts, with the claims that it returns, is three parts that the first two
-- dots separate: the header names ES384, the verifier has accepted the signature over exactly
-- `header.payload`, the claims are those of the payload, and they have not expired.
pub verify-Accepted :
    (lib : Json.Library) (c : Crypto) (token : Text) (now : ℕ) (claims : JwtClaims)
    → verify lib c token now ≡ some claims
    → Accepted lib c token now claims
unfolding verify check_split
verify-Accepted lib c token now claims e = elim (Option-cases (split_token token)) [
  | inl uncut ↦ absurd (ground (arith, uncut))
  | inr ((h, p, s), cut) ↦
      check_parts-Accepted lib c token h p s now claims (split_token-Cut token h p s cut)
        (caught-some (check_parts lib c h p s now) claims (ground (arith, cut)))
]
