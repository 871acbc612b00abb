-- ===== src/Tests/Tokens.antt =====
-- Tokens made and read with a simple codec: libs/jwt/JwtManager.cpp.
use management_sensors.Prelude.{
  ℕ, ◌+◌, ◌-◌, ◌*◌, ◌/◌, ◌%◌, ◌≡◌, refl, sym, Text, codes, text_eq, [], ◌∷◌, append-nil,
  remove_char, replace_char, length, All, none, some, ok, throw, std_exception, arith,
  if◌then◌else◌, leb,
}
use management_sensors.Json
use management_sensors.Json.{object}
use management_sensors.Jwt.{
  Crypto, JwtClaims, payload, jwt_header, pad, base64url_encode, base64url_decode, signing_input,
  generate, verify,
}
use management_sensors.Jwt.Base64url.{IsDigit, IsBase64, pad_whole, base64url_decode-encode}
use management_sensors.Jwt.Verify.{Accepted, verify-Accepted}
use management_sensors.Jwt.RoundTrip.{Codec, Sound, parsed_header, parsed_members, verify-generate}

-- Four letters for each byte, of which the first two name its halves.
unfoldable encode_bytes : Text → Text
encode_bytes [] = []
encode_bytes (c ∷ s) = (b'A' + c / 16 % 16) ∷ (b'A' + c % 16) ∷ b'A' ∷ b'A' ∷ encode_bytes s

unfoldable decode_bytes : Text → Text
decode_bytes (a ∷ b ∷ c ∷ d ∷ s) = ((a - b'A') * 16 + (b - b'A')) ∷ decode_bytes s
decode_bytes _ = []

letter-IsDigit : (c : ℕ) → IsDigit (b'A' + c % 16)
letter-IsDigit c = record {
  not_pad = λ e. omega arith;
  not_minus = λ e. omega arith;
  not_underscore = λ e. omega arith;
  not_dot = λ e. omega arith;
}

encode-digits : (s : Text) → All IsDigit (encode_bytes s)
unfolding encode_bytes
encode-digits [] = tt
encode-digits (c ∷ s) = (
  letter-IsDigit (c / 16),
  (letter-IsDigit c, (letter-IsDigit 0, (letter-IsDigit 0, encode-digits s))),
)

encode-whole : (s : Text) → length (encode_bytes s) % 4 ≡ 0
unfolding encode_bytes
encode-whole [] = refl
encode-whole (c ∷ s) = omega (arith, encode-whole s)

encode-IsBase64 : (s : Text) → IsBase64 (encode_bytes s)
encode-IsBase64 s = record {
  body = encode_bytes s;
  pads = 0;
  parts = sym (append-nil (encode_bytes s));
  digits = encode-digits s;
  few = omega arith;
  whole = encode-whole s;
}

-- A key pair whose signature of a message is the message.
abbrev toy_crypto : Crypto
toy_crypto = record {
  base64_encode = encode_bytes;
  base64_decode = λ s. ok (decode_bytes s);
  sign_message = λ m. m;
  verify_message = λ m s. text_eq m s;
}

abbrev payload_text : Text
payload_text = codes "{}"

abbrev subject : Text
subject = codes "admin"

-- A JSON library that knows the two texts of one token.
abbrev token_json : Json.Library
token_json = record {
  parse = λ t.
      if text_eq t jwt_header
      then ok (object parsed_header)
      else if text_eq t payload_text
      then ok (object (parsed_members (payload subject subject 3600 1000)))
      else throw (std_exception []);
  serialize = λ v. payload_text;
  wrong_kind = codes "kind";
  no_such_key = codes "key";
}

toy-Codec : (s : Text) → decode_bytes (encode_bytes s) ≡ s → Codec toy_crypto s
toy-Codec s e = record { format = encode-IsBase64 s; inverse = λ i. ok (e i) }

toy-Sound : Sound token_json toy_crypto subject subject 3600 1000
unfolding encode_bytes decode_bytes text_eq signing_input base64url_encode remove_char replace_char
toy-Sound = record {
  header_codec = toy-Codec jwt_header refl;
  payload_codec = toy-Codec payload_text refl;
  signature_codec = toy-Codec (signing_input token_json toy_crypto subject subject 3600 1000) refl;
  header_parsed = refl;
  payload_parsed = refl;
  key_pair = refl;
}

abbrev token : Text
token = generate token_json toy_crypto subject subject 3600 1000

abbrev admin_claims : JwtClaims
admin_claims = record { sub = subject; role = subject; iat = 1000; exp = 4600 }

verify-generate_example :
    verify token_json toy_crypto token 2000
    ≡ (if leb (1000 + 3600) 2000 then none else some admin_claims)
verify-generate_example =
    verify-generate token_json toy_crypto subject subject 3600 1000 toy-Sound 2000 (omega arith)

verify-Accepted_example : Accepted token_json toy_crypto token 2000 admin_claims
verify-Accepted_example =
    verify-Accepted token_json toy_crypto token 2000 admin_claims verify-generate_example

-- One byte in real base64, with two pad characters.
abbrev one_byte : Crypto
one_byte = record toy_crypto { base64_encode = λ s. codes "IA==" }

one_byte-IsBase64 : IsBase64 (one_byte.base64_encode (codes " "))
one_byte-IsBase64 = record {
  body = codes "IA";
  pads = 2;
  parts = refl;
  digits = (letter-IsDigit 8, (letter-IsDigit 0, tt));
  few = omega arith;
  whole = refl;
}

base64url_decode-encode_example :
    base64url_decode one_byte (base64url_encode one_byte (codes " "))
    ≡ one_byte.base64_decode (one_byte.base64_encode (codes " "))
base64url_decode-encode_example = base64url_decode-encode one_byte (codes " ") one_byte-IsBase64

pad_whole_example : length (pad 3 (codes "YWJjZA")) % 4 ≡ 0
pad_whole_example = pad_whole (codes "YWJjZA")

-- The encoder drops the padding.
encode_example : base64url_encode one_byte (codes " ") ≡ codes "IA"
unfolding base64url_encode remove_char replace_char
encode_example = refl
