-- ===== src/PubKey/Names.antt =====
-- Different public keys have different names in the graph.
use plot_thread.Prelude.{
  ℕ, ◌+◌, ◌*◌, ◌/◌, ◌%◌, ◌≡◌, ◌<◌, refl, some, [], ◌∷◌, arith, All, leb, ◌==◌, if◌then◌else◌, ◌-◌,
  sym, ap, ◌∙◌, false,
}
use plot_thread.Prelude.Bytes.{Bytes}
use plot_thread.PubKey.{base64_digit, encode_base64, pub_key_to_string}

abbrev pub IsByte : ℕ → Type 0
IsByte b = b < 256

-- Reading a digit, and four of them.
digit_value : ℕ → ℕ
digit_value c =
    if leb b'a' c
    then c - 71
    else if leb b'A' c
    then c - 65
    else if leb b'0' c
    then c + 4
    else if c == b'+'
    then 62
    else 63

digit_value-base64_digit : (d : ℕ) → d < 64 → digit_value (base64_digit d) ≡ d
unfolding digit_value base64_digit
digit_value-base64_digit d h = ground arith

base64_digit-ne : (d : ℕ) → d < 64 → (base64_digit d == b'=') ≡ false
unfolding base64_digit
base64_digit-ne d h = ground arith

decode_base64 : Bytes → Bytes
decode_base64 (p ∷ q ∷ r ∷ s ∷ rest) =
    let first = digit_value p * 4 + digit_value q / 16 in
    let second = digit_value q % 16 * 16 + digit_value r / 4 in
    if r == b'='
    then first ∷ []
    else if s == b'='
    then first ∷ second ∷ []
    else first ∷ second ∷ (digit_value r % 4 * 64 + digit_value s) ∷ decode_base64 rest
decode_base64 _ = []

decode_base64-encode_base64 : (xs : Bytes) → All IsByte xs → decode_base64 (encode_base64 xs) ≡ xs
unfolding decode_base64 encode_base64
decode_base64-encode_base64 [] h = refl
decode_base64-encode_base64 (a ∷ []) h =
    ground (arith, digit_value-base64_digit (a / 4), digit_value-base64_digit (a % 4 * 16))
decode_base64-encode_base64 (a ∷ b ∷ []) h = ground (
  arith,
  digit_value-base64_digit (a / 4),
  digit_value-base64_digit (a % 4 * 16 + b / 16),
  digit_value-base64_digit (b % 16 * 4),
  base64_digit-ne (b % 16 * 4),
)
decode_base64-encode_base64 (a ∷ b ∷ c ∷ rest) h = ground (
  arith,
  digit_value-base64_digit (a / 4),
  digit_value-base64_digit (a % 4 * 16 + b / 16),
  digit_value-base64_digit (b % 16 * 4 + c / 64),
  digit_value-base64_digit (c % 64),
  base64_digit-ne (b % 16 * 4 + c / 64),
  base64_digit-ne (c % 64),
  decode_base64-encode_base64 rest,
)

-- Two public keys of bytes that have the same name in the graph are the same key.
pub pub_key_to_string-injective :
    (j k : Bytes)
    → All IsByte j
    → All IsByte k
    → pub_key_to_string (some j) ≡ pub_key_to_string (some k)
    → j ≡ k
unfolding pub_key_to_string
pub_key_to_string-injective j k hj hk e =
    sym (decode_base64-encode_base64 j hj) ∙ ap decode_base64 e ∙ decode_base64-encode_base64 k hk
