-- ===== src/Security/Password/Encoding.antt =====
-- The base64 text of whole groups of three bytes, and how it is read back.
use nifi_operator.Common.{
  ℕ, zero, suc, ◌+◌, ◌-◌, ◌*◌, ◌/◌, ◌%◌, ◌<◌, ◌≤◌, List, [], ◌∷◌, ◌≡◌, ◌≢◌, refl, arith, ltb,
  nat_eqb, length, take, All, if◌then◌else◌,
}
use nifi_operator.Security.Password.{sextet, encode_to_string}

-- The value of a digit.
sextet_value : ℕ → ℕ
sextet_value c =
    if nat_eqb c b'+'
    then 62
    else if nat_eqb c b'/'
    then 63
    else if ltb c b'A'
    then c + 52 - b'0'
    else if ltb c b'a'
    then c - b'A'
    else c + 26 - b'a'

sextet_value-sextet : (n : ℕ) → n < 64 → sextet_value (sextet n) ≡ n
unfolding sextet sextet_value
sextet_value-sextet n h = ground arith

pub sextet-ne-padding : (n : ℕ) → sextet n ≢ b'='
unfolding sextet
sextet-ne-padding n = ground arith

-- The bytes of a base64 text of whole groups.
pub decode : List ℕ → List ℕ
decode (w ∷ x ∷ y ∷ z ∷ more) =
    (sextet_value w * 4 + sextet_value x / 16)
    ∷ (sextet_value x % 16 * 16 + sextet_value y / 4)
    ∷ (sextet_value y % 4 * 64 + sextet_value z)
    ∷ decode more
decode _ = []

group_bytes :
    (a b c : ℕ)
    → a < 256
    → b < 256
    → c < 256
    → (a / 4 * 4 + (a % 4 * 16 + b / 16) / 16 ≡ a)
      × ((a % 4 * 16 + b / 16) % 16 * 16 + (b % 16 * 4 + c / 64) / 4 ≡ b)
      × ((b % 16 * 4 + c / 64) % 4 * 64 + c % 64 ≡ c)
group_bytes a b c ha hb hc = omega arith

pub decode-encode_to_string :
    (k : ℕ) (bs : List ℕ)
    → length bs ≡ 3 * k
    → All (λ b. b < 256) bs
    → decode (encode_to_string bs) ≡ bs
unfolding decode encode_to_string
decode-encode_to_string k [] h _ = refl
decode-encode_to_string k (a ∷ []) h _ = absurd (omega arith)
decode-encode_to_string k (a ∷ b ∷ []) h _ = absurd (omega arith)
decode-encode_to_string k (a ∷ b ∷ c ∷ bs) h (ha, (hb, (hc, hs))) =
    let parts = group_bytes a b c ha hb hc in
    ground (
      arith,
      sextet_value-sextet (a / 4) (omega arith),
      sextet_value-sextet (a % 4 * 16 + b / 16) (omega arith),
      sextet_value-sextet (b % 16 * 4 + c / 64) (omega arith),
      sextet_value-sextet (c % 64) (omega arith),
      parts.0,
      parts.1,
      parts.2,
      decode-encode_to_string (k - 1) bs (omega arith) hs,
    )

four_more : (k : ℕ) → 4 * suc k ≡ suc (suc (suc (suc (4 * k))))
four_more k = omega arith

three_more : (k : ℕ) → 3 * suc k ≡ suc (suc (suc (3 * k)))
three_more k = omega arith

-- The first groups of the text are the text of the first groups.
pub take-encode_to_string :
    (k : ℕ) (bs : List ℕ)
    → 3 * k ≤ length bs
    → take (4 * k) (encode_to_string bs) ≡ encode_to_string (take (3 * k) bs)
unfolding encode_to_string
take-encode_to_string zero bs h = refl
take-encode_to_string (suc k) [] h = absurd (omega arith)
take-encode_to_string (suc k) (a ∷ []) h = absurd (omega arith)
take-encode_to_string (suc k) (a ∷ b ∷ []) h = absurd (omega arith)
take-encode_to_string (suc k) (a ∷ b ∷ c ∷ bs) h =
    rw (four_more k, three_more k, take-encode_to_string k bs (omega arith))

pub length-encode_to_string :
    (k : ℕ) (bs : List ℕ) → length bs ≡ 3 * k → length (encode_to_string bs) ≡ 4 * k
unfolding encode_to_string
length-encode_to_string k [] h = omega arith
length-encode_to_string k (a ∷ []) h = absurd (omega arith)
length-encode_to_string k (a ∷ b ∷ []) h = absurd (omega arith)
length-encode_to_string k (a ∷ b ∷ c ∷ bs) h =
    omega (arith, length-encode_to_string (k - 1) bs (omega arith))

-- No group of three bytes is padded.
pub encode_to_string_unpadded :
    (k : ℕ) (bs : List ℕ) → length bs ≡ 3 * k → All (λ c. c ≢ b'=') (encode_to_string bs)
unfolding encode_to_string
encode_to_string_unpadded k [] h = tt
encode_to_string_unpadded k (a ∷ []) h = absurd (omega arith)
encode_to_string_unpadded k (a ∷ b ∷ []) h = absurd (omega arith)
encode_to_string_unpadded k (a ∷ b ∷ c ∷ bs) h = (
  sextet-ne-padding _,
  (
    sextet-ne-padding _,
    (
      sextet-ne-padding _,
      (sextet-ne-padding _, encode_to_string_unpadded (k - 1) bs (omega arith)),
    ),
  ),
)
