-- ===== src/Security/Password.antt =====
-- The generated secrets: the random password of `SensitiveKeyBuilder.Build` in
-- internal/common/security/sensitive_key.go and of `AdminSecretBuilder.Build` in
-- oidc_admin_secret.go. Both read 16 random bytes, encode them and cut the text at 16. A text is the
-- list of its bytes here.
pub mod Encoding
pub mod Strength
use nifi_operator.Common.{
  ℕ, zero, suc, ◌+◌, ◌-◌, ◌*◌, ◌/◌, ◌%◌, List, [], ◌∷◌, ltb, nat_eqb, length, take, if◌then◌else◌,
}

-- The digit of `base64.StdEncoding` for six bits.
unfoldable pub sextet : ℕ → ℕ
sextet n =
    if ltb n 26
    then b'A' + n
    else if ltb n 52
    then b'a' + (n - 26)
    else if ltb n 62
    then b'0' + (n - 52)
    else if nat_eqb n 62
    then b'+'
    else b'/'

-- `EncodeToString` of `base64.StdEncoding`, with its padding.
unfoldable pub encode_to_string : List ℕ → List ℕ
encode_to_string [] = []
encode_to_string (a ∷ []) = sextet (a / 4) ∷ sextet (a % 4 * 16) ∷ b'=' ∷ b'=' ∷ []
encode_to_string (a ∷ b ∷ []) =
    sextet (a / 4) ∷ sextet (a % 4 * 16 + b / 16) ∷ sextet (b % 16 * 4) ∷ b'=' ∷ []
encode_to_string (a ∷ b ∷ c ∷ more) =
    sextet (a / 4)
    ∷ sextet (a % 4 * 16 + b / 16)
    ∷ sextet (b % 16 * 4 + c / 64)
    ∷ sextet (c % 64)
    ∷ encode_to_string more

abbrev pub random_length : ℕ
random_length = 16

-- The password for the bytes that `rand.Read` gives.
unfoldable pub generate_password : List ℕ → List ℕ
generate_password random_bytes =
    let password = encode_to_string random_bytes in
    if ltb 16 (length password) then take 16 password else password
