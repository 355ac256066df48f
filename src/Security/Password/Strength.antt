-- ===== src/Security/Password/Strength.antt =====
-- What the password keeps of the random bytes, for the `Build` methods of
-- internal/common/security/sensitive_key.go and oidc_admin_secret.go.
use nifi_operator.Common.{
  ℕ, zero, suc, ◌*◌, ◌<◌, ◌≤◌, List, [], ◌∷◌, ◌≡◌, ◌≢◌, ◌↔◌, refl, sym, ap, ◌∙◌, arith, length,
  take, All,
}
use nifi_operator.Security.Password.{encode_to_string, generate_password, random_length}
use nifi_operator.Security.Password.Encoding.{
  decode, decode-encode_to_string, take-encode_to_string, length-encode_to_string,
  encode_to_string_unpadded,
}

length-take : {A : Type 0} (n : ℕ) (xs : List A) → n ≤ length xs → length (take n xs) ≡ n
length-take zero xs h = refl
length-take (suc n) [] h = absurd (omega arith)
length-take (suc n) (x ∷ xs) h = omega (arith, length-take n xs (omega arith))

All-take : (P : ℕ → Type 0) (n : ℕ) (xs : List ℕ) → All P xs → All P (take n xs)
All-take P zero xs h = tt
All-take P (suc n) [] h = tt
All-take P (suc n) (x ∷ xs) (p, h) = (p, All-take P n xs h)

length-encode_to_string-ge : (bs : List ℕ) → 4 * length bs ≤ 3 * length (encode_to_string bs)
unfolding encode_to_string
length-encode_to_string-ge [] = omega arith
length-encode_to_string-ge (a ∷ []) = omega arith
length-encode_to_string-ge (a ∷ b ∷ []) = omega arith
length-encode_to_string-ge (a ∷ b ∷ c ∷ bs) = omega (arith, length-encode_to_string-ge bs)

-- The password for 16 bytes is the base64 text of the first 12.
generate_password_lem :
    (bs : List ℕ) → length bs ≡ random_length → generate_password bs ≡ encode_to_string (take 12 bs)
unfolding generate_password
generate_password_lem bs h =
    ground (arith, length-encode_to_string-ge bs, take-encode_to_string 4 bs (omega arith))

-- For any 16 random bytes the password has exactly 16 characters, and none is the padding sign.
pub length-generate_password :
    (bs : List ℕ)
    → length bs ≡ random_length
    → (length (generate_password bs) ≡ 16) × All (λ c. c ≢ b'=') (generate_password bs)
length-generate_password bs h =
    let twelve = length-take 12 bs (omega arith) in
    rw (generate_password_lem bs h) (
      length-encode_to_string 4 (take 12 bs) twelve,
      encode_to_string_unpadded 4 (take 12 bs) twelve,
    )

-- Two runs with 16 random bytes each generate the same password exactly if their first 12 bytes
-- agree: the password keeps all of these 96 bits, and nothing of the last 4 bytes.
pub generate_password-eq_iff :
    (bs cs : List ℕ)
    → length bs ≡ random_length
    → length cs ≡ random_length
    → All (λ b. b < 256) bs
    → All (λ b. b < 256) cs
    → (generate_password bs ≡ generate_password cs) ↔ (take 12 bs ≡ take 12 cs)
generate_password-eq_iff bs cs h k hb hc =
    let back = λ (xs : List ℕ) (l : length xs ≡ random_length) (b : All (λ b. b < 256) xs).
      decode-encode_to_string 4 (take 12 xs) (length-take 12 xs (omega arith))
        (All-take _ 12 xs b) in
    (
      λ e.
          sym (back bs h hb)
          ∙ ap decode (sym (generate_password_lem bs h) ∙ e ∙ generate_password_lem cs k)
          ∙ back cs k hc,
      λ e. generate_password_lem bs h ∙ ap encode_to_string e ∙ sym (generate_password_lem cs k),
    )
