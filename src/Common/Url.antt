-- ===== src/Common/Url.antt =====
-- `URL.String` of Go's net/url for a URL with a scheme, a host and a path.
use Prim.Native.Nat.{ℕ, ◌+◌, ◌/◌, ◌%◌}
use Prim.Native.Char.{code}
use Prim.Native.String.{String, ◌++◌}
use mathlib.Core.Path.{◌≡◌, refl}
use mathlib.Core.Bool.{Bool, false, not, ◌&&◌, ◌||◌}
use mathlib.Core.List.{List, [], ◌∷◌}
use text.Mathlib.Text.{◌==◌}
use nifi_operator.Common.Tests.{if◌then◌else◌, nat_eqb, ltb}

-- The bytes of a code point in UTF-8.
utf8 : ℕ → List ℕ
utf8 c =
    if ltb c 0x80
    then c ∷ []
    else if ltb c 0x800
    then (0xc0 + c / 64) ∷ (0x80 + c % 64) ∷ []
    else if ltb c 0x10000
    then (0xe0 + c / 4096) ∷ (0x80 + c / 64 % 64) ∷ (0x80 + c % 64) ∷ []
    else (0xf0 + c / 262144) ∷ (0x80 + c / 4096 % 64) ∷ (0x80 + c / 64 % 64) ∷ (0x80 + c % 64) ∷ []

hex_digit : ℕ → String
hex_digit n =
    if nat_eqb n 15
    then "F"
    else if nat_eqb n 14
    then "E"
    else if nat_eqb n 13
    then "D"
    else if nat_eqb n 12
    then "C"
    else if nat_eqb n 11
    then "B"
    else if nat_eqb n 10
    then "A"
    else if nat_eqb n 9
    then "9"
    else if nat_eqb n 8
    then "8"
    else if nat_eqb n 7
    then "7"
    else if nat_eqb n 6
    then "6"
    else if nat_eqb n 5
    then "5"
    else if nat_eqb n 4
    then "4"
    else if nat_eqb n 3
    then "3"
    else if nat_eqb n 2
    then "2"
    else if nat_eqb n 1
    then "1"
    else "0"

percent : List ℕ → String
percent [] = ""
percent (b ∷ bs) = "%" ++ hex_digit (b / 16) ++ hex_digit (b % 16) ++ percent bs

one_of : List ℕ → ℕ → Bool
one_of [] c = false
one_of (x ∷ xs) c = nat_eqb x c || one_of xs c

between : ℕ → ℕ → ℕ → Bool
between lo hi c = not (ltb c lo) && not (ltb hi c)

is_unreserved : ℕ → Bool
is_unreserved c =
    between b'a' b'z' c
    || between b'A' b'Z' c
    || between b'0' b'9' c
    || one_of (b'-' ∷ b'_' ∷ b'.' ∷ b'~' ∷ []) c

-- The characters that `shouldEscape` leaves alone in a path, and in a host.
plain_in_path : ℕ → Bool
plain_in_path c =
    is_unreserved c || one_of (b'$' ∷ b'&' ∷ b'+' ∷ b',' ∷ b'/' ∷ b':' ∷ b';' ∷ b'=' ∷ b'@' ∷ []) c

plain_in_host : ℕ → Bool
plain_in_host c =
    is_unreserved c
    || one_of
        (b'!' ∷ b'$' ∷ b'&' ∷ 39 ∷ b'(' ∷ b')' ∷ b'*' ∷ b'+' ∷ b',' ∷ b';' ∷ b'=' ∷ b':' ∷ b'['
          ∷ b']' ∷ b'<' ∷ b'>' ∷ 34 ∷ [])
        c

escape : (ℕ → Bool) → String → String
escape plain String.[] = ""
escape plain (String.◌∷◌ c s) =
    (if plain (code c) then String.◌∷◌ c "" else percent (utf8 (code c))) ++ escape plain s

escaped_path : String → String
escaped_path p = if p == "*" then "*" else escape plain_in_path p

begins_with_slash : String → Bool
begins_with_slash String.[] = false
begins_with_slash (String.◌∷◌ c s) = nat_eqb (code c) b'/'

unfoldable pub url_string : String → String → String → String
unfolding escape escaped_path begins_with_slash percent hex_digit utf8 one_of between is_unreserved
    plain_in_path plain_in_host
url_string scheme host path =
    let slashes = if host == "" && path == "" then "" else "//" in
    let path' = escaped_path path in
    let gap = if begins_with_slash path' || path' == "" || host == "" then "" else "/" in
    scheme ++ ":" ++ slashes ++ escape plain_in_host host ++ gap ++ path'

url_tests :
    (url_string "http" "keycloak:8080" "/realms/a b" ≡ "http://keycloak:8080/realms/a%20b")
    × (url_string "http" "h" "realms/é" ≡ "http://h/realms/%C3%A9")
    × (url_string "http" "h" "" ≡ "http://h")
unfolding url_string
url_tests = (refl, refl, refl)
