-- ===== src/Node/Bootstrap/RoundTrip.antt =====
-- That the text of bootstrap.conf, which getBootstrapConfig of internal/controller/node/configmap.go
-- prints, reads back as the settings.
use Prim.Native.Char.{Char, code}
use text.Mathlib.TextLemmas.{nil-append, append-nil, cons-append, append_assoc}
use nifi_operator.Common.{
  String, ◌<>◌, true, some, List, [], ◌∷◌, map, ◌≡◌, refl, sym, ◌∙◌, ap, ok, All, nat_eqb,
  if◌then◌else◌,
}
use nifi_operator.Common.Ordered.{sort_by_name}
use nifi_operator.Common.Settings.{free, free-cons, free-append, setting, setting-equals}
use nifi_operator.Api.{RoleGroupConfigSpec}
use nifi_operator.Node.Bootstrap.{bootstrap_settings, print_settings, get_bootstrap_config}

-- A character in front of the first line.
abbrev onto_first : Char → List String → List String
onto_first c [] = String.◌∷◌ c "" ∷ []
onto_first c (l ∷ ls) = String.◌∷◌ c l ∷ ls

-- The lines, each of which ends at a newline.
abbrev pub lines : String → List String
lines String.[] = []
lines (String.◌∷◌ c s) =
    let rest = lines s in if nat_eqb (code c) b'\n' then "" ∷ rest else onto_first c rest

abbrev pub parse_settings : String → List (String × String)
parse_settings text = map setting (lines text)

lines-line : (a s : String) → free b'\n' a ≡ true → lines (a <> "\n" <> s) ≡ a ∷ lines s
lines-line String.[] s h =
    ap lines (nil-append ("\n" <> s) ∙ cons-append "\n" "" s ∙ ap (String.◌∷◌ "\n") (nil-append s))
lines-line (String.◌∷◌ c a) s h =
    let (other, more) = free-cons b'\n' c a h in
    ap lines (cons-append c a ("\n" <> s)) ∙ rw other (ap (onto_first c) (lines-line a s more))

print_settings-append :
    (text : String) (xs : List (String × String))
    → print_settings text xs ≡ text <> print_settings "" xs
unfolding print_settings
print_settings-append text [] = sym (append-nil text)
print_settings-append text ((key, value) ∷ xs) =
    print_settings-append (text <> key <> "=" <> value <> "\n") xs
    ∙ append_assoc text (key <> "=" <> value <> "\n") (print_settings "" xs)
    ∙ ap (λ t. text <> t)
        (sym (
          print_settings-append ("" <> key <> "=" <> value <> "\n") xs
          ∙ ap (λ t. t <> print_settings "" xs) (nil-append (key <> "=" <> value <> "\n"))))

-- A key without an equals sign, and a line of its own.
abbrev IsSetting : String × String → Type 0
IsSetting (key, value) = (free b'=' key ≡ true) × (free b'\n' (key <> "=" <> value) ≡ true)

parse-print :
    (xs : List (String × String)) → All IsSetting xs → parse_settings (print_settings "" xs) ≡ xs
unfolding print_settings
parse-print [] h = refl
parse-print ((key, value) ∷ xs) ((plain, single), h) =
    let line = key <> "=" <> value in
    let rest = print_settings "" xs in
    let regroup : "" <> key <> "=" <> value <> "\n" ≡ line <> "\n" =
      nil-append (key <> "=" <> value <> "\n")
      ∙ sym (
          append_assoc key ("=" <> value) "\n"
          ∙ ap (λ t. key <> t) (append_assoc "=" value "\n")) in
    let split : lines (print_settings ("" <> key <> "=" <> value <> "\n") xs) ≡ line ∷ lines rest =
      ap lines (
        print_settings-append ("" <> key <> "=" <> value <> "\n") xs
        ∙ ap (λ t. t <> rest) regroup
        ∙ append_assoc line "\n" rest)
      ∙ lines-line line rest single in
    ap (map setting) split
    ∙ ap (λ (p : String × String). p ∷ map setting (lines rest)) (setting-equals key value plain)
    ∙ ap (λ (ps : List (String × String)). (key, value) ∷ ps) (parse-print xs h)

-- Where the timeout is one line: bootstrap.conf is printed, and its lines, each cut at its first equals
-- sign, read back as the settings, every one of them once, in the order of their names.
pub get_bootstrap_config-parse_settings :
    (r : RoleGroupConfigSpec)
    → free b'\n' r.graceful_shutdown_timeout ≡ true
    → (text : String) × (get_bootstrap_config (some (record { role_group_config = some r }))
        ≡ ok text)
      × (parse_settings text ≡ sort_by_name (bootstrap_settings r.graceful_shutdown_timeout))
unfolding get_bootstrap_config bootstrap_settings sort_by_name
get_bootstrap_config-parse_settings r single =
    let t = r.graceful_shutdown_timeout in
    (
      print_settings "" (sort_by_name (bootstrap_settings t)),
      refl,
      parse-print (sort_by_name (bootstrap_settings t)) (
        (refl, refl),
        (
          (
            refl,
            free-append b'\n' "graceful.shutdown.seconds" ("=" <> t) refl
                (free-append b'\n' "=" t refl single),
          ),
          ((refl, refl), ((refl, refl), ((refl, refl), ((refl, refl), tt)))),
        ),
      ),
    )
