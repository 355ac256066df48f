-- ===== src/GitSync/Args.antt =====
-- The command line of git-sync, buildGitSyncArgs of internal/common/git_sync.go, against a table of
-- flags and values.
use text.Mathlib.TextLemmas
use text.Mathlib.TextLemmas.{cons≢nil}
use mathlib.Core.Bool.{or_assoc, or-false}
use mathlib.Core.List.{append-nil, append_assoc, map-append}
use nifi_operator.Common.{
  String, ◌<>◌, Bool, true, false, not, List, [], ◌∷◌, ◌++◌, map, ◌≡◌, refl, sym, ap, ◌∙◌,
  filter_by, contains, is_zero, ℤ, pos, negsuc, zero, suc, arith, eq_iff, ◌==◌, ==-cons,
  if◌then◌else◌, Bool-cases, inl, inr,
}
use nifi_operator.Common.Decimal.{print_int, print}
use nifi_operator.Api.{GitSyncSpec}
use nifi_operator.GitSync.{is_reserved, add_config, build_git_sync_args, print_bool}

abbrev pub setting : String × String → String
setting (k, v) = k <> "=" <> v

-- The keys of the user that are passed over.
abbrev pub reserved_keys : List String
reserved_keys =
    "--git-config" ∷ "--repo" ∷ "--ref" ∷ "--depth" ∷ "--period" ∷ "--link" ∷ "--root"
    ∷ "--one-time=true" ∷ "--one-time=false" ∷ []

abbrev pub is_user_key : String × String → Bool
is_user_key (k, v) = not (contains reserved_keys k)

eq_sym : (a b : String) → (a == b) ≡ (b == a)
eq_sym a b = ground (arith, eq_iff a b, eq_iff b a)

is_reserved-contains : (k : String) → is_reserved k ≡ contains reserved_keys k
is_reserved-contains k = simp (
  or_assoc,
  or-false,
  eq_sym "--git-config" k,
  eq_sym "--repo" k,
  eq_sym "--ref" k,
  eq_sym "--depth" k,
  eq_sym "--period" k,
  eq_sym "--link" k,
  eq_sym "--root" k,
  eq_sym "--one-time=true" k,
  eq_sym "--one-time=false" k,
)

add_config_lem :
    (args : List String) (config : List (String × String))
    → add_config args config ≡ args ++ map setting (filter_by is_user_key config)
unfolding add_config
add_config_lem args [] = sym (append-nil args)
add_config_lem args ((k, v) ∷ config) = elim (Bool-cases (contains reserved_keys k)) [
  | inl e ↦
      ap (λ (b : Bool). add_config (if b then args else args ++ (k <> "=" <> v) ∷ []) config)
        (is_reserved-contains k ∙ e)
      ∙ add_config_lem args config
      ∙ ap
          (λ (b : Bool).
            args
            ++ map setting (
                if not b
                then (k, v) ∷ filter_by is_user_key config
                else filter_by is_user_key config))
          (sym e)
  | inr e ↦
      ap (λ (b : Bool). add_config (if b then args else args ++ (k <> "=" <> v) ∷ []) config)
        (is_reserved-contains k ∙ e)
      ∙ add_config_lem (args ++ (k <> "=" <> v) ∷ []) config
      ∙ append_assoc args ((k <> "=" <> v) ∷ []) _
      ∙ ap
          (λ (b : Bool).
            args
            ++ map setting (
                if not b
                then (k, v) ∷ filter_by is_user_key config
                else filter_by is_user_key config))
          (sym e)
]

-- A text, and another one where it is empty.
abbrev pub text_or : String → String → String
text_or d String.[] = d
text_or d (String.◌∷◌ c s) = String.◌∷◌ c s

-- The depth, and 1 where it is 0.
abbrev pub depth_text : ℤ → String
depth_text (pos zero) = "1"
depth_text (pos (suc n)) = print_int (pos (suc n))
depth_text (negsuc n) = print_int (negsuc n)

abbrev pub bool_text : Bool → String
bool_text true = "true"
bool_text false = "false"

-- What the operator itself sets.
abbrev pub own_settings : GitSyncSpec → Bool → List (String × String)
own_settings gs one_time =
    ("--repo", gs.repo)
    ∷ ("--ref", text_or "main" gs.branch)
    ∷ ("--depth", depth_text gs.depth)
    ∷ ("--period", text_or "20s" gs.wait)
    ∷ ("--link", "current")
    ∷ ("--root", "/tmp/git")
    ∷ ("--one-time", bool_text one_time)
    ∷ ("--git-config", "safe.directory:/tmp/git")
    ∷ []

text_or_lem : (d s : String) → (if s == "" then d else s) ≡ text_or d s
text_or_lem d String.[] = refl
text_or_lem d (String.◌∷◌ c s) = rw (==-cons c s) refl

depth_text_lem : (d : ℤ) → print_int (if is_zero d then pos 1 else d) ≡ depth_text d
unfolding print_int print
depth_text_lem (pos zero) = refl
depth_text_lem (pos (suc n)) = refl
depth_text_lem (negsuc n) = refl

bool_text_lem : (b : Bool) → print_bool b ≡ bool_text b
bool_text_lem true = refl
bool_text_lem false = refl

-- The arguments that the code builds, before those of the user.
abbrev own_args : GitSyncSpec → Bool → List String
own_args gs one_time =
    ("--repo=" <> gs.repo)
    ∷ ("--ref=" <> (if gs.branch == "" then "main" else gs.branch))
    ∷ ("--depth=" <> print_int (if is_zero gs.depth then pos 1 else gs.depth))
    ∷ ("--period=" <> (if gs.wait == "" then "20s" else gs.wait))
    ∷ "--link=current"
    ∷ "--root=/tmp/git"
    ∷ ("--one-time=" <> print_bool one_time)
    ∷ "--git-config=safe.directory:/tmp/git"
    ∷ []

own_args-setting :
    (gs : GitSyncSpec) (one_time : Bool)
    → own_args gs one_time ≡ map setting (own_settings gs one_time)
own_args-setting gs one_time = simp (
  text_or_lem "main" gs.branch,
  text_or_lem "20s" gs.wait,
  depth_text_lem gs.depth,
  bool_text_lem one_time,
  TextLemmas.append_assoc "--repo" "=" gs.repo,
  TextLemmas.append_assoc "--ref" "=" (text_or "main" gs.branch),
  TextLemmas.append_assoc "--depth" "=" (depth_text gs.depth),
  TextLemmas.append_assoc "--period" "=" (text_or "20s" gs.wait),
  TextLemmas.append_assoc "--one-time" "=" (bool_text one_time),
)

-- All that git-sync is told: what the operator sets, and behind it the user's settings that are not
-- passed over.
abbrev pub settings_of : GitSyncSpec → Bool → List (String × String)
settings_of gs one_time = own_settings gs one_time ++ filter_by is_user_key gs.git_sync_config

-- The arguments of git-sync are a flag, an equals sign and a value for each of the operator's eight
-- settings, with an empty branch, depth 0 and an empty wait replaced by "main", 1 and "20s" and with
-- one-time as it is asked for, and behind them for each of the user's settings, in the order in which
-- the map is met, whose key is none of the nine: --git-config, --repo, --ref, --depth, --period,
-- --link, --root, --one-time=true and --one-time=false.
pub build_git_sync_args_lem :
    (gs : GitSyncSpec) (one_time : Bool)
    → build_git_sync_args gs one_time ≡ map setting (settings_of gs one_time)
unfolding build_git_sync_args
build_git_sync_args_lem gs one_time =
    let user = filter_by is_user_key gs.git_sync_config in
    add_config_lem (own_args gs one_time) gs.git_sync_config
    ∙ ap (λ (l : List String). l ++ map setting user) (own_args-setting gs one_time)
    ∙ sym (map-append setting (own_settings gs one_time) user)
