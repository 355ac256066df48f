-- ===== src/GitSync/Reserved.antt =====
-- That the user's configuration of git-sync in internal/common/git_sync.go cannot replace what the
-- operator sets.
use mathlib.Core.List.{append-nil, map-append}
use nifi_operator.Common.{
  String, Bool, true, List, [], ◌∷◌, ◌++◌, map, ◌≡◌, refl, sym, ap, ◌∙◌, filter_by, contains, ◌==◌,
  eq_iff, if◌then◌else◌, Bool-cases, inl, inr, All,
}
use nifi_operator.Common.Settings
use nifi_operator.Common.Settings.{free, setting-equals}
use nifi_operator.Api.{GitSyncSpec}
use nifi_operator.GitSync.{build_git_sync_args}
use nifi_operator.GitSync.Args.{
  setting, reserved_keys, is_user_key, own_settings, build_git_sync_args_lem,
}

-- The values that arguments give to a flag, each argument cut at its first equals sign.
abbrev pub given : String → List String → List String
given flag [] = []
given flag (arg ∷ args) =
    let rest = given flag args in
    if (Settings.setting arg).0 == flag then (Settings.setting arg).1 ∷ rest else rest

given-append :
    (flag : String) (xs ys : List String) → given flag (xs ++ ys) ≡ given flag xs ++ given flag ys
given-append flag [] ys = refl
given-append flag (x ∷ xs) ys = elim (Bool-cases ((Settings.setting x).0 == flag)) [
  | inl e ↦ rw e (ap (λ (l : List String). (Settings.setting x).1 ∷ l) (given-append flag xs ys))
  | inr e ↦ rw e (given-append flag xs ys)
]

abbrev pub values_of : String → List (String × String) → List String
values_of flag [] = []
values_of flag ((k, v) ∷ more) =
    let rest = values_of flag more in if k == flag then v ∷ rest else rest

-- Arguments that are each a key without an equals sign, one, and a value.
given-values_of :
    (flag : String) (xs : List (String × String))
    → All (λ (x : String × String). free b'=' x.0 ≡ true) xs
    → given flag (map setting xs) ≡ values_of flag xs
given-values_of flag [] h = refl
given-values_of flag ((k, v) ∷ xs) (plain, h) =
    ap
      (λ (p : String × String).
        if p.0 == flag then p.1 ∷ given flag (map setting xs) else given flag (map setting xs))
      (setting-equals k v plain)
    ∙ ap (λ (rest : List String). if k == flag then v ∷ rest else rest) (given-values_of flag xs h)

unreserved :
    (flag : String) (config : List (String × String))
    → contains reserved_keys flag ≡ true
    → values_of flag (filter_by is_user_key config) ≡ []
unreserved flag [] h = refl
unreserved flag ((k, v) ∷ config) h = elim (Bool-cases (contains reserved_keys k)) [
  | inl e ↦ rw e (unreserved flag config h)
  | inr e ↦ elim (Bool-cases (k == flag)) [
    | inl same ↦ cc (sym e ∙ ap (contains reserved_keys) ((eq_iff k flag).0 same) ∙ h)
    | inr other ↦ rw (e, other) (unreserved flag config h)
  ]
]

All-filter_by :
    (P : String × String → Type 0) (p : String × String → Bool) (xs : List (String × String))
    → All P xs
    → All P (filter_by p xs)
All-filter_by P p [] h = h
All-filter_by P p (x ∷ xs) (h, hs) = elim (Bool-cases (p x)) [
  | inl e ↦ rw e (h, All-filter_by P p xs hs)
  | inr e ↦ rw e (All-filter_by P p xs hs)
]

-- Where no key of the user has an equals sign: for each flag that the code reserves, the command line
-- gives exactly the values that the operator sets, whatever the user's configuration holds and in
-- whatever order its entries are met.
pub build_git_sync_args-given :
    (gs : GitSyncSpec) (one_time : Bool) (flag : String)
    → All (λ (x : String × String). free b'=' x.0 ≡ true) gs.git_sync_config
    → contains reserved_keys flag ≡ true
    → given flag (build_git_sync_args gs one_time) ≡ values_of flag (own_settings gs one_time)
build_git_sync_args-given gs one_time flag plain reserved =
    let user = filter_by is_user_key gs.git_sync_config in
    let own = own_settings gs one_time in
    ap (given flag) (build_git_sync_args_lem gs one_time ∙ map-append setting own user)
    ∙ given-append flag (map setting own) (map setting user)
    ∙ ap (λ (l : List String). given flag (map setting own) ++ l)
        (given-values_of flag user (All-filter_by _ is_user_key gs.git_sync_config plain)
          ∙ unreserved flag gs.git_sync_config reserved)
    ∙ append-nil _
    ∙ given-values_of flag own (refl, (refl, (refl, (refl, (refl, (refl, (refl, (refl, tt))))))))
