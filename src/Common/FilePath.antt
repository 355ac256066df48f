-- ===== src/Common/FilePath.antt =====
-- `path.Join` of Go's standard library: the elements that are not empty are joined by slashes, and
-- the result is cleaned of empty parts, of "." and of "..".
use Prim.Native.Char.{code}
use Prim.Native.String.{String, ◌++◌}
use mathlib.Core.Path.{◌≡◌, refl}
use mathlib.Core.Bool.{Bool, true, false, ◌&&◌, ◌||◌}
use mathlib.Core.List.{List, [], ◌∷◌, reverse}
use text.Mathlib.Text.{◌==◌}
use nifi_operator.Common.Tests.{if◌then◌else◌, nat_eqb}
use nifi_operator.Common.Lists

-- The first part of a path, and the parts behind its slashes.
split_slash : String → String × List String
split_slash String.[] = ("", [])
split_slash (String.◌∷◌ c s) =
    let (first, parts) = split_slash s in
    if nat_eqb (code c) b'/' then ("", first ∷ parts) else (String.◌∷◌ c first, parts)

parts : String → List String
unfolding split_slash
parts s = let (first, more) = split_slash s in first ∷ more

-- One round of `path.Clean`, with the parts that are kept so far, the last one first.
keep : Bool → List String → String → List String
keep rooted [] part =
    if part == "" || part == "." || (rooted && part == "..") then [] else part ∷ []
keep rooted (top ∷ kept) part =
    if part == "" || part == "."
    then top ∷ kept
    else if part == ".."
    then (if top == ".." then part ∷ top ∷ kept else kept)
    else part ∷ top ∷ kept

clean_from : Bool → List String → List String → List String
clean_from rooted kept [] = reverse kept
clean_from rooted kept (part ∷ more) = clean_from rooted (keep rooted kept part) more

is_rooted : String → Bool
is_rooted String.[] = false
is_rooted (String.◌∷◌ c s) = nat_eqb (code c) b'/'

-- `path.Clean`
clean : String → String
unfolding parts clean_from keep is_rooted
clean s =
    let body = Lists.join "/" (clean_from (is_rooted s) [] (parts s)) in
    if is_rooted s then "/" ++ body else if body == "" then "." else body

non_empty : String → Bool
non_empty s = if s == "" then false else true

-- `path.Join`
unfoldable pub join : List String → String
unfolding clean non_empty
join elems =
    let given = Lists.filter_by non_empty elems in
    let joined = Lists.join "/" given in elim given [ [] ↦ "" | _ ∷ _ ↦ clean joined ]

join_tests :
    (join ("/kubedoop" ∷ "nifi" ∷ []) ≡ "/kubedoop/nifi")
    × (join ("/kubedoop/app/git-0" ∷ "current" ∷ "" ∷ []) ≡ "/kubedoop/app/git-0/current")
    × (join ("/a//b/" ∷ "../c/./d" ∷ []) ≡ "/a/c/d")
    × (join ("/" ∷ "../.." ∷ []) ≡ "/")
    × (join ("a" ∷ "../.." ∷ []) ≡ "..")
    × (join ("" ∷ []) ≡ "")
    × (join ("a" ∷ ".." ∷ []) ≡ ".")
unfolding join
join_tests = (refl, refl, refl, refl, refl, refl, refl)
