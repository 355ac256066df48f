-- ===== src/Common/Settings.antt =====
-- Texts of the form key=value.
use Prim.Native.Char.{Char, code}
use Prim.Native.String.{String, ◌++◌ as ◌<>◌}
use Prim.Native.Nat.{ℕ}
use mathlib.Core.Path.{◌≡◌, refl, ap, ◌∙◌}
use mathlib.Core.Bool.{Bool, true, false, not, ◌&&◌}
use text.Mathlib.TextLemmas.{nil-append, cons-append}
use nifi_operator.Common.Tests.{nat_eqb, if◌then◌else◌}

-- No character of the text has this code.
abbrev pub free : ℕ → String → Bool
free k String.[] = true
free k (String.◌∷◌ c s) = not (nat_eqb (code c) k) && free k s

-- A line up to its first equals sign, and behind it.
abbrev pub setting : String → String × String
setting String.[] = ("", "")
setting (String.◌∷◌ c s) =
    let (key, value) = setting s in
    if nat_eqb (code c) b'=' then ("", s) else (String.◌∷◌ c key, value)

-- The tests on the first character of a text and on the others.
pub free-cons :
    (k : ℕ) (c : Char) (s : String)
    → free k (String.◌∷◌ c s) ≡ true
    → (nat_eqb (code c) k ≡ false) × (free k s ≡ true)
free-cons k c s h = go (nat_eqb (code c) k) (free k s) h
  where
    go : (a b : Bool) → not a && b ≡ true → (a ≡ false) × (b ≡ true)
    go true b e = cc
    go false b e = (refl, e)

pub setting-equals :
    (key value : String) → free b'=' key ≡ true → setting (key <> "=" <> value) ≡ (key, value)
setting-equals String.[] value h =
    ap setting (
      nil-append ("=" <> value) ∙ cons-append "=" "" value ∙ ap (String.◌∷◌ "=") (nil-append value))
setting-equals (String.◌∷◌ c key) value h =
    let (other, more) = free-cons b'=' c key h in
    let rest : setting (key <> "=" <> value) ≡ (key, value) = setting-equals key value more in
    ap setting (cons-append c key ("=" <> value))
    ∙ rw other (ap (λ p. (String.◌∷◌ c p.0, p.1)) rest)

pub free-append :
    (k : ℕ) (a b : String) → free k a ≡ true → free k b ≡ true → free k (a <> b) ≡ true
free-append k String.[] b h e = ap (free k) (nil-append b) ∙ e
free-append k (String.◌∷◌ c a) b h e =
    let (other, more) = free-cons k c a h in
    ap (free k) (cons-append c a b) ∙ rw other (free-append k a b more e)
