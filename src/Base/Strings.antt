-- ===== src/Base/Strings.antt =====
-- The string operations of the language that the program uses, on UTF-16 code units.
use Prim.Native.Nat.{ℕ, zero, suc, ◌+◌, ◌/◌, ◌%◌}
use mathlib.Core.Path.{◌≡◌}
use mathlib.Core.Bool.{Bool, true, false, ◌&&◌, ◌||◌}
use mathlib.Core.Option.{Option, none, some}
use mathlib.Core.List.{List, [], ◌∷◌, ◌++◌}
use native.Mathlib.Omega.{arith}
use openclaw_a2a_plugins.Base.Tests.{◌==◌, ==_iff, leb, ltb, if◌then◌else◌}
use openclaw_a2a_plugins.Base.Text.{Text, codes}

-- White space and line ends as `trim` knows them.
abbrev pub is_space : ℕ → Bool
is_space c =
    (leb 9 c && leb c 13)
    || c == 32
    || c == 160
    || c == 5760
    || (leb 8192 c && leb c 8202)
    || c == 8232
    || c == 8233
    || c == 8239
    || c == 8287
    || c == 12288
    || c == 65279

unfoldable pub trim_start : Text → Text
trim_start [] = []
trim_start (c ∷ s) = let rest = trim_start s in if is_space c then rest else c ∷ s

abbrev trim_cons : ℕ → Text → Text
trim_cons c [] = if is_space c then [] else c ∷ []
trim_cons c (d ∷ s) = c ∷ d ∷ s

trim_end : Text → Text
trim_end [] = []
trim_end (c ∷ s) = trim_cons c (trim_end s)

unfoldable pub trim : Text → Text
unfolding trim_start trim_end
trim s = trim_end (trim_start s)

-- `text.length > 0` and `text.trim().length > 0`.
abbrev pub is_filled : Text → Bool
is_filled [] = false
is_filled (c ∷ s) = true

abbrev pub has_text : Text → Bool
has_text s = is_filled (trim s)

-- The rest of a text that starts with another.
pub strip_prefix : Text → Text → Option Text
strip_prefix [] s = some s
strip_prefix (c ∷ p) [] = none
strip_prefix (c ∷ p) (d ∷ s) = if c == d then strip_prefix p s else none

pub strip_prefix-append : (p s : Text) {rest : Text} → strip_prefix p s ≡ some rest → s ≡ p ++ rest
unfolding strip_prefix
strip_prefix-append [] s h = cc
strip_prefix-append (c ∷ p) [] h = cc
strip_prefix-append (c ∷ p) (d ∷ s) {rest} h =
    ground (arith, ==_iff c d, strip_prefix-append p s {rest = rest})

-- The decimal digits of a number, with fuel for one more than the number.
abbrev digits : ℕ → ℕ → Text
digits zero n = []
digits (suc fuel) n =
    let rest = digits fuel (n / 10) in
    if ltb n 10 then (48 + n) ∷ [] else rest ++ (48 + n % 10) ∷ []

pub decimal : ℕ → Text
decimal n = digits (suc n) n

-- `padStart(4, "0")`.
abbrev pub padded : Text → Text
padded [] = codes "0000"
padded (a ∷ []) = codes "000" ++ a ∷ []
padded (a ∷ b ∷ []) = codes "00" ++ a ∷ b ∷ []
padded (a ∷ b ∷ c ∷ []) = codes "0" ++ a ∷ b ∷ c ∷ []
padded (a ∷ b ∷ c ∷ d ∷ s) = a ∷ b ∷ c ∷ d ∷ s

-- `join`.
pub joined : Text → List Text → Text
joined separator [] = []
joined separator (s ∷ []) = s
joined separator (s ∷ t ∷ ts) = s ++ separator ++ joined separator (t ∷ ts)
