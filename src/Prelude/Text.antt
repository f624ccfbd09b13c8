-- ===== src/Prelude/Text.antt =====
-- Python's `str` methods on the native strings.
use Prim.Native.Nat.{ℕ}
use Prim.Native.Char.{Char, code}
use Prim.Native.String.{String}
use mathlib.Core.Bool.{Bool, ◌&&◌, ◌||◌}
use mathlib.Core.List.{List, [], ◌∷◌}
use azure_lustre_vmss_metric.Prelude.Tests.{leb, nat_beq, if◌then◌else◌}
use azure_lustre_vmss_metric.Prelude.Equality.{◌==◌, string_eq}

-- `c.isspace()`, by the code point
abbrev pub is_space : ℕ → Bool
is_space c =
    leb 9 c && leb c 13
    || leb 28 c && leb c 32
    || nat_beq c 133
    || nat_beq c 160
    || nat_beq c 5760
    || leb 8192 c && leb c 8202
    || nat_beq c 8232
    || nat_beq c 8233
    || nat_beq c 8239
    || nat_beq c 8287
    || nat_beq c 12288

-- `s.replace(old, new)`, for single characters
unfoldable pub replace : Char → Char → String → String
replace old new String.[] = ""
replace old new (String.◌∷◌ c s) =
    String.◌∷◌ (if nat_beq (code c) (code old) then new else c) (replace old new s)

-- a character in front of the first piece
abbrev pub onto_first : Char → List String → List String
onto_first c [] = String.◌∷◌ c "" ∷ []
onto_first c (piece ∷ pieces) = String.◌∷◌ c piece ∷ pieces

-- `s.split(separator)`, for a separator of one character
unfoldable pub split : Char → String → List String
split separator String.[] = "" ∷ []
split separator (String.◌∷◌ c s) =
    let pieces = split separator s in
    if nat_beq (code c) (code separator) then "" ∷ pieces else onto_first c pieces

unfoldable pub lstrip : String → String
lstrip String.[] = ""
lstrip (String.◌∷◌ c s) = let rest = lstrip s in if is_space (code c) then rest else String.◌∷◌ c s

unfoldable pub rstrip : String → String
rstrip String.[] = ""
rstrip (String.◌∷◌ c s) =
    let rest = rstrip s in if rest == "" && is_space (code c) then "" else String.◌∷◌ c rest

unfoldable pub strip : String → String
unfolding lstrip rstrip
strip s = lstrip (rstrip s)

-- the code points of a text
abbrev pub codes : String → List ℕ
codes String.[] = []
codes (String.◌∷◌ c s) = code c ∷ codes s
