-- ===== src/Text.antt =====
-- Go strings that are walked byte by byte: a string is the list of its bytes.
pub mod Prefixes
use Prim.Native.Char.{code}
use Prim.Native.String.{String}
use mathlib.Core.List.{reverse}
use ajah.Prelude.{
  ℕ, zero, suc, ◌-◌, Bool, true, false, ◌&&◌, ◌||◌, List, [], ◌∷◌, leb, ◌==◌, if◌then◌else◌, take,
  drop,
}

abbrev pub Bytes : Type 0
Bytes = List ℕ

-- The bytes of an ASCII literal.
abbrev pub ascii : String → Bytes
ascii String.[] = []
ascii (String.◌∷◌ c s) = code c ∷ ascii s

-- s[from:to], for from ≤ to ≤ len(s).
abbrev pub slice : Bytes → ℕ → ℕ → Bytes
slice s from to = take (to - from) (drop from s)

abbrev pub is_empty : Bytes → Bool
is_empty [] = true
is_empty (_ ∷ _) = false

unfoldable pub has_prefix : Bytes → Bytes → Bool
has_prefix s [] = true
has_prefix [] (p ∷ ps) = false
has_prefix (c ∷ s) (p ∷ ps) = c == p && has_prefix s ps

-- The bytes of the white space character that the bytes begin with, 0 if there is none: the ASCII
-- ones, and the others that unicode.IsSpace accepts, in UTF-8.
abbrev pub space_len : Bytes → ℕ
space_len [] = 0
space_len (a ∷ []) = if leb 9 a && leb a 13 || a == 32 then 1 else 0
space_len (a ∷ b ∷ []) =
    if leb 9 a && leb a 13 || a == 32
    then 1
    else if a == 0xc2 && (b == 0x85 || b == 0xa0)
    then 2
    else 0
space_len (a ∷ b ∷ c ∷ _) =
    if leb 9 a && leb a 13 || a == 32
    then 1
    else if a == 0xc2 && (b == 0x85 || b == 0xa0)
    then 2
    else if a == 0xe1 && b == 0x9a && c == 0x80
        || a == 0xe2
          && b == 0x80
          && (leb 0x80 c && leb c 0x8a || c == 0xa8 || c == 0xa9 || c == 0xaf)
        || a == 0xe2 && b == 0x81 && c == 0x9f
        || a == 0xe3 && b == 0x80 && c == 0x80
    then 3
    else 0

-- The same at the end, of the reversed bytes.
abbrev pub space_len_back : Bytes → ℕ
space_len_back [] = 0
space_len_back (a ∷ []) = space_len (a ∷ [])
space_len_back (a ∷ b ∷ []) =
    if space_len (a ∷ []) == 1 then 1 else if space_len (b ∷ a ∷ []) == 2 then 2 else 0
space_len_back (a ∷ b ∷ c ∷ _) =
    if space_len (a ∷ []) == 1
    then 1
    else if space_len (b ∷ a ∷ []) == 2
    then 2
    else if space_len (c ∷ b ∷ a ∷ []) == 3
    then 3
    else 0

-- Drops what `width` measures, again and again; `skip` bytes are still to be dropped.
pub drop_spaces : (Bytes → ℕ) → ℕ → Bytes → Bytes
drop_spaces width skip [] = []
drop_spaces width (suc skip) (c ∷ s) = drop_spaces width skip s
drop_spaces width zero (c ∷ s) =
    let rest = drop_spaces width (width (c ∷ s) - 1) s in if width (c ∷ s) == 0 then c ∷ s else rest

-- strings.TrimSpace
unfoldable pub trim_space : Bytes → Bytes
unfolding drop_spaces
trim_space s = reverse (drop_spaces space_len_back 0 (reverse (drop_spaces space_len 0 s)))
