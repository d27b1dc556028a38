-- ===== src/Resp/Text.antt =====
-- Text as the standard library reads it: `str::from_utf8`, `String::from_utf8_lossy` and `str::trim`,
-- over bytes.
use redis_rs.Base.{
  ℕ, zero, suc, ◌+◌, ◌-◌, Bool, true, false, ◌&&◌, ◌||◌, List, [], ◌∷◌, map, Bytes, length, drop,
  leb, ◌==◌, if◌then◌else◌,
}
use mathlib.Core.List.{reverse}

abbrev between : ℕ → ℕ → ℕ → Bool
between lo hi c = leb lo c && leb c hi

-- The number of bytes of the longest valid prefix of one character, and whether it is a whole
-- character; at least one byte is counted.
continuation : ℕ → ℕ → ℕ → Bytes → Bool × ℕ
continuation seen lo hi [] = (false, seen)
continuation seen lo hi (c ∷ cs) = (between lo hi c, if between lo hi c then seen + 1 else seen)

-- Two, three and four byte characters: the second byte lies in `lo .. hi`, the later ones in 80 .. bf.
two_bytes : ℕ → ℕ → Bytes → Bool × ℕ
two_bytes lo hi cs = continuation 1 lo hi cs

three_bytes : ℕ → ℕ → Bytes → Bool × ℕ
three_bytes lo hi cs =
    let (valid, n) = two_bytes lo hi cs in
    if valid then continuation 2 0x80 0xbf (drop 1 cs) else (false, n)

four_bytes : ℕ → ℕ → Bytes → Bool × ℕ
four_bytes lo hi cs =
    let (valid, n) = three_bytes lo hi cs in
    if valid then continuation 3 0x80 0xbf (drop 2 cs) else (false, n)

-- The first byte, and what follows it.
unfoldable pub first_char : ℕ → Bytes → Bool × ℕ
unfolding continuation two_bytes three_bytes four_bytes
first_char c cs =
    if leb c 0x7f
    then (true, 1)
    else if between 0xc2 0xdf c
    then two_bytes 0x80 0xbf cs
    else if c == 0xe0
    then three_bytes 0xa0 0xbf cs
    else if between 0xe1 0xec c || between 0xee 0xef c
    then three_bytes 0x80 0xbf cs
    else if c == 0xed
    then three_bytes 0x80 0x9f cs
    else if c == 0xf0
    then four_bytes 0x90 0xbf cs
    else if between 0xf1 0xf3 c
    then four_bytes 0x80 0xbf cs
    else if c == 0xf4
    then four_bytes 0x80 0x8f cs
    else (false, 1)

-- `skip` counts the bytes of the current character that are still to pass.
unfoldable pub utf8_from : ℕ → Bytes → Bool
utf8_from skip [] = true
utf8_from (suc skip) (c ∷ cs) = utf8_from skip cs
utf8_from zero (c ∷ cs) =
    let (valid, n) = first_char c cs in let rest = utf8_from (n - 1) cs in valid && rest

-- `str::from_utf8(s).is_ok()`.
unfoldable pub is_utf8 : Bytes → Bool
unfolding utf8_from first_char
is_utf8 s = utf8_from 0 s

-- U+FFFD for each maximal invalid sequence. `copying` tells whether the bytes that are still to pass
-- belong to a character.
lossy_from : Bool → ℕ → Bytes → Bytes
lossy_from copying skip [] = []
lossy_from true (suc skip) (c ∷ cs) = c ∷ lossy_from true skip cs
lossy_from false (suc skip) (c ∷ cs) = lossy_from false skip cs
lossy_from copying zero (c ∷ cs) =
    let (valid, n) = first_char c cs in
    let rest = lossy_from valid (n - 1) cs in if valid then c ∷ rest else 0xef ∷ 0xbf ∷ 0xbd ∷ rest

unfoldable pub from_utf8_lossy : Bytes → Bytes
unfolding lossy_from first_char
from_utf8_lossy s = lossy_from true 0 s

-- The characters of the Unicode property White_Space, in UTF-8.
unfoldable pub white_space : List Bytes
white_space =
    (0x09 ∷ [])
    ∷ (0x0a ∷ [])
    ∷ (0x0b ∷ [])
    ∷ (0x0c ∷ [])
    ∷ (0x0d ∷ [])
    ∷ (0x20 ∷ [])
    ∷ (0xc2 ∷ 0x85 ∷ [])
    ∷ (0xc2 ∷ 0xa0 ∷ [])
    ∷ (0xe1 ∷ 0x9a ∷ 0x80 ∷ [])
    ∷ (0xe2 ∷ 0x80 ∷ 0x80 ∷ [])
    ∷ (0xe2 ∷ 0x80 ∷ 0x81 ∷ [])
    ∷ (0xe2 ∷ 0x80 ∷ 0x82 ∷ [])
    ∷ (0xe2 ∷ 0x80 ∷ 0x83 ∷ [])
    ∷ (0xe2 ∷ 0x80 ∷ 0x84 ∷ [])
    ∷ (0xe2 ∷ 0x80 ∷ 0x85 ∷ [])
    ∷ (0xe2 ∷ 0x80 ∷ 0x86 ∷ [])
    ∷ (0xe2 ∷ 0x80 ∷ 0x87 ∷ [])
    ∷ (0xe2 ∷ 0x80 ∷ 0x88 ∷ [])
    ∷ (0xe2 ∷ 0x80 ∷ 0x89 ∷ [])
    ∷ (0xe2 ∷ 0x80 ∷ 0x8a ∷ [])
    ∷ (0xe2 ∷ 0x80 ∷ 0xa8 ∷ [])
    ∷ (0xe2 ∷ 0x80 ∷ 0xa9 ∷ [])
    ∷ (0xe2 ∷ 0x80 ∷ 0xaf ∷ [])
    ∷ (0xe2 ∷ 0x81 ∷ 0x9f ∷ [])
    ∷ (0xe3 ∷ 0x80 ∷ 0x80 ∷ [])
    ∷ []

unfoldable pub starts_with : Bytes → Bytes → Bool
starts_with [] s = true
starts_with (c ∷ cs) [] = false
starts_with (c ∷ cs) (d ∷ ds) = c == d && starts_with cs ds

-- The length of the first listed text that `s` starts with, or 0.
unfoldable pub prefix_len : List Bytes → Bytes → ℕ
prefix_len [] s = 0
prefix_len (w ∷ ws) s = if starts_with w s then length w else prefix_len ws s

unfoldable pub strip_from : List Bytes → ℕ → Bytes → Bytes
strip_from ws skip [] = []
strip_from ws (suc skip) (c ∷ cs) = strip_from ws skip cs
strip_from ws zero (c ∷ cs) =
    let rest = λ (n : ℕ). strip_from ws n cs in
    elim (prefix_len ws (c ∷ cs)) [ zero ↦ c ∷ cs | suc n ↦ rest n ]

-- `str::trim` of a valid text.
unfoldable pub trim : Bytes → Bytes
unfolding strip_from prefix_len starts_with white_space
trim s = reverse (strip_from (map reverse white_space) 0 (reverse (strip_from white_space 0 s)))
