-- ===== src/Prelude/Utf8.antt =====
-- Which Go strings are valid UTF-8, as unicode/utf8 has it: encoding/json keeps these, and no others.
use Prim.Native.Nat.{ℕ, zero, suc}
use mathlib.Core.Path.{◌≡◌, refl}
use mathlib.Core.Bool.{Bool, true, false, ◌&&◌}
use mathlib.Core.List.{[], ◌∷◌}
use mathlib.Core.Option.{Option, none, some}
use etcd.Prelude.Tests.{leb, ltb, ◌==◌, if◌then◌else◌}
use etcd.Prelude.Paths.{Text}

-- After a first byte: how many bytes follow, and the bounds of the next one; none where no character
-- begins with this byte.
abbrev after : ℕ → Option (ℕ × ℕ × ℕ)
after b =
    if ltb b 0x80
    then some (0, 0x80, 0xbf)
    else if leb 0xc2 b && leb b 0xdf
    then some (1, 0x80, 0xbf)
    else if b == 0xe0
    then some (2, 0xa0, 0xbf)
    else if b == 0xed
    then some (2, 0x80, 0x9f)
    else if leb 0xe1 b && leb b 0xef
    then some (2, 0x80, 0xbf)
    else if b == 0xf0
    then some (3, 0x90, 0xbf)
    else if leb 0xf1 b && leb b 0xf3
    then some (3, 0x80, 0xbf)
    else if b == 0xf4
    then some (3, 0x80, 0x8f)
    else none

-- The rest of a string, where so many bytes of a character are missing.
abbrev valid_from : ℕ → ℕ → ℕ → Text → Bool
valid_from zero low high [] = true
valid_from (suc n) low high [] = false
valid_from zero low high (b ∷ bytes) = elim (after b) [
  | none ↦ false
  | some (n, low', high') ↦ valid_from n low' high' bytes
]
valid_from (suc n) low high (b ∷ bytes) = leb low b && leb b high && valid_from n 0x80 0xbf bytes

abbrev pub is_utf8 : Text → Bool
is_utf8 s = valid_from zero 0x80 0xbf s

-- "é" is two bytes; the first one alone, or a byte that begins nothing, is no text.
accepts :
    (is_utf8 (0xc3 ∷ 0xa9 ∷ b'/' ∷ []) ≡ true)
    × (is_utf8 (0xc3 ∷ b'/' ∷ []) ≡ false)
    × (is_utf8 (0xff ∷ []) ≡ false)
accepts = (refl, refl, refl)
