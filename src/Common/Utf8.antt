-- ===== src/Common/Utf8.antt =====
-- `String::from_utf8_lossy` of the standard library, which reads the texts that C passes in: each
-- maximal broken piece of a character becomes U+FFFD.
use Prim.Native.Nat.{ℕ, zero, suc}
use mathlib.Core.Bool.{Bool, ◌&&◌}
use mathlib.Core.List.{[], ◌∷◌, ◌++◌}
use c2pa_c.Common.Tests.{leb, if◌then◌else◌}
use c2pa_c.Common.Lists.{Bytes}

-- Between characters, or in one: the bytes read, the range of the next byte, and how many
-- continuation bytes come after it.
pub data Decoder : Type 0 where
  idle : Decoder
  within : Bytes → (lo hi more : ℕ) → Decoder

-- U+FFFD in UTF-8.
abbrev pub replacement : Bytes
replacement = 0xef ∷ 0xbf ∷ 0xbd ∷ []

in_range : ℕ → ℕ → ℕ → Bool
in_range lo hi b = leb lo b && leb b hi

-- The first byte of a character: what goes out, and the state after it.
first_byte : ℕ → Bytes × Decoder
unfolding in_range
first_byte b =
    if leb b 0x7f
    then (b ∷ [], idle)
    else if in_range 0xc2 0xdf b
    then ([], within (b ∷ []) 0x80 0xbf 0)
    else if in_range 0xe0 0xe0 b
    then ([], within (b ∷ []) 0xa0 0xbf 1)
    else if in_range 0xe1 0xec b
    then ([], within (b ∷ []) 0x80 0xbf 1)
    else if in_range 0xed 0xed b
    then ([], within (b ∷ []) 0x80 0x9f 1)
    else if in_range 0xee 0xef b
    then ([], within (b ∷ []) 0x80 0xbf 1)
    else if in_range 0xf0 0xf0 b
    then ([], within (b ∷ []) 0x90 0xbf 2)
    else if in_range 0xf1 0xf3 b
    then ([], within (b ∷ []) 0x80 0xbf 2)
    else if in_range 0xf4 0xf4 b
    then ([], within (b ∷ []) 0x80 0x8f 2)
    else (replacement, idle)

-- A byte that continues the character, and the end of the character.
continue_with : Bytes → ℕ → ℕ → Bytes × Decoder
continue_with read zero b = (read ++ b ∷ [], idle)
continue_with read (suc more) b = ([], within (read ++ b ∷ []) 0x80 0xbf more)

-- A byte that does not fit ends the broken piece and is read as a first byte.
next_byte : Decoder → ℕ → Bytes × Decoder
unfolding first_byte continue_with
next_byte idle b = first_byte b
next_byte (within read lo hi more) b =
    if in_range lo hi b
    then continue_with read more b
    else (let (out, state) = first_byte b in (replacement ++ out, state))

decode : Decoder → Bytes → Bytes
unfolding next_byte
decode idle [] = []
decode (within _ _ _ _) [] = replacement
decode state (b ∷ bytes) = let (out, state') = next_byte state b in out ++ decode state' bytes

unfoldable pub from_utf8_lossy : Bytes → Bytes
unfolding decode
from_utf8_lossy = decode idle
