-- ===== src/Base/Text.antt =====
-- C strings: the bytes of a text, and the fixed char arrays of the messages.
use Prim.Native.Nat.{ℕ, zero, suc, ◌-◌, ◌<◌, ◌≤◌}
use Prim.Native.Char.{code}
use Prim.Native.String.{String}
use mathlib.Core.Path.{◌≡◌, refl}
use mathlib.Core.List.{List, [], ◌∷◌}
use native.Mathlib.Omega.{arith}
use networkprogramming_battl.Base.Tests.{◌==◌, if◌then◌else◌}
use networkprogramming_battl.Base.Lists.{length}

-- The bytes of an ASCII text.
abbrev pub bytes : String → List ℕ
bytes String.[] = []
bytes (String.◌∷◌ c s) = code c ∷ bytes s

-- strncpy of at most n bytes: it stops at the first zero byte
unfoldable pub copy_text : ℕ → List ℕ → List ℕ
copy_text zero s = []
copy_text (suc n) [] = []
copy_text (suc n) (b ∷ s) = if b == 0 then [] else b ∷ copy_text n s

-- safeStrCopy into an array of the given size; the array is given by the C string that it holds
unfoldable pub safe_str_copy : ℕ → List ℕ → List ℕ
unfolding copy_text
safe_str_copy size s = copy_text (size - 1) s

length-copy_text : (n : ℕ) (s : List ℕ) → length (copy_text n s) ≤ n
unfolding copy_text
length-copy_text zero s = omega arith
length-copy_text (suc n) [] = omega arith
length-copy_text (suc n) (b ∷ s) = ground (arith, length-copy_text n s)

copy_text_whole :
    (n : ℕ) (s : List ℕ) → length s ≤ n → copy_text (length s) s ≡ s → copy_text n s ≡ s
unfolding copy_text
copy_text_whole zero [] h e = refl
copy_text_whole zero (b ∷ s) h e = absurd (omega arith)
copy_text_whole (suc n) [] h e = refl
copy_text_whole (suc n) (b ∷ s) h e = ground (arith, copy_text_whole n s)

-- A copied text ends with its zero byte inside the array.
pub length-safe_str_copy : (size : ℕ) (s : List ℕ) → 0 < size → length (safe_str_copy size s) < size
unfolding safe_str_copy
length-safe_str_copy size s h = omega (arith, length-copy_text (size - 1) s)

-- A text without zero bytes that fits is copied whole.
pub safe_str_copy_whole :
    (size : ℕ) (s : List ℕ)
    → length s < size
    → copy_text (length s) s ≡ s
    → safe_str_copy size s ≡ s
unfolding safe_str_copy
safe_str_copy_whole size s h e = copy_text_whole (size - 1) s (omega arith) e
