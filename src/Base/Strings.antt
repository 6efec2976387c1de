-- ===== src/Base/Strings.antt =====
-- C strings in arrays of bytes: strlen, strcpy, strcat and strstr. `none` is a read or a write
-- behind the end of an array.
use Prim.Native.Nat.{ℕ, ◌+◌, ◌≤◌, ◌<◌}
use Prim.Native.Char.{code}
use Prim.Native.String.{String}
use mathlib.Core.Path.{◌≡◌, refl}
use mathlib.Core.Bool.{Bool, true, false, ◌&&◌, ◌||◌}
use mathlib.Core.Option
use mathlib.Core.Option.{Option, none, some}
use mathlib.Core.List.{[], ◌∷◌, ◌++◌}
use native.Mathlib.Omega.{arith}
use linux_app_samp.Base.Tests.{ltb, ◌==◌, if◌then◌else◌}
use linux_app_samp.Base.Lists.{length, length-append, set, drop}
use linux_app_samp.Base.Memory.{Bytes, overlay, get_or}

-- The bytes of a text of the source, which is ASCII.
abbrev pub codes : String → Bytes
codes String.[] = []
codes (String.◌∷◌ c s) = code c ∷ codes s

-- The bytes in front of the first zero.
unfoldable pub c_str : Bytes → Option Bytes
c_str [] = none
c_str (x ∷ xs) = if x == 0 then some [] else Option.map (λ t. x ∷ t) (c_str xs)

-- `strcpy(dst, src)` and `strcat(dst, src)` for a source that is a text.
unfoldable pub str_copy : Bytes → Bytes → Option Bytes
str_copy dst text =
    if ltb (length text) (length dst) then some (overlay (text ++ 0 ∷ []) dst) else none

unfoldable pub str_cat : Bytes → Bytes → Option Bytes
unfolding str_copy
str_cat dst text = elim (c_str dst) [ none ↦ none | some t ↦ str_copy dst (t ++ text) ]

unfoldable pub is_prefix : Bytes → Bytes → Bool
is_prefix [] ys = true
is_prefix (x ∷ xs) [] = false
is_prefix (x ∷ xs) (y ∷ ys) = (x == y) && is_prefix xs ys

-- `strstr(text, needle) != NULL`
unfoldable pub contains : Bytes → Bytes → Bool
unfolding is_prefix
contains needle [] = is_prefix needle []
contains needle (x ∷ xs) = is_prefix needle (x ∷ xs) || contains needle xs

-- No byte of a text is zero.
abbrev pub IsText : Bytes → Type 0
IsText [] = Unit
IsText (x ∷ xs) = (0 < x) × IsText xs

pub IsText-append : (s t : Bytes) → IsText s → IsText t → IsText (s ++ t)
IsText-append [] t hs ht = ht
IsText-append (x ∷ s) t hs ht = (hs.0, IsText-append s t hs.1 ht)

pub c_str-overlay_zero :
    (t dst : Bytes) → IsText t → length t < length dst → c_str (overlay (t ++ 0 ∷ []) dst) ≡ some t
unfolding c_str overlay
c_str-overlay_zero t [] h p = elim p [ ]
c_str-overlay_zero [] (y ∷ dst) h p = refl
c_str-overlay_zero (x ∷ t) (y ∷ dst) h p =
    ground (arith, c_str-overlay_zero t dst h.1 (omega arith))

-- A text at the start of a buffer, followed by what the buffer held there up to a zero.
pub c_str-overlay :
    (t dst tail : Bytes)
    → IsText t
    → length t ≤ length dst
    → c_str (drop (length t) dst) ≡ some tail
    → c_str (overlay t dst) ≡ some (t ++ tail)
unfolding c_str overlay drop
c_str-overlay [] dst tail h p e = e
c_str-overlay (x ∷ t) [] tail h p e = absurd (omega arith)
c_str-overlay (x ∷ t) (y ∷ dst) tail h p e =
    ground (arith, c_str-overlay t dst tail h.1 (omega arith) e)

-- The last byte of a text in an array, and the text that is left when a zero is written over it.
pub get_or-last :
    (s dst : Bytes) (x : ℕ)
    → length s + 1 < length dst
    → get_or (overlay ((s ++ x ∷ []) ++ 0 ∷ []) dst) (length s) ≡ x
unfolding overlay get_or
get_or-last s [] x p = elim p [ ]
get_or-last [] (y ∷ dst) x p = refl
get_or-last (a ∷ s) (y ∷ dst) x p = get_or-last s dst x (omega arith)

pub c_str-set_last :
    (s dst : Bytes) (x : ℕ)
    → IsText s
    → length s + 1 < length dst
    → c_str (set (overlay ((s ++ x ∷ []) ++ 0 ∷ []) dst) (length s) 0) ≡ some s
unfolding overlay c_str
c_str-set_last s [] x h p = elim p [ ]
c_str-set_last [] (y ∷ dst) x h p = refl
c_str-set_last (a ∷ s) (y ∷ dst) x h p = ground (arith, c_str-set_last s dst x h.1 (omega arith))

pub str_copy_ok :
    (dst text : Bytes)
    → IsText text
    → length text < length dst
    → (buf : Bytes) × (str_copy dst text ≡ some buf) × (c_str buf ≡ some text)
unfolding str_copy
str_copy_ok dst text h p =
    (overlay (text ++ 0 ∷ []) dst, ground arith, c_str-overlay_zero text dst h p)

pub str_cat_ok :
    (dst t text : Bytes)
    → c_str dst ≡ some t
    → IsText t
    → IsText text
    → length t + length text < length dst
    → (buf : Bytes) × (str_cat dst text ≡ some buf) × (c_str buf ≡ some (t ++ text))
unfolding str_cat
str_cat_ok dst t text e ht h p =
    let (buf, copied, read) =
      str_copy_ok dst (t ++ text) (IsText-append t text ht h)
        (omega (arith, length-append t text)) in
    (buf, ground arith, read)
