-- ===== src/Text.antt =====
-- Python's `str` as the list of its code points, and the operations of `str` that the program
-- calls: equality, `strip`, `isspace`, prefixes, and the length of the UTF-8 encoding.
pub mod Lines
use Prim.Native.Char.{code}
use Prim.Native.String.{String}
use mathlib.Core.List.{reverse}
use deepseek_as_subagent.Prelude.{
  ℕ, zero, suc, ap, ◌++◌, ◌+◌, ◌≤◌, ◌≡◌, refl, ◌↔◌, Bool, true, false, ◌&&◌, ◌||◌, Option, none,
  some, List, [], ◌∷◌, arith, ltb, leb, ◌==◌, if◌then◌else◌, length, all,
}

abbrev pub Text : Type 0
Text = List ℕ

-- The code points of a literal.
abbrev pub codes : String → Text
codes String.[] = []
codes (String.◌∷◌ c s) = code c ∷ codes s

unfoldable pub text_eq : Text → Text → Bool
text_eq [] [] = true
text_eq (a ∷ s) (b ∷ t) = a == b && text_eq s t
text_eq _ _ = false

pub text_eq_refl : (s : Text) → text_eq s s ≡ true
unfolding text_eq
text_eq_refl [] = refl
text_eq_refl (a ∷ s) = ground (arith, text_eq_refl s)

pub text_eq_sound : (s t : Text) → text_eq s t ≡ true → s ≡ t
unfolding text_eq
text_eq_sound [] [] h = refl
text_eq_sound (a ∷ s) (b ∷ t) h = ground (arith, text_eq_sound s t)
text_eq_sound [] (b ∷ t) h = ground arith
text_eq_sound (a ∷ s) [] h = ground arith

pub text_eq_iff : (s t : Text) → (text_eq s t ≡ true) ↔ (s ≡ t)
text_eq_iff s t = (text_eq_sound s t, λ e. ground (arith, text_eq_refl s))

-- The code points for which `str.isspace` holds; `str.strip` removes the same ones.
unfoldable pub is_space : ℕ → Bool
is_space c =
    (leb 9 c && leb c 13)
    || (leb 28 c && leb c 32)
    || c == 0x85
    || c == 0xa0
    || c == 0x1680
    || (leb 0x2000 c && leb c 0x200a)
    || c == 0x2028
    || c == 0x2029
    || c == 0x202f
    || c == 0x205f
    || c == 0x3000

unfoldable pub lstrip : Text → Text
lstrip [] = []
lstrip (c ∷ s) = elim (is_space c) [ true ↦ lstrip s | false ↦ c ∷ s ]

unfoldable pub strip : Text → Text
unfolding lstrip is_space
strip s = reverse (lstrip (reverse (lstrip s)))

-- `not s.strip()`, for which `not s or s.isspace()` is another spelling.
unfoldable pub is_blank : Text → Bool
unfolding is_space
is_blank s = all is_space s

-- Bytes of one code point in UTF-8; a surrogate cannot be encoded.
unfoldable pub utf8_char : ℕ → Option ℕ
utf8_char c =
    if ltb c 0x80
    then some 1
    else if ltb c 0x800
    then some 2
    else if leb 0xd800 c && leb c 0xdfff
    then none
    else if ltb c 0x10000
    then some 3
    else some 4

abbrev add_sizes : Option ℕ → Option ℕ → Option ℕ
add_sizes (some a) (some b) = some (a + b)
add_sizes _ _ = none

-- `len(s.encode("utf-8"))`, or none where that raises `UnicodeEncodeError`.
unfoldable pub utf8_size : Text → Option ℕ
unfolding utf8_char
utf8_size [] = some 0
utf8_size (c ∷ s) = add_sizes (utf8_char c) (utf8_size s)

unfoldable pub starts_with : Text → Text → Bool
starts_with [] s = true
starts_with (p ∷ ps) [] = false
starts_with (p ∷ ps) (c ∷ s) = p == c && starts_with ps s

unfoldable pub contains : Text → Text → Bool
unfolding starts_with
contains p [] = starts_with p []
contains p (c ∷ s) = starts_with p (c ∷ s) || contains p s

unfoldable pub member : Text → List Text → Bool
unfolding text_eq
member t [] = false
member t (s ∷ ss) = text_eq t s || member t ss

-- `s[:n]`
unfoldable pub take : ℕ → Text → Text
take zero s = []
take (suc n) [] = []
take (suc n) (c ∷ s) = c ∷ take n s

pub take_all : (n : ℕ) (s : Text) → length s ≤ n → take n s ≡ s
unfolding take
take_all zero [] h = refl
take_all zero (c ∷ s) h = absurd (omega arith)
take_all (suc n) [] h = refl
take_all (suc n) (c ∷ s) h = ap (λ (t : Text). c ∷ t) (take_all n s (omega arith))

pub length-take : (n : ℕ) (s : Text) → length (take n s) ≤ n
unfolding take
length-take zero s = omega arith
length-take (suc n) [] = omega arith
length-take (suc n) (c ∷ s) = omega (arith, length-take n s)

-- `sep.join(parts)`
unfoldable pub join : Text → List Text → Text
join sep [] = []
join sep (t ∷ []) = t
join sep (t ∷ u ∷ ts) = t ++ (sep ++ join sep (u ∷ ts))
