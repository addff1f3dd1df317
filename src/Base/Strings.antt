-- ===== src/Base/Strings.antt =====
-- Go strings: sequences of bytes. A literal is written `codes "..."`, its ASCII
-- bytes, or `utf8 "..."`.
use chango_assistant.Base.Lists.{drop, length}
use chango_assistant.Base.Tests.{if◌then◌else◌, leb, ltb, ◌==◌}
use Prim.Native.Char.{code}
use Prim.Native.Nat.{suc, zero, ℕ, ◌%◌, ◌+◌, ◌/◌}
use Prim.Native.String.{String}
use mathlib.Core.Bool.{Bool, false, true, ◌&&◌, ◌||◌}
use mathlib.Core.List.{List, [], reverse, ◌++◌, ◌∷◌}
use mathlib.Core.Logic.{◌↔◌}
use mathlib.Core.Option.{Option, none, some}
use mathlib.Core.Path.{refl, ◌≡◌}
use native.Mathlib.Omega.{arith}

abbrev pub Text : Type 0
Text = List ℕ

abbrev pub codes : String → Text
codes String.[] = []
codes (String.◌∷◌ c s) = code c ∷ codes s

-- The UTF-8 encoding of one character, in front of `rest`.
utf8_char : ℕ → Text → Text
utf8_char n rest =
    if ltb n 0x80
    then n ∷ rest
    else if ltb n 0x800
    then (0xc0 + n / 64) ∷ (0x80 + n % 64) ∷ rest
    else if ltb n 0x10000
    then (0xe0 + n / 4096) ∷ (0x80 + n / 64 % 64) ∷ (0x80 + n % 64) ∷ rest
    else (0xf0 + n / 262144)
      ∷ (0x80 + n / 4096 % 64)
      ∷ (0x80 + n / 64 % 64)
      ∷ (0x80 + n % 64)
      ∷ rest

-- The bytes of a literal with other characters than ASCII.
unfoldable pub utf8 : String → Text
unfolding utf8_char
utf8 String.[] = []
utf8 (String.◌∷◌ c s) = utf8_char (code c) (utf8 s)

-- `s == t` on Go strings.
unfoldable pub text_eq : Text → Text → Bool
text_eq [] [] = true
text_eq [] (b ∷ t) = false
text_eq (a ∷ s) [] = false
text_eq (a ∷ s) (b ∷ t) = (a == b) && text_eq s t

pub text_eq→eq : (s t : Text) → text_eq s t ≡ true → s ≡ t
unfolding text_eq
text_eq→eq [] [] h = refl
text_eq→eq [] (b ∷ t) h = cc
text_eq→eq (a ∷ s) [] h = cc
text_eq→eq (a ∷ s) (b ∷ t) h = ground (arith, text_eq→eq s t)

pub text_eq_refl : (s : Text) → text_eq s s ≡ true
unfolding text_eq
text_eq_refl [] = refl
text_eq_refl (a ∷ s) = ground (arith, text_eq_refl s)

eq→text_eq : (s t : Text) → s ≡ t → text_eq s t ≡ true
eq→text_eq s t e = rw e (text_eq_refl t)

pub text_eq-ne : (s t : Text) → (s ≡ t → ⊥) → text_eq s t ≡ false
text_eq-ne s t h = ground (arith, text_eq→eq s t)

pub text_eq_iff : (s t : Text) → (text_eq s t ≡ true) ↔ (s ≡ t)
text_eq_iff s t = (text_eq→eq s t, eq→text_eq s t)

pub text_ne : (s t : Text) → text_eq s t ≡ false → s ≡ t → ⊥
text_ne s t h e = cc (h, eq→text_eq s t e)

pub text_eq_comm : (s t : Text) → text_eq s t ≡ text_eq t s
text_eq_comm s t = ground (arith, text_eq_iff s t, text_eq_iff t s)

-- `strings.HasPrefix(s, p)`.
unfoldable pub has_prefix : Text → Text → Bool
has_prefix s [] = true
has_prefix [] (b ∷ p) = false
has_prefix (a ∷ s) (b ∷ p) = (a == b) && has_prefix s p

-- `strings.Contains(s, p)`.
unfoldable pub contains : Text → Text → Bool
unfolding has_prefix
contains [] p = has_prefix [] p
contains (a ∷ s) p = has_prefix (a ∷ s) p || contains s p

-- `strings.IndexByte(s, c)`, `none` for -1.
unfoldable pub index_byte : Text → ℕ → Option ℕ
index_byte [] c = none
index_byte (a ∷ s) c =
    let rest = index_byte s c in
    if a == c then some 0 else elim rest [ none ↦ none | some i ↦ some (suc i) ]

-- `strings.ReplaceAll(s, old, new)` where `old` and `new` are one byte each.
unfoldable pub replace_byte : ℕ → ℕ → Text → Text
replace_byte old new [] = []
replace_byte old new (a ∷ s) = (if a == old then new else a) ∷ replace_byte old new s

ascii_space : ℕ → Bool
ascii_space a = (leb 9 a && leb a 13) || (a == 32)

-- U+0085 and U+00A0.
latin_space : ℕ → ℕ → Bool
latin_space a b = (a == 0xc2) && ((b == 0x85) || (b == 0xa0))

-- U+1680, U+2000 to U+200A, U+2028, U+2029, U+202F, U+205F and U+3000.
wide_space : ℕ → ℕ → ℕ → Bool
wide_space a b c =
    ((a == 0xe1) && ((b == 0x9a) && (c == 0x80)))
    || (((a == 0xe2)
          && (((b == 0x80)
                && ((leb 0x80 c && leb c 0x8a) || ((c == 0xa8) || ((c == 0xa9) || (c == 0xaf)))))
              || ((b == 0x81) && (c == 0x9f))))
        || ((a == 0xe3) && ((b == 0x80) && (c == 0x80))))

-- How many bytes at the front encode one Unicode white space character; 0 if they encode none.
space_width : Text → ℕ
unfolding ascii_space latin_space wide_space
space_width [] = 0
space_width (a ∷ []) = if ascii_space a then 1 else 0
space_width (a ∷ b ∷ []) = if ascii_space a then 1 else if latin_space a b then 2 else 0
space_width (a ∷ b ∷ c ∷ s) =
    if ascii_space a then 1 else if latin_space a b then 2 else if wide_space a b c then 3 else 0

-- The same at the back of a text that is given in reverse.
back_width : Text → ℕ
unfolding ascii_space latin_space wide_space
back_width [] = 0
back_width (a ∷ []) = if ascii_space a then 1 else 0
back_width (a ∷ b ∷ []) = if ascii_space a then 1 else if latin_space b a then 2 else 0
back_width (a ∷ b ∷ c ∷ s) =
    if ascii_space a then 1 else if latin_space b a then 2 else if wide_space c b a then 3 else 0

-- Drops white space as long as there is some. The fuel is the length of the text.
drop_space : (Text → ℕ) → ℕ → Text → Text
drop_space width zero s = s
drop_space width (suc n) s =
    let rest = drop_space width n (drop (width s) s) in if width s == 0 then s else rest

-- `strings.TrimSpace(s)`.
unfoldable pub trim_space : Text → Text
unfolding drop_space space_width back_width
trim_space s =
    let front = drop_space space_width (length s) s in
    reverse (drop_space back_width (length front) (reverse front))

-- Texts one after the other.
abbrev pub concat_texts : List Text → Text
concat_texts [] = []
concat_texts (s ∷ ss) = s ++ concat_texts ss

-- `strings.Join(ss, sep)`.
abbrev pub join_texts : Text → List Text → Text
join_texts sep [] = []
join_texts sep (s ∷ []) = s
join_texts sep (s ∷ t ∷ ss) = s ++ (sep ++ join_texts sep (t ∷ ss))

-- `s < t` on Go strings.
unfoldable pub text_lt : Text → Text → Bool
text_lt s [] = false
text_lt [] (b ∷ t) = true
text_lt (a ∷ s) (b ∷ t) = ltb a b || ((a == b) && text_lt s t)
