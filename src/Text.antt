-- ===== src/Text.antt =====
-- Go strings that the program walks, as lists of runes, with the parts of the standard packages
-- `strings`, `unicode` and `slices` that it calls. Keys, formats and reasons, which are only
-- compared, are native strings.
pub mod Order
pub mod Find
pub mod Trim
pub mod Lines
pub mod Decimal
use Prim.Native.Char.{code}
use mathlib.Core.Logic.{dite}
use mathlib.Core.HLevel.{hedberg}
use tsidp_operator.Prelude.{
  ℕ, ◌+◌, ◌≡◌, refl, ap, Bool, true, false, ◌&&◌, ◌||◌, List, [], ◌∷◌, ◌++◌, String, Eq, nat_eq,
  ◌==◌, leb, if◌then◌else◌, arith,
}

abbrev pub Text : Type 0
Text = List ℕ

-- The runes of a literal.
abbrev pub runes : String → Text
runes String.[] = []
runes (String.◌∷◌ c s) = code c ∷ runes s

-- `s == ""`
abbrev pub is_empty : Text → Bool
is_empty [] = true
is_empty (c ∷ s) = false

pub is_empty_sound : (s : Text) → is_empty s ≡ true → s ≡ []
is_empty_sound [] h = refl
is_empty_sound (c ∷ s) h = cc

text_dec : Discrete Text
unfolding nat_eq
text_dec [] [] = yes refl
text_dec [] (d ∷ t) = no (λ p. cc)
text_dec (c ∷ s) [] = no (λ p. cc)
text_dec (c ∷ s) (d ∷ t) =
    dite (nat_eq.dec c d) (λ p. dite (text_dec s t) (λ q. yes (cc)) (λ q. no (λ e. q (cc))))
      (λ p. no (λ e. p (cc)))

instance unfoldable pub text_eq : Eq Text
unfolding text_dec nat_eq
text_eq = record { dec = text_dec }

pub Text-set : IsSet Text
Text-set = hedberg text_dec

-- `unicode.IsSpace`: the runes with the property White_Space.
unfoldable pub is_space : ℕ → Bool
is_space c =
    (leb 0x09 c && leb c 0x0d)
    || c == 0x20
    || c == 0x85
    || c == 0xa0
    || c == 0x1680
    || (leb 0x2000 c && leb c 0x200a)
    || c == 0x2028
    || c == 0x2029
    || c == 0x202f
    || c == 0x205f
    || c == 0x3000

-- `unicode.IsControl`: category Cc.
unfoldable pub is_control : ℕ → Bool
is_control c = leb c 0x1f || (leb 0x7f c && leb c 0x9f)

-- `unicode.ToLower`, as far as the result is an ASCII rune: that is all that a prefix test against
-- an ASCII literal can see. U+0130 and U+212A are the two runes from outside ASCII with such a
-- result.
unfoldable pub lower : ℕ → ℕ
lower c =
    if leb 0x41 c && leb c 0x5a
    then c + 0x20
    else if c == 0x130
    then 0x69
    else if c == 0x212a
    then 0x6b
    else c

-- CEL's `lowerAscii`, of one rune.
unfoldable pub lower_ascii : ℕ → ℕ
lower_ascii c = if leb 0x41 c && leb c 0x5a then c + 0x20 else c
