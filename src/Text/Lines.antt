-- ===== src/Text/Lines.antt =====
-- `strings.Join` and `strings.Split` by a separator of one rune, and the loop that trims the parts
-- and drops the empty ones.
use tsidp_operator.Prelude.{
  ◌≡◌, refl, ap, ◌∙◌, false, List, [], ◌∷◌, ◌++◌, All, if◌then◌else◌, arith, ℕ, ◌==◌, nat_eq,
}
use tsidp_operator.Text.{is_space, Text, is_empty}
use tsidp_operator.Text.Trim.{trim_space, trim_space-NoSpace, NoSpace}

-- `strings.Join(parts, sep)`
unfoldable pub join : ℕ → List Text → Text
join sep [] = []
join sep (s ∷ []) = s
join sep (s ∷ t ∷ parts) = s ++ (sep ∷ join sep (t ∷ parts))

abbrev on_head : ℕ → List Text → List Text
on_head c [] = (c ∷ []) ∷ []
on_head c (s ∷ parts) = (c ∷ s) ∷ parts

-- `strings.Split(s, sep)`; the empty text has one part, the empty one.
unfoldable pub split : ℕ → Text → List Text
split sep [] = [] ∷ []
split sep (c ∷ s) = let rest = split sep s in if c == sep then [] ∷ rest else on_head c rest

-- `for _, u := range parts { if u = strings.TrimSpace(u); u != "" { out = append(out, u) } }`
unfoldable pub trim_all : List Text → List Text
trim_all [] = []
trim_all (s ∷ parts) =
    let rest = trim_all parts in if is_empty (trim_space s) then rest else trim_space s ∷ rest

abbrev pub Free : ℕ → Text → Type 0
Free sep s = All (λ c. (c == sep) ≡ false) s

split-Free : (sep : ℕ) (s : Text) → Free sep s → split sep s ≡ s ∷ []
unfolding split
split-Free sep [] h = refl
split-Free sep (c ∷ s) h = ground (arith, split-Free sep s h.1)

split-sep : (sep : ℕ) (s t : Text) → Free sep s → split sep (s ++ (sep ∷ t)) ≡ s ∷ split sep t
unfolding split
split-sep sep [] t h = ground arith
split-sep sep (c ∷ s) t h = ground (arith, split-sep sep s t h.1)

-- What was joined is split again into its parts, if no part holds the separator.
pub split-join :
    (sep : ℕ) (s : Text) (parts : List Text)
    → All (Free sep) (s ∷ parts)
    → split sep (join sep (s ∷ parts)) ≡ s ∷ parts
unfolding join
split-join sep s [] h = split-Free sep s h.0
split-join sep s (t ∷ parts) h =
    split-sep sep s _ h.0 ∙ ap (λ r. s ∷ r) (split-join sep t parts h.1)

-- Parts with no white space, none of them empty, stay as they are.
pub trim_all-NoSpace :
    (parts : List Text)
    → All NoSpace parts
    → All (λ s. is_empty s ≡ false) parts
    → trim_all parts ≡ parts
unfolding trim_all
trim_all-NoSpace [] h n = refl
trim_all-NoSpace (s ∷ parts) h n =
    ground (arith, trim_space-NoSpace s h.0, trim_all-NoSpace parts h.1 n.1)

-- White space includes the line feed.
Free-NoSpace : (s : Text) → NoSpace s → Free 0x0a s
unfolding is_space nat_eq
Free-NoSpace [] h = tt
Free-NoSpace (c ∷ s) h = (ground arith, Free-NoSpace s h.1)

All-Free-NoSpace : (parts : List Text) → All NoSpace parts → All (Free 0x0a) parts
All-Free-NoSpace [] h = tt
All-Free-NoSpace (s ∷ parts) h = (Free-NoSpace s h.0, All-Free-NoSpace parts h.1)

-- Texts that are not empty and hold no white space.
pub record AllSolid (parts : List Text) : Type 0 where
  pub no_space : All NoSpace parts
  pub not_empty : All (λ s. is_empty s ≡ false) parts

-- Solid lines that were joined come out again when the text is split and its parts are trimmed.
pub trim_all-split-join :
    (s : Text) (parts : List Text)
    → AllSolid (s ∷ parts)
    → trim_all (split 0x0a (join 0x0a (s ∷ parts))) ≡ s ∷ parts
trim_all-split-join s parts h =
    ap trim_all (split-join 0x0a s parts (All-Free-NoSpace (s ∷ parts) h.no_space))
    ∙ trim_all-NoSpace (s ∷ parts) h.no_space h.not_empty
