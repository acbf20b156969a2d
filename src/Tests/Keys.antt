-- ===== src/Tests/Keys.antt =====
-- A text for two lists of strings, for the cluster of the tests: each character after an x, a y at
-- the end of a string, and a z at the end of a list.
use Prim.Native.Char.{Char, code}
use tsidp_operator.Prelude.{
  ◌∙◌, ◌≡◌, refl, ap, Bool, true, false, List, [], ◌∷◌, String, ◌==◌, nat_eq, if◌then◌else◌,
}
use tsidp_operator.Controller.Environment.{AppliedTemplateKeys}

abbrev print_string : String → String → String
print_string String.[] rest = String.◌∷◌ "y" rest
print_string (String.◌∷◌ c s) rest = String.◌∷◌ "x" (String.◌∷◌ c (print_string s rest))

abbrev print_strings : List String → String → String
print_strings [] rest = String.◌∷◌ "z" rest
print_strings (s ∷ ss) rest = print_string s (print_strings ss rest)

abbrev pub print_keys : AppliedTemplateKeys → String
print_keys k = print_strings k.labels (print_strings k.annotations "")

-- A character joins the first string of the first list.
abbrev put : Char → List (List String) → List (List String)
put c [] = []
put c ([] ∷ ls) = [] ∷ ls
put c ((s ∷ ss) ∷ ls) = (String.◌∷◌ c s ∷ ss) ∷ ls

abbrev begin_string : List (List String) → List (List String)
begin_string [] = []
begin_string (l ∷ ls) = ("" ∷ l) ∷ ls

-- The flag says that the next character is one of a string.
abbrev parse : Bool → String → List (List String)
parse b String.[] = []
parse true (String.◌∷◌ c s) = put c (parse false s)
parse false (String.◌∷◌ t s) =
    let literal = parse true s in
    let plain = parse false s in
    if code t == 0x78 then literal else if code t == 0x79 then begin_string plain else [] ∷ plain

abbrev two : List (List String) → AppliedTemplateKeys
two [] = record { labels = []; annotations = [] }
two (l ∷ []) = record { labels = l; annotations = [] }
two (l ∷ a ∷ rest) = record { labels = l; annotations = a }

abbrev pub parse_keys : String → AppliedTemplateKeys
parse_keys s = two (parse false s)

-- The first list, with a string in front.
abbrev front : String → List (List String) → List (List String)
front s [] = []
front s (l ∷ ls) = (s ∷ l) ∷ ls

parse-string : (s rest : String) → parse false (print_string s rest) ≡ front s (parse false rest)
unfolding nat_eq
parse-string String.[] rest = begun (parse false rest)
  where
    begun : (r : List (List String)) → begin_string r ≡ front "" r
    begun [] = refl
    begun (l ∷ ls) = refl
parse-string (String.◌∷◌ c s) rest = ap (put c) (parse-string s rest) ∙ joined (parse false rest)
  where
    joined : (r : List (List String)) → put c (front s r) ≡ front (String.◌∷◌ c s) r
    joined [] = refl
    joined (l ∷ ls) = refl

-- The first list, with strings in front.
abbrev fronts : List String → List (List String) → List (List String)
fronts [] ls = [] ∷ ls
fronts (s ∷ ss) ls = front s (fronts ss ls)

parse-strings :
    (ss : List String) (rest : String)
    → parse false (print_strings ss rest) ≡ fronts ss (parse false rest)
unfolding nat_eq
parse-strings [] rest = refl
parse-strings (s ∷ ss) rest =
    parse-string s (print_strings ss rest) ∙ ap (front s) (parse-strings ss rest)

fronts_lem : (ss : List String) (ls : List (List String)) → fronts ss ls ≡ ss ∷ ls
fronts_lem [] ls = refl
fronts_lem (s ∷ ss) ls = ap (front s) (fronts_lem ss ls)

pub parse_keys-print_keys : (k : AppliedTemplateKeys) → parse_keys (print_keys k) ≡ k
parse_keys-print_keys k = ap two (
    parse-strings k.labels (print_strings k.annotations "")
    ∙ (ap (fronts k.labels) (parse-strings k.annotations "")
        ∙ (ap (fronts k.labels) (fronts_lem k.annotations [])
            ∙ fronts_lem k.labels (k.annotations ∷ []))))
