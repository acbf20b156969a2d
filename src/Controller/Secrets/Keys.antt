-- ===== src/Controller/Secrets/Keys.antt =====
-- `sort.Strings` on keys.
use Prim.Native.Nat.{Ordering}
use Prim.Native.String.{compare}
use tsidp_operator.Prelude.{
  ◌≡◌, refl, Bool, true, false, List, [], ◌∷◌, String, string_eq, contains, if◌then◌else◌, arith,
}

le_string : String → String → Bool
le_string s t = elim (compare s t) [ Ordering.gt ↦ false | _ ↦ true ]

insert_string : String → List String → List String
insert_string s [] = s ∷ []
insert_string s (t ∷ ts) =
    let rest = insert_string s ts in if le_string s t then s ∷ t ∷ ts else t ∷ rest

unfoldable pub sort_strings : List String → List String
unfolding insert_string le_string
sort_strings [] = []
sort_strings (s ∷ ss) = insert_string s (sort_strings ss)

contains-insert_string :
    (s : String) (ts : List String) (k : String)
    → contains (insert_string s ts) k ≡ contains (s ∷ ts) k
unfolding insert_string
contains-insert_string s [] k = refl
contains-insert_string s (t ∷ ts) k = ground (arith, contains-insert_string s ts k)

-- Sorting keeps the keys.
pub contains-sort_strings :
    (ss : List String) (k : String) → contains (sort_strings ss) k ≡ contains ss k
unfolding sort_strings
contains-sort_strings [] k = refl
contains-sort_strings (s ∷ ss) k =
    rw contains-insert_string (ground (arith, contains-sort_strings ss k))
