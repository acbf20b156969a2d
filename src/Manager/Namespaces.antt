-- ===== src/Manager/Namespaces.antt =====
-- The flag confines the caches to the namespaces that it lists, and never widens them.
use tsidp_operator.Prelude.{
  ◌≡◌, refl, ap, ◌∙◌, Bool, true, false, ◌&&◌, ◌||◌, not, List, [], ◌∷◌, Option, none, some, All,
  map, contains, arith,
}
use tsidp_operator.Prelude.Map.{Map, insert, lookup, lookup-insert, lookup-nil}
use tsidp_operator.Text.{Text, text_eq, is_empty}
use tsidp_operator.Text.Trim.{trim_space, NoSpace, trim_space-NoSpace}
use tsidp_operator.Text.Lines.{split, join, Free, split-join}
use tsidp_operator.Manager.{Scope, everything, only, exits, fill, confined, scope}

abbrev holds : Option (Unit {0}) → Bool
holds none = false
holds (some u) = true

-- Whether the caches see a namespace.
abbrev pub sees : Scope → Text → Bool
sees everything k = true
sees (only m) k = holds (lookup k m)
sees exits k = false

lookup-fill :
    (k : Text) (parts : List Text) (m : Map Text (Unit {0}))
    → holds (lookup k (fill parts m))
      ≡ ((not (is_empty k) && contains (map trim_space parts) k) || holds (lookup k m))
unfolding fill
lookup-fill k [] m = ground arith
lookup-fill k (p ∷ parts) m = ground (
  arith,
  lookup-fill k parts m,
  lookup-fill k parts (insert (trim_space p) tt m),
  lookup-insert k (trim_space p) tt m,
)

sees-confined : (k : Text) (m : Map Text (Unit {0})) → sees (confined m) k ≡ holds (lookup k m)
sees-confined k [] = rw lookup-nil refl
sees-confined k (e ∷ m) = refl

-- With a watch flag that is not empty, the caches see a namespace if and only if its name is not
-- empty and is one of the trimmed parts of the flag between commas; so a flag with no such part
-- never widens the caches to every namespace.
pub sees-scope :
    (flag k : Text)
    → is_empty flag ≡ false
    → sees (scope flag) k ≡ (not (is_empty k) && contains (map trim_space (split 0x2c flag)) k)
unfolding scope
sees-scope flag k h =
    rw (scope, h)
      (sees-confined k _ ∙ (lookup-fill k (split 0x2c flag) [] ∙ rw lookup-nil (ground arith)))

map-trim_space : (parts : List Text) → All NoSpace parts → map trim_space parts ≡ parts
map-trim_space [] h = refl
map-trim_space (p ∷ parts) h = ground (arith, trim_space-NoSpace p h.0, map-trim_space parts h.1)

-- With the flag that joins some names by commas, none of them with white space or a comma and the
-- flag not empty, the caches see a namespace with a name that is not empty if and only if it is
-- one of these.
pub sees-join :
    (n : Text) (ns : List Text) (k : Text)
    → All NoSpace (n ∷ ns)
    → All (Free 0x2c) (n ∷ ns)
    → is_empty (join 0x2c (n ∷ ns)) ≡ false
    → is_empty k ≡ false
    → sees (scope (join 0x2c (n ∷ ns))) k ≡ contains (n ∷ ns) k
sees-join n ns k h f e m =
    let parts = ap (map trim_space) (split-join 0x2c n ns f) ∙ map-trim_space (n ∷ ns) h in
    sees-scope (join 0x2c (n ∷ ns)) k e
    ∙ (ap (λ l. not (is_empty k) && contains l k) parts ∙ ap (λ b. not b && contains (n ∷ ns) k) m)
