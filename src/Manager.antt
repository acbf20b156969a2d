-- ===== src/Manager.antt =====
-- cmd/main.go: the namespaces that the manager's caches are confined to; its flags and options stand
-- in `Options`, and the start of the program in `Start`.
pub mod Namespaces
pub mod Options
pub mod Start
pub mod Selector
use tsidp_operator.Prelude.{ℕ, Bool, true, false, List, [], ◌∷◌, Option, none, some, if◌then◌else◌}
use tsidp_operator.Prelude.Map.{Map, insert, lookup}
use tsidp_operator.Text.{Text, text_eq, is_empty}
use tsidp_operator.Text.Trim.{trim_space}
use tsidp_operator.Text.Lines.{split}

-- What the caches see: every namespace, those of `nsMap`, or nothing, since the program exits.
pub data Scope : Type 0 where
  everything : Scope
  only : Map Text (Unit {0}) → Scope
  exits : Scope

-- The loop that fills `nsMap`.
unfoldable pub fill : List Text → Map Text (Unit {0}) → Map Text (Unit {0})
fill [] m = m
fill (ns ∷ rest) m = fill rest (let n = trim_space ns in if is_empty n then m else insert n tt m)

abbrev pub confined : Map Text (Unit {0}) → Scope
confined [] = exits
confined (e ∷ m) = only (e ∷ m)

-- The part of `main` on `--watch-namespaces`.
unfoldable pub scope : Text → Scope
unfolding fill
scope flag = if is_empty flag then everything else confined (fill (split 0x2c flag) [])
