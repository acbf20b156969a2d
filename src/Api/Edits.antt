-- ===== src/Api/Edits.antt =====
-- The CRD's rules on redirect URIs beside the rules of tsidp's form, as the fake has them.
use tsidp_operator.Prelude.{
  ◌≡◌, refl, Bool, true, false, ◌&&◌, not, List, [], ◌∷◌, All, map, leb, length, if◌then◌else◌,
  arith,
}
use tsidp_operator.Text.{Text, runes, lower, lower_ascii}
use tsidp_operator.Text.Find.{has_substring}
use tsidp_operator.Fake.Handlers.{edit_rejects, any_rejected, has_scheme}
use tsidp_operator.Api.Admission.{admits_uri, admits_uris, starts_with_any, forbidden_schemes}

-- The text has no rune that Go folds to an ASCII letter and CEL does not, such as U+0130 and U+212A.
abbrev pub FoldsAlike : Text → Type 0
FoldsAlike u = map lower u ≡ map lower_ascii u

admitted :
    (short long scheme colon : Bool)
    → short && long && not scheme && colon ≡ true
    → (if scheme then true else not colon) ≡ false
admitted short long scheme colon h = ground arith

-- A URI that the CRD admits is not rejected by the form, if its runes fold alike.
pub admits_uri-edit_rejects :
    (u : Text) → FoldsAlike u → admits_uri u ≡ true → edit_rejects u ≡ false
unfolding admits_uri edit_rejects has_scheme
admits_uri-edit_rejects u f h =
    rw (edit_rejects, f)
      (admitted (leb 1 (length u)) (leb (length u) 512)
        (starts_with_any forbidden_schemes (map lower_ascii u)) (has_substring u (runes ":")) h)

-- Redirect URIs that the CRD admits are not rejected by the edit form as the fake has it, if Go
-- and CEL fold the letters of each to lower case alike.
pub admits_uris-any_rejected :
    (us : List Text) → All FoldsAlike us → admits_uris us ≡ true → any_rejected us ≡ false
unfolding admits_uris any_rejected
admits_uris-any_rejected [] a h = refl
admits_uris-any_rejected (u ∷ us) (f, a) h =
    ground (arith, admits_uri-edit_rejects u f, admits_uris-any_rejected us a)
