-- ===== src/Fault/Actions.antt =====
-- Results, and actions on a world that may fail. What was done before a failure stays done, so
-- the world comes back beside the error too.
use tsidp_operator.Prelude.{Option, none, some, ◌≡◌, refl}
use tsidp_operator.Fault.Errors.{Error}

pub data Result {ℓ} (A : Type ℓ) : Type ℓ where
  ok : A → Result A
  err : Error → Result A

abbrev pub Exec : Type 0 → Type 0 → Type 0
Exec W A = W → Result A × W

module _ {W A : Type 0} where
  abbrev pub pure : A → Exec W A
  pure a w = (ok a, w)

  abbrev pub fail : Error → Exec W A
  fail e w = (err e, w)

  abbrev pub lift : Result A → Exec W A
  lift r w = (r, w)

module _ {W A B : Type 0} where
  abbrev pub proceed : Result A → W → (A → Exec W B) → Result B × W
  proceed (ok a) w f = f a w
  proceed (err e) w f = (err e, w)

  infixl 10 ◌>>=◌
  abbrev pub ◌>>=◌ : Exec W A → (A → Exec W B) → Exec W B
  ◌>>=◌ m f w = proceed (m w).0 (m w).1 f

-- A decoder's failure becomes an error with a message.
abbrev pub or_fail {ℓ} : {A : Type ℓ} → Error → Option A → Result A
or_fail e none = err e
or_fail e (some a) = ok a

-- A pure step after a call leaves the world that the call left.
pub proceed-lift :
    {W A B : Type 0} (r : Result A) (w : W) (f : A → Result B)
    → (proceed r w (λ a w. (f a, w))).1 ≡ w
proceed-lift (ok a) w f = refl
proceed-lift (err e) w f = refl
