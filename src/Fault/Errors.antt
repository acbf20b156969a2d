-- ===== src/Fault/Errors.antt =====
-- The error values of the program, and the tests on them.
use tsidp_operator.Prelude.{ℕ, Bool, true, false, List, Option, String}
use tsidp_operator.Text.{Text}
use tsidp_operator.Wire.{Body}

-- `raw b` stands for the first 4096 bytes of `b`, trimmed.
pub data Description : Type 0 where
  said : Text → Description
  raw : Body → Description

-- internal/tsidp/client.go, `apiError`.
pub record ApiError : Type 0 where
  pub status : ℕ
  pub error_code : Text
  pub description : Description

-- The reasons of an API server's refusal that `apierrors` tells apart here.
pub data StatusReason : Type 0 where
  not_found conflict : StatusReason
  other : ℕ → StatusReason

pub data Error : Type 0 where
  -- `tsidp.ErrNotFound`
  tsidp_not_found : Error
  -- `errSecretConflict`
  secret_conflict : Error
  api_error : ApiError → Error
  -- A refusal by the Kubernetes API server.
  status_error : StatusReason → Error
  -- An error of the transport, of a decoder or of a context.
  opaque : String → Error
  -- `errors.New`, and `fmt.Errorf` with no `%w`.
  errorf : String → List Text → Error
  -- `fmt.Errorf` with a `%w` for the last argument.
  wrap : String → List Text → Error → Error

-- `errors.Is(err, tsidp.ErrNotFound)`
unfoldable pub is_tsidp_not_found : Error → Bool
is_tsidp_not_found tsidp_not_found = true
is_tsidp_not_found (wrap f args e) = is_tsidp_not_found e
is_tsidp_not_found _ = false

-- `errors.Is(err, errSecretConflict)`
unfoldable pub is_secret_conflict : Error → Bool
is_secret_conflict secret_conflict = true
is_secret_conflict (wrap f args e) = is_secret_conflict e
is_secret_conflict _ = false

-- `apierrors.IsNotFound(err)`
unfoldable pub is_not_found : Error → Bool
is_not_found (status_error not_found) = true
is_not_found (wrap f args e) = is_not_found e
is_not_found _ = false

-- `apierrors.IsConflict(err)`
unfoldable pub is_conflict : Error → Bool
is_conflict (status_error conflict) = true
is_conflict (wrap f args e) = is_conflict e
is_conflict _ = false

-- A rendered text: its format, its arguments, and the error among them.
pub record Message : Type 0 where
  pub format : String
  pub args : List Text
  pub cause : Option Error
