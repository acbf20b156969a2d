-- ===== src/Transport.antt =====
-- net/http, which carries the requests of internal/tsidp/client.go.
use tsidp_operator.Fault.{Exec}
use tsidp_operator.Wire.{Request, Response}

-- A request is answered by a response or fails.
pub record Http : Type 1 where
  pub World : Type 0
  pub send : Request → Exec World Response
