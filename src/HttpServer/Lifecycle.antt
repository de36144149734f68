-- ===== src/HttpServer/Lifecycle.antt =====
-- src/http_server.c: proofs about the handlers of a connection.
use molerat.Base.{◌≡◌, Bool, Result, ok}
use molerat.HttpServer.Exchange.{Exchange, Serving}
use molerat.HttpServer.Phases.{Phase, Leaves}

abbrev Handles : Exchange → Serving → Phase → Result (Serving × Bool) → Type 0
Handles x s phase m = (r : Serving × Bool) × (m ≡ ok r) × Leaves x s phase r
