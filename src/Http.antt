-- ===== src/Http.antt =====
-- What a handler reads of a request, as net/http parses it: a header's first value and a query
-- parameter's first value, the empty text where there is none.
use gateway_runtime.Prelude.{String}

pub record Request : Type 0 where
  pub header : String → String
  pub query : String → String
