-- ===== src/Router/Passage.antt =====
-- router.go: which requests come through the middleware, and what comes back.
use gateway_runtime.Prelude.{String, Bool, Option, if◌then◌else◌, str_eq}
use gateway_runtime.Text.{trim_space}
use gateway_runtime.Middleware.{Request, Response, Context, Handler, security_headers}
use gateway_runtime.Middleware.Csrf.{Origin}
use gateway_runtime.Middleware.Proxy.{Net, client_identity}
use gateway_runtime.Middleware.RateLimit.{Floats}
use gateway_runtime.Middleware.RequestId.{request_id, request_id_of, trace_id_from_traceparent}
use gateway_runtime.Router.{RouterDeps, Draws, World}

module _ {F : Type 0} (net : Net) (fl : Floats F) (parse : String → Option Origin)
    (deps : RouterDeps F net.Network) (d : Draws) {W : Type 0} (app : Handler W) (r : Request)
    (v : World F W) where
  -- the trace that TraceContext gives a request
  abbrev trace : String
  trace =
      let given = trace_id_from_traceparent (r.header "traceparent") in
      if str_eq given "" then d.trace_id else given

  abbrev tag : Bool → Context
  tag is_traced =
      let (ip, source) = client_identity net deps.trusted_proxy r in
      record r.context {
        request_id = request_id_of d.request_id r;
        trace_id = if is_traced then trace else r.context.trace_id;
        client_ip = ip;
        client_ip_source = source;
        cf_ray = if str_eq source "remote-address" then "" else trim_space (r.header "CF-Ray");
      }

  -- what the middleware writes into the request's context
  abbrev pub tagged : Context
  tagged = tag deps.trace_enabled

  abbrev with_security : Response → Response
  with_security resp = (security_headers {W = Unit {0}} (λ _ u. (resp, u)) r tt).0
