-- ===== src/Webapp/Run.antt =====
-- `run_all` of cross-domain-id-jag-vc/webapp/app.py, which passes a run on to the opencode agent.
use agent_identity_demos.Prelude.{nat_eq, false, ℕ, Bool, String, ◌<>◌, none, []}
use agent_identity_demos.Value.{Value, bool, str, arr, obj, nil, end, field}
use agent_identity_demos.Effects.{
  M, asks, pure, catch, ◌>>=◌, Request, http_post, json_body, request, json, exn_text,
}
use agent_identity_demos.Webapp.Config.{Config}

pub record RunBody : Type 0 where
  pub cve : String
  pub repo : String
  pub use_real_opencode : Bool

-- What a handler answers: the content and the status.
abbrev pub Reply : Type 0
Reply = Value × ℕ

abbrev run_request : Config → RunBody → Request
run_request cfg body = record {
  method = http_post;
  url = cfg.opencode_agent_url <> "/api/run";
  headers = [];
  auth = none;
  body = json_body (
      obj (
        field "repo" (str body.repo) (
          field "cve_override" (str body.cve)
            (field "use_real_opencode" (bool body.use_real_opencode) end))));
}

-- `trace_id` is what the tracer gives for the current span.
unfoldable pub run_all : Config → String → RunBody → M Reply
run_all cfg trace_id body =
    catch (do r ← request (run_request cfg body); v ← json r; pure (v, r.status_code))
      (λ e. asks (λ w. (
        obj (
            field "ok" (bool false) (
              field "steps" (arr nil)
                (field "trace_id" (str trace_id) (field "error" (str (exn_text w e)) end)))),
        502,
      )))
