-- ===== src/Gateway/Routes.antt =====
-- The handlers of cross-domain-id-jag-vc/gitea-gateway/app.py, each behind its dependency.
use agent_identity_demos.Prelude.{
  ℕ, String, ◌<>◌, Bool, true, false, not, ◌||◌, Option, none, some, [], contains, ◌==◌, nat_eq,
  string_eq,
}
use agent_identity_demos.Prelude.Text.{take_text, sorted_set, encode}
use agent_identity_demos.Value.{
  Value, Fields, Items, null, bool, str, arr, obj, nil, cons, end, field, get, get_default, eq_str,
  strs,
}
use agent_identity_demos.Effects.{
  Exn, http_exception, attribute_error, Result, ok, err, M, World, pure, lift, require, ◌>>=◌, ◌>>◌,
  Request, Response, http_get, http_post, no_body, json_body, request, json, as_dict, token_hex,
}
use agent_identity_demos.Effects.Values.{items_of}
use agent_identity_demos.Base64.{b64encode, b64decode, standard}
use agent_identity_demos.Gateway.Config.{Config}
use agent_identity_demos.Gateway.Token.{
  Headers, forbidden, require_token, require_source_read_token,
}
use agent_identity_demos.Gateway.Policy.{
  scopes, require_scope, ResourceContext, require_policy_context,
}

pub record CreateRepo : Type 0 where
  pub name : String
  pub description : String
  pub private : Bool

pub record OpenPr : Type 0 where
  pub context : ResourceContext
  pub head : String
  pub base : String
  pub title : String

abbrev agent_file : String
agent_file =
    "# Agent Work\n\nThis file was pushed by an AI coding agent using a narrowly-scoped ID-JAG access token.\n\n- Token scope: `gitea:write` (push only, no PR rights)\n- Delegated by: the authenticated user via Cross-App Access\n"

abbrev pub gitea_request : Config → String → Request
gitea_request cfg path = record {
  method = http_get;
  url = cfg.gitea_url <> ("/api/v1/" <> path);
  headers = [];
  auth = some (cfg.gitea_admin_user, cfg.gitea_admin_password);
  body = no_body;
}

abbrev pub post_gitea : Config → String → Value → Request
post_gitea cfg path payload = record (gitea_request cfg path) {
  method = http_post;
  body = json_body payload;
}

abbrev gitea_failure : String → Exn
gitea_failure text = http_exception 502 (str ("gitea error: " <> take_text 200 text))

-- `scope` of a reply.
abbrev granted_scopes : World → Fields → Value
granted_scopes w claims = arr (strs (sorted_set (scopes w claims)))

abbrev subject_scope : World → Fields → Fields → Value
subject_scope w claims rest =
    obj (field "subject" (get "sub" claims) (field "scope" (granted_scopes w claims) rest))

abbrev reply : Fields → Fields → M Value
reply claims rest w h = (ok (subject_scope w claims rest), h)

abbrev pub full_name : String → String → String
full_name owner repo = owner <> ("/" <> repo)

abbrev undecodable : Exn
undecodable = http_exception 502 (str "could not decode file content")

-- `base64.b64decode(payload.get("content", "")).decode("utf-8", "replace")`, where any exception
-- becomes one answer. Only a dict passes, which is returned as well.
unfoldable pub decode_content : World → Value → Result (Fields × String)
unfolding get_default
decode_content w (obj payload) = elim (get_default "content" (str "") payload) [
  | str s ↦ elim (b64decode false s) [
    | none ↦ err undecodable
    | some bytes ↦ ok (payload, w.utf8_replace bytes)
  ]
  | _ ↦ err undecodable
]
decode_content w _ = err undecodable

abbrev decoded : Value → M (Fields × String)
decoded v w h = (decode_content w v, h)

abbrev pub source_mismatch : String → Value → Exn
source_mismatch repository signed = forbidden (
    field "error" (str "envoy_policy_context_mismatch")
      (field "expected_repository" (str repository) (field "signed_repository" signed end)))

abbrev pub source_denied : String → Exn
source_denied repo =
    forbidden
      (field "error" (str "policy_denied") (field "reason" (str (repo <> " is deny-listed")) end))

abbrev pub repository_of : Value → Value
repository_of (obj policy) = get "repository" policy
repository_of v = null

-- The read that `read_source` asks of Gitea.
abbrev pub source_request : Config → String → String → String → Request
source_request cfg owner repo path =
    gitea_request cfg ("repos/" <> (owner <> ("/" <> (repo <> ("/contents/" <> path)))))

-- The reply of `read_source` to what Gitea answered.
unfoldable pub source_reply : Fields → Value → String → String → Response → M Value
unfolding decode_content
source_reply claims policy repository path r = do
  require (r.status_code == 200) (gitea_failure r.text)
  payload ← json r
  (item, source) ← decoded payload
  reply claims (
      field "policy" policy (
        field "file"
          (obj (
            field "repository" (str repository) (
              field "path" (str path) (
                field "sha" (get "sha" item)
                  (field "size" (get "size" item) (field "source" (str source) end))))))
          end))

-- What `read_source` checks before it asks Gitea.
unfoldable pub source_guards : Config → Fields → String → String → M Value
source_guards cfg claims owner repo = do
  require_scope claims cfg.read_scope
  let policy = get_default "_envoy_policy" (obj end) claims
  require (not cfg.require_envoy_policy || eq_str (repository_of policy) (full_name owner repo))
      (source_mismatch (full_name owner repo) (repository_of policy))
  require (not (contains cfg.deny_list repo)) (source_denied repo)
  pure policy

unfoldable pub read_source : Config → Headers → String → String → String → M Value
read_source cfg hs owner repo path = do
  claims ← require_source_read_token cfg hs
  policy ← source_guards cfg claims owner repo
  r ← request (source_request cfg owner repo path)
  source_reply claims policy (full_name owner repo) path r

abbrev repo_summary : Fields → Value
repo_summary item = obj (
    field "full_name" (get "full_name" item) (
      field "private" (get "private" item) (
        field "description" (get "description" item) (field "html_url" (get "html_url" item) end))))

abbrev cons_result : Value → Result Items → Result Items
cons_result v (ok vs) = ok (cons v vs)
cons_result v (err e) = err e

repo_summaries : Items → Result Items
repo_summaries nil = ok nil
repo_summaries (cons (obj item) vs) = cons_result (repo_summary item) (repo_summaries vs)
repo_summaries (cons _ vs) = err (attribute_error "get")

-- The reply of `list_repos` to what Gitea answered.
unfoldable pub repos_reply : Fields → Response → M Value
unfolding items_of repo_summaries
repos_reply claims r = do
  require (r.status_code == 200) (gitea_failure r.text)
  payload ← json r
  found ← as_dict payload
  items ← lift (items_of (get_default "data" (arr nil) found))
  repos ← lift (repo_summaries items)
  reply claims (field "repos" (arr repos) end)

unfoldable pub list_guards : Config → Fields → M Value
list_guards cfg claims = do
  policy ← require_policy_context cfg claims "list-repos" "" none
  require_scope claims cfg.read_scope
  pure policy

unfoldable pub list_repos : Config → Headers → M Value
list_repos cfg hs = do
  claims ← require_token cfg hs
  _ ← list_guards cfg claims
  r ← request (gitea_request cfg "repos/search?limit=50")
  repos_reply claims r

-- `r.status_code not in (200, 201)`
abbrev pub is_created : ℕ → Bool
is_created status = status == 200 || status == 201

-- The write that `create_repo` asks of Gitea.
abbrev pub create_request : Config → CreateRepo → Request
create_request cfg body = post_gitea cfg "user/repos" (
    obj (
      field "name" (str body.name) (
        field "description" (str body.description)
          (field "private" (bool body.private) (field "auto_init" (bool true) end)))))

-- The reply of `create_repo` to what Gitea answered.
unfoldable pub created_reply : Fields → Response → M Value
created_reply claims r = do
  require (is_created r.status_code) (gitea_failure r.text)
  payload ← json r
  item ← as_dict payload
  reply claims (
      field "created"
        (obj
          (field "full_name" (get "full_name" item) (field "html_url" (get "html_url" item) end)))
        end)

unfoldable pub create_guards : Config → Fields → M Value
create_guards cfg claims = do
  policy ← require_policy_context cfg claims "create-repo" "" none
  require_scope claims cfg.write_scope
  pure policy

unfoldable pub create_repo : Config → Headers → CreateRepo → M Value
create_repo cfg hs body = do
  claims ← require_token cfg hs
  _ ← create_guards cfg claims
  r ← request (create_request cfg body)
  created_reply claims r

-- The write that `push_file` asks of Gitea.
abbrev pub push_request : Config → String → String → String → Request
push_request cfg owner repo branch =
    post_gitea cfg ("repos/" <> (owner <> ("/" <> (repo <> "/contents/AGENTS.md")))) (
      obj (
        field "message" (str "feat: agent pushes AGENTS.md via ID-JAG scoped token") (
          field "content" (str (b64encode standard (encode agent_file)))
            (field "branch" (str "main") (field "new_branch" (str branch) end)))))

-- The reply of `push_file` to what Gitea answered.
unfoldable pub pushed_reply : Fields → Value → String → String → Response → M Value
pushed_reply claims policy branch repository r = do
  require (is_created r.status_code) (gitea_failure r.text)
  reply claims (
      field "policy" policy (
        field "pushed"
          (obj (
            field "branch" (str branch)
              (field "file" (str "AGENTS.md") (field "repo" (str repository) end))))
          end))

unfoldable pub push_guards : Config → Fields → String → String → Option ResourceContext → M Value
push_guards cfg claims owner repo body = do
  require_scope claims cfg.write_scope
  require_policy_context cfg claims "push-file" (full_name owner repo) body

unfoldable pub push_file : Config → Headers → String → String → Option ResourceContext → M Value
push_file cfg hs owner repo body = do
  claims ← require_token cfg hs
  policy ← push_guards cfg claims owner repo body
  token ← token_hex 3
  let branch = "agent/feature-" <> token
  r ← request (push_request cfg owner repo branch)
  pushed_reply claims policy branch (full_name owner repo) r

abbrev pub pr_denied : String → Exn
pr_denied repo = forbidden (
    field "error" (str "policy_deny") (
      field "repo" (str repo) (
        field "reason"
          (str (
            "repo '"
            <> (repo <> "' is deny-listed — policy blocks PR creation regardless of token scope")))
          end)))

-- The pull request that `open_pr` asks of Gitea.
abbrev pub pr_request : Config → String → String → OpenPr → Request
pr_request cfg owner repo body =
    post_gitea cfg ("repos/" <> (owner <> ("/" <> (repo <> "/pulls")))) (
      obj (
        field "title" (str body.title)
          (field "head" (str body.head) (field "base" (str body.base) end))))

-- The reply of `open_pr` to what Gitea answered.
unfoldable pub pr_reply : Fields → Value → OpenPr → Response → M Value
pr_reply claims policy body r = do
  require (is_created r.status_code) (gitea_failure r.text)
  payload ← json r
  item ← as_dict payload
  reply claims (
      field "policy" policy (
        field "pull_request"
          (obj (
            field "number" (get "number" item) (
              field "title" (get "title" item) (
                field "html_url" (get "html_url" item)
                  (field "head" (str body.head) (field "base" (str body.base) end))))))
          end))

-- The last check is the policy layer: the deny-list blocks whatever the scope of the token.
unfoldable pub pr_guards : Config → Fields → String → String → OpenPr → M Value
pr_guards cfg claims owner repo body = do
  require_scope claims cfg.pr_scope
  policy ← require_policy_context cfg claims "open-pr" (full_name owner repo) (some body.context)
  require (not (contains cfg.deny_list repo)) (pr_denied repo)
  pure policy

unfoldable pub open_pr : Config → Headers → String → String → OpenPr → M Value
open_pr cfg hs owner repo body = do
  claims ← require_token cfg hs
  policy ← pr_guards cfg claims owner repo body
  r ← request (pr_request cfg owner repo body)
  pr_reply claims policy body r
