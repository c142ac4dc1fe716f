-- ===== src/Lib.antt =====
-- Models and proofs for the cross-domain agent identity demo, cross-domain-id-jag-vc/.
--
-- The program. A user of Org A delegates to an agent (opencode-agent/), which calls an agent of Org B
-- (triage-agent/), which spawns a sub-agent (sub-agent/); the sub-agent pushes a fix and opens a pull
-- request through a gateway in front of Gitea (gitea-gateway/). Each hop carries a signed assertion
-- and, beside it, a credential that an Identity Node serves; agntcy_identity_client/ is the client of
-- Vault, of the Identity Node and of the Directory that the agents share.
--
-- The files.
--   Prelude, Prelude/*  equality, lists and Python's str methods, over the native numbers and texts
--   Value               Python's values as json.loads builds them, with dict and list operations
--   Effects             exceptions, requests, the world, and the actions of the services; its children:
--                       Values (operations that raise on another type), Guards (a row of checks and
--                       then one request), Invert (what an action that returned has gone through),
--                       Quiet (actions without an event), Once (actions with one event at most),
--                       Total (actions that always return), Sends (what holds of every call of a
--                       service that an action makes)
--   Base64, Json, Clock base64 and b64url, json.dumps, and UTC times as the services write them
--   Environ             os.environ
--   Client/*            agntcy_identity_client/: Der (the key reader of vault.py, with Der/Read about
--                       it), Vault (the rest of vault.py), Cimd (cimd.py), Directory (directory.py),
--                       Vc and Vc/Supersede (vc.py); Vc/Live and Vc/Expiry are about the credentials
--                       that it finds,
--                       Contained about where its requests go
--   Gateway/*           gitea-gateway/app.py: Config, Token (_verify_token and the two dependencies),
--                       Policy (scopes and require_policy_context), Routes (the handlers); Checks,
--                       Verified and Authorised are about them
--   Step, Phase         the steps that the agents report, and how a handler goes on or stops; with
--                       Phase/Passed, Phase/Requests and Phase/Ended about rows of phases
--   Credential          how an agent reads the credential of its sender, with Credential/Found
--   Register, Exchange  what the agents do alike at the Identity Node, and their requests for tokens,
--                       with Exchange/Passed and Register/Contained
--   Poll                the loop that waits for a service, with Poll/First
--   SubAgent/*          sub-agent/app.py: Badge (_verify_subbadge_sync), Steps (_cimd_register and
--                       _dir_push_turn), Sender, Resource and Run (the parts of run); Accepts, Agrees,
--                       Order, Calls, Contained and Ended are about them
--   Triage/*            triage-agent/app.py: Ticket (_verify_idjag_sync), Sender, Steps, Delegate and
--                       Receive (the parts of receive_ticket); Accepts, Agrees, Order and
--                       Contained are about them
--   Handover            Triage and the sub-agent together
--   OpenCode/*          opencode-agent/app.py: Config, Finding (_parse_finding), Model (_opencode_plan),
--                       Scan (_opencode_scan), Tokens, Steps, Ticket and Run (the parts of run), Stream
--                       (_plan_event_gen); Order, Returns, Found, Stream/Relayed and Stream/Bounded are
--                       about them
--   NodeInit/*          identity-node-init.py: Setup (requests and waits), Keys, Register; Waits and
--                       Registered are about them
--   DirInit             agent-dir-init/init.py, with DirInit/Ready
--   Webapp/*            webapp/app.py: Config, Run (run_all), Keys (vault_keys), Agents
--                       (registered_agents); Listed and Shown are about them
--   Fixtures, */Tests   data for tests, and runs
--
-- State. A service is a function of a world and of the history of its events so far. The world answers
-- each call (an HTTP request, the clock, a random token, PyJWT, the Directory, json.loads) by any
-- function of that history, so what holds for all worlds holds for every behaviour of the network and
-- of the libraries. The requests of a history are those that the services send
-- with their own clients; PyJWT's fetches of keys and the gRPC calls of the Directory are events too,
-- and no requests. Exceptions are values (Result), and try/except is catch. A handler of FastAPI is
-- behind its dependency: open_pr starts by require_token. The cache of issuer keys in vault.py is read
-- off the history. An agent's phase either stops with the steps so far, which the handler answers, or
-- passes a value on.
--
-- Loops are structural recursion on lists and texts. A wait makes as many attempts as the source allows
-- it, 30. No definition has fuel but the decimal digits of a number, which are no more than its value
-- plus one.
--
-- Not modelled: the binding of headers and bodies by FastAPI and pydantic, tracing, constant routes,
-- time-outs, the pages and the byte relay of the web application, what the scripts print, and the parts that are not Python.
-- Parameters: what PyJWT decodes, Gitea, Keycloak, Vault, the Identity Node and the model server, the
-- trace identifier, gRPC, the zone of the host in time.mktime, json.loads and which bodies are no text
-- to it, and the texts of exceptions and of values that Python prints. The names of a Vault key's versions are taken to be decimal numbers, and
-- the lists of a sender's credential to hold texts; other lists count as an error.
pub mod Prelude
pub mod Value
pub mod Effects
pub mod Base64
pub mod Json
pub mod Clock
pub mod Environ
pub mod Client
pub mod Step
pub mod Phase
pub mod Credential
pub mod Register
pub mod Exchange
pub mod Poll
pub mod SubAgent
pub mod NodeInit
pub mod DirInit
pub mod Webapp
pub mod OpenCode
pub mod Triage
pub mod Handover
pub mod Fixtures
pub mod Gateway
