-- ===== src/Lib.antt =====
-- The OIDC4AC laboratory: a relying party that sends Claim Request Objects to Keycloak, the suites
-- that drive it over HTTP and in a browser, and the evaluation that measures it. The development
-- models the Python of the repository.
--
-- The parts and how they interact. A user writes a request in the relying party
-- (test-client/app.py). `login` parses it, stores a pending authorization under a fresh state and
-- redirects to Keycloak; `callback` takes the pending authorization out, verifies the response with
-- authlib, and stores a grant; `refresh` renews a grant. Both end in `render_result`, whose page
-- the HTTP suite (e2e/http/run.py) reads. The suite's `authorize` posts to `login`, follows
-- redirects and fills in Keycloak's forms with one-time codes. The benchmarks
-- (evaluation/benchmark) repeat `authorize` and `refresh` on several servers.
--
-- The files.
--   Prelude       names of the libraries passed on; lists, texts, sorting, dictionaries as lists of
--                 items in insertion order, Python's exceptions as `Result`, and actions that may
--                 raise and change a state.
--   Json          values of Python's json module; `JsonText`, what the program calls of the module;
--                 `==` of values (Equality).
--   Base32, Base64, Utf8, Crypto/Sha1
--                 executable models of base64.b32encode, base64.urlsafe_b64decode, UTF-8 in both
--                 directions, and HMAC with SHA-1, which the program takes from Python's library.
--   Client        test-client/app.py. Caches: the two caches and `prune_caches`. Claims:
--                 `parse_claims`. Defaults: `DEFAULT_CLAIMS`. Totp: `current_totp`. Token:
--                 `decoded_access_token`. Discovery: `discovery_metadata`,
--                 `builder_discovery_metadata` and /discovery. Pages: what handlers are given and
--                 return. Login: `home`, `preview`, `login`, with what a submitted text means
--                 afterwards (Meaning) and which texts raise (Escapes). Grants: `callback`,
--                 `refresh`, `render_result`. Server: the handlers as one server, with its
--                 transitions as a relation (Effects), invariants (Invariant), and the life of a
--                 pending authorization and of a grant (Pending, Flow, Renewal), and what is
--                 answered (Answers). Shared: the caches as the threads of the process share them,
--                 with the `dict` objects of TOKEN_CACHE. Threads: the handlers as the steps of
--                 threads, the steps as a relation (Moves, Steps), what every interleaving keeps
--                 (Single, Invariant, Brought), two refreshes of one grant (Racing), and the steps
--                 of one request as the whole handler (Alone).
--                 Environment: the constants and the settings of `create_app`. Helpers: /healthz,
--                 /otp, /tools and /otp-code.
--   E2e           e2e/http/run.py, with `method`, `pop_claims`, `current_totp` and `detail_map` of
--                 e2e/browser/run.py. Requests, Details and Jarm: requests and tokens. Totp: the
--                 codes and the counter between calls. Forms, Pages: the pages that are read. Smtp:
--                 the mailbox. Polling: the loops with a deadline. Lab: the module globals and the
--                 network. Authorize: `authorize` and `direct_authorization`. Scenarios: test
--                 functions, as actions. Suite: `wait_for_lab` and `main`. Submission: what the
--                 test client makes of the form of `authorize`. FeatureDisabled:
--                 tests/feature-disabled.py.
--   Evaluation    evaluation/benchmark and evaluation/compatibility. Requests, Sizes:
--                 browser_flow.py and `sizes_of`. Slots, Conditions, Cycles, Admin:
--                 timing-benchmark.py. Statistics: analyze.py. Fixtures: make-fixtures.py.
--                 Compatibility: the compatibility matrix, with what it reads of values (Matrix)
--                 and its main (Main).
--   Tests, Client/Tests, Evaluation/Tests
--                 concrete requests, pages and networks.
--
-- How state and operations correspond. A module global or a mutable dict is a field of a record
-- that operations take and return: `Caches` for AUTHORIZATION_CACHE and TOKEN_CACHE, `Site` for
-- these beside the browser's signed cookie, `Settings` for the globals of run.py that other runners
-- change. A handler returns an `Outcome`, whose response may be an exception that Flask turns into
-- HTTP 500; its state is what the handler had changed by then. The readings of the clock and of
-- `secrets` during a request are its `Inputs`. In Server, requests are handled one at a time. In
-- Threads, a section under CACHE_LOCK is one step of a thread, and so is each access of `refresh`
-- to the token entry that it holds outside the lock; a schedule names the thread of each step, and
-- the lock itself, which no section leaves held, has no other counterpart. Exceptions are values
-- with their class and the constant text of their message.
--
-- Parameters. authlib, with what it keeps in the browser's cookie and the metadata that it loads
-- before a redirect, Keycloak and `requests` are `Provider` and `Network`; the admin API is
-- `RealmApi` and `AdminApi`; json, html.parser, html.unescape and regular expressions are functions
-- of `JsonText` and `Network`. Hypotheses on them stand among the binders of the theorems that need
-- them.
--
-- Numbers, bounds and fuel. Times are whole microseconds, or whole seconds where the program
-- rounds; subtraction of times stops at zero, which changes no comparison that the program makes.
-- Cache entries live 15 minutes. `authorize` and `direct_authorization` have 16 transitions, the
-- bound of their own loops. A loop with a deadline has fuel for each microsecond of its timeout,
-- and each of its rounds sleeps a second. Floats that are only passed on are texts, as `repr`
-- writes them; the statistics of durations are exact fractions, and those of differences are over
-- any mean. `json.loads` and printing with an indent may raise beside `JSONDecodeError`, where a
-- text is nested too deeply or has too long an integer; at which depth is left open.
--
-- Not modelled: lone surrogates in texts, which `json.loads` lets through; the templates, the Java
-- provider, scripts and configuration; the scenarios that use the admin API, refresh one grant
-- concurrently or lower the case of a page, and everything that drives Chromium; the measurement,
-- the percentiles, the bootstrap and the writing of files in the evaluation.
pub mod Prelude
pub mod Json
pub mod Base64
pub mod Base32
pub mod Utf8
pub mod Crypto
pub mod Client
pub mod E2e
pub mod Evaluation
pub mod Tests
