-- ===== src/Lib.antt =====
-- A verification library for the Python services and tools of the Datadog sample finance stack.
--
-- The program. A public REST gateway (gateway-api/main.py) checks Keycloak tokens and roles, and
-- forwards payments to transaction-service and balance changes to account-service. A consumer
-- (fraud-detection/) scores the payments that transaction-service publishes on a queue. A traffic
-- generator (scripts/generate-traffic.py) drives the stack with weighted scenarios, and a test script
-- (scripts/test-e2e.py) checks it. A patch generator (scripts/generate-patches.py) uncomments the
-- instrumentation banners of the services and writes the differences as patches.
--
-- The parts and their files, with the paths of the code from the repository's root.
--   Python            Exceptions, `try`/`except`, `float(value)` and `value[key]`. A statement is a
--                     function from a state to a result and a state: what was written before a
--                     raise stays written.
--   Gateway/Http      gateway-api/main.py: module globals, HTTP client, log (World, send, log_event).
--   Gateway/Auth      _get_jwks, verify_token. Laws: Auth/Cache, Auth/Verify, Auth/Refusals.
--   Gateway/Models    The pydantic models. Laws: Models/Valid.
--   Gateway/Roles     The role checks at the head of the handlers. Laws: Roles/Laws.
--   Gateway/Transfer  transfer, one function per `try` block.
--   Gateway/Payments  initiate_payment, list_payments, validate_payment. Laws: Payments/Laws,
--                     Payments/Validate.
--   Gateway/Accounts  deposit, get_account_balance. Laws: Accounts/Laws.
--   Gateway/Routes    The routes, the statuses of their outcomes, log_requests. Laws: Routes/Laws.
--   Services/Accounts account-service, AccountController.java, AccountService.java and
--                     PaymentEventProducer.java. Laws: Accounts/Ledger.
--   Services/Payments transaction-service/src/routes/payments.js: the endpoints over the payment map.
--   Services/Posting  The whole handler of a new payment, with services/ledger.js and
--                     messaging/producer.js of transaction-service. Laws: Posting/Laws.
--   Services/Stack    Both services, Keycloak's keys, a clock and a network that meets each request
--                     with the next fault of a schedule (delivered, lost, answer lost, answered in
--                     the service's place). It fills the gateway's parameter Env.
--   EndToEnd          The gateway's handlers over that stack. Saga holds the specification of a
--                     transfer (what three faults make of it) and the refinement; Patch, Money,
--                     Transfers and Reversal are about transfers, Approval and Lifecycle about
--                     payments, Deposits about deposits, and Scoring about the messages of the other
--                     services at fraud-detection's listener.
--   Fraud/Scorer      fraud-detection/scorer.py. Laws: Scorer/Bands.
--   Fraud/Listener    fraud-detection/listener.py. Laws: Listener/Laws.
--   Fraud/Consumer    fraud-detection/main.py, main. Laws: Consumer/Laws.
--   Traffic/Client    scripts/generate-traffic.py: http, get_token, auth_header, seed_accounts. Laws:
--                     Client/Tokens, Client/Seeds.
--   Traffic/Scenarios The scenario_ functions. Laws: Scenarios/Laws.
--   Traffic/Schedule  pick_scenario, Stats.tick, main. Laws: Schedule/Laws.
--   Patches/Text      Texts as lists of code points: strip, split, join.
--   Patches/Regex     The part of `re` that the patch generator uses: match by backtracking, sub. Spans
--                     says what a pattern can take without an order of trials, Sub where a lazy run ends.
--   Patches/Code      scripts/generate-patches.py: what a comment must hold to be taken for code.
--   Patches/Engine    The banners, uncomment_python_block and its likes, process_python and its likes.
--                     Laws: Engine/Again, and Engine/Blocks over Engine/Banners.
--   Patches/Files     read, make_patch, append_diff, reset_patch, dry_run. Files/Effects tells what a
--                     step does to one patch file, Files/Headers is about the headers of a patch.
--   Patches/Dependencies
--                     requirements.txt, package.json, go.mod, Dockerfile. Laws: Dependencies/Laws.
--   Patches/Services  The patch_ functions and the main program. Services/Expected holds the
--                     specification, Services/Main the refinement.
--   Suite             scripts/test-e2e.py: chk, http, token, balance, make_account; Suite/Sections and
--                     Suite/Payments the sections, Suite/Run the health check and main. Laws:
--                     Suite/Verdict, Suite/Missing, Suite/Down, over Suite/Counts.
--   Tests             Each theorem at concrete data.
--
-- How the code is modelled.
--   - A float is a whole number of millionths, or an infinity, or nan, with Python's comparisons.
--     Rounding is left out, and so are the two signs of zero. Balances of account-service are
--     BigDecimals there, so their sums are exact. An integer of a JSON text is the float
--     it equals; one beyond the range of a double stays a whole number, which `float` refuses.
--   - The gateway's clock counts milliseconds, the traffic generator's millionths of a second.
--   - A URL is its host and the segments of its path; an identifier that holds a slash is one segment.
--   - Log records are kept with level and message; their `extra` fields are kept where a theorem of
--     the listener is about them. The bodies of error answers, which nobody reads, are left out.
--   - What the code calls and does not define is a parameter: httpx, jose, pydantic's conversion to
--     float, uuid, the clock (Env); json.loads and ack (Broker); stomp (Stomp); urllib and random
--     (Site, one of the traffic generator and one of the test script); diff, patch and json (Tools);
--     pg, stompit and JSON.stringify (Backends); Jackson, new BigDecimal of a text and the JMS
--     broker (Library). A token check that jose ends by anything but claims
--     or a JWTError is left out.
--   - Handlers run one at a time: interleavings of two requests at an `await` are not modelled.
--   - The loops of fraud-detection's and the traffic generator's main run without end. They are
--     functions of a number of passes, and the theorems hold for every number.
--   - The patch generator's texts are what read_text yields. Its temporary files are passed on as
--     values, and the times in the headers of a difference, which are replaced, are left out.
--   - The loops of the patch generator and of the test script are structural: over the characters and
--     lines of a text, over lists of services and users, over the attempts that are left.
--
-- Not modelled: the gateway's logging setup and its startup and shutdown hooks (they write log
-- records), the readers of environment variables and of command line options, what the scripts print,
-- the Go consumer and the Java batch job, and everything that is configuration.
pub mod Shared
pub mod Python
pub mod Gateway
pub mod Services
pub mod EndToEnd
pub mod Fraud
pub mod Traffic
pub mod Suite
pub mod Patches
mod Tests
