-- ===== src/Lib.antt =====
-- The TrustVault TypeScript code: the SecureLens Node SDK, sdk/node/src, and the session, theme and
-- data hooks of the web application, trust-vault-frontend.
--
-- An application makes a client (client.ts) with an API key (auth.ts). The client sends requests to
-- the service with `fetch`, repeats them while their errors (errors.ts) are retryable, and throws
-- errors of the SDK. The gate (gate.ts) checks and normalises requests, calls the client, and reads
-- streamed answers by itself. The LangChain integration (langchain.ts) runs the gate in the callbacks
-- of chains, retrievers and LLM calls, and keeps one context for each run; the Express integration
-- (express.ts) runs it in a middleware and in a route handler. The web application keeps its session
-- in two cookies and a store, which its API client reads and clears, and its theme in a store, a class
-- of the page and the preference of the system. Its data hooks read the service through a cache of
-- queries, and after a mutation mark keys of the cache as stale. Pages that keep state of their own
-- change it in handlers, in timers, in the events of a stream and in effects, which run after a render
-- where one of their dependencies has changed.
--
-- Files, and what they model:
--   Prelude              shared names; texts as lists of UTF-16 code units
--   Sdk/Value            JavaScript values as far as the SDK reads them: `??`, truth, members, spread
--   Sdk/Types            types.ts, and `req.secureLens` of express.ts
--   Sdk/Errors           errors.ts: classes, `toJSON`, `parseApiError`, `isRetryableError`
--   Sdk/Effect           the history of effects, results, `try` and `finally`; the environment
--   Sdk/Auth             auth.ts
--   Sdk/Client           client.ts: Config (constructor), Execute (`executeRequest`), Request (`request`)
--   Sdk/Gate             gate.ts: Requests (validation), Payloads (normalisation), Audit (query
--                        string), Calls (the calls of the service), Stream (`queryStream`)
--   Sdk/Langchain        langchain.ts: Contexts (`runContexts`), Callbacks (options), Chains,
--                        Retrievals (the other handlers), Retriever (`createSecureLensRetriever`),
--                        Interleaved (the handlers in parts, between which others run)
--   Sdk/Express          express.ts: the middleware; Route (`createGateHandler`)
--   Frontend/Session     store/auth.ts, `useLogout` of hooks/use-auth.ts, lib/api.ts
--   Frontend/Login       app/(auth)/login/page.tsx, app/(auth)/auth/sso-callback/page.tsx
--   Frontend/Theme       store/theme.ts
--   Frontend/Ui          store/ui.ts
--   Frontend/Layout      app/(app)/layout.tsx: `decodeJWT`, the restored session, the guard
--   Frontend/Table       components/base/data-table.tsx: the order of the rows
--   Frontend/Uptime      `formatUptime` of app/(app)/observability/page.tsx and of
--                        components/layout/sidebar.tsx, in whole seconds
--   Frontend/ScanPage    app/(app)/data-sources/[id]/page.tsx: the scan that the page shows
--   Frontend/ScanLogs    the same file, `ScanLogsCard`; Events (what reaches the card)
--   Frontend/Pages       pages of app/(app): Residency (data-map/residency; Regions), NewDataSource
--                        (data-sources/new; Categories), ClassificationStatus (classification/[id]),
--                        Consent (privacy/consent), Documents, Jobs, Endpoints (Platforms),
--                        Playbooks (advisor/playbooks), Sso (settings/sso), Integrations
--                        (integrations/new, integrations/[id])
--   Frontend/Hooks       hooks/: Shape (what a hook hands to the query library), one module for each
--                        file of hooks/ (Accounts is use-auth.ts), Queries and Mutations (all hooks at
--                        their arguments), Client (the query library, and how a mutation ends)
--   Sdk/Tests, Frontend/Tests  concrete runs
--
-- An action of the SDK is a function from the history of effects to a result and a longer history.
-- The environment answers `fetch`, the clock, random numbers and the JSON codec from the history, so
-- that it may answer the same call differently each time. A callback of the application is such a
-- function too. Where handlers of LangChain wait for the gate, they are a step relation besides: the
-- map of runs leads to addresses, and each step is what a handler does up to or from its `await`. A
-- class of errors is a constructor of `Details`, on a record of the common fields.
--
-- Bounds and termination: the retry loop is structural on the rounds that are left, `retries + 1` at
-- the start, or none for a negative number; the loop of the stream is structural on the reads that the
-- reader gives. Only the digits of a number use fuel, one more than the number. Numbers that the SDK
-- computes with are natural numbers or integers, but a topK is any number: timeouts, delays, statuses and counts stay far below
-- 2 ^ 53. A surrogate without its partner is encoded as U+FFFD.
--
-- Parameters: the environment (`Env`), the casts of a response's JSON to its type (`Wire`), the
-- callbacks, the base retriever, the parse of a stream's line as a chunk, Express's `next` and
-- `send` (`Host`), the query library's cache (`QueryClient`), which marks the keys as stale that
-- begin with an invalidated key, the decoding of a token's payload and of an event, `<` on a
-- table's values, the array's sort (`Sorting`), and `toLowerCase`, `toFixed`,
-- `parseInt` and `encodeURIComponent` of the pages.
--
-- Not modelled: requests of the client that run at the same time, stack traces, the debug log's
-- time stamp, the decoding of a stream's bytes, the re-exports of index.ts, the response types that
-- are only cast to, the rest of the frontend's pages, the expiry of cookies and the persistence of
-- stores, and the services, which are written in Go and Python.
pub mod Prelude
pub mod Sdk
pub mod Frontend
