-- ===== src/Lib.antt =====
-- The console of VoDoge Cloud (apps/console): its gate and its decisions, as functions with proofs.
--
-- A browser's request meets apps/console/middleware.ts first. It reads the host
-- (apps/console/lib/host.ts), asks the tenant directory (apps/console/lib/tenant.ts), and the session
-- rules (apps/console/lib/session.ts) say whether the visitor passes and with which headers. Behind it
-- the pages read the gateway through the catalog's client (apps/console/lib/catalog.ts), and the
-- browser watches its connection (apps/console/lib/pwa.ts).
--
--   Prelude: the names that all modules share, lists and integers over the native numbers.
--   Text: JavaScript strings as lists of UTF-16 units, and the string methods that the code calls.
--     Text.Laws and Text.Cutting hold their laws.
--   Host: lib/host.ts. stripPort, requestHost, slugFromHost, classifyHost, decideTenantRoute and
--     forwardedClientAddress are strip_port, request_host and so on. Proofs: Host.Laws (labels),
--     Host.Routing (from a host to a decision), Host.Client (the caller's address).
--   Session: lib/session.ts, with encodeURIComponent. Proofs: Session.Laws, Session.Encoding.
--   Json: what response.json() gives, and the readers asString to asNumber of lib/catalog.ts.
--   Assoc: a Map with text keys, in the order of insertion.
--   Tenant: lib/tenant.ts. `resolve` is split at its await into resolve_begin and resolve_end, so that
--     lookups can interleave. Proofs: Tenant.Laws.
--   Middleware: middleware.ts. Proofs: Middleware.Laws.
--   Catalog: the client of lib/catalog.ts; its children hold the rows of each endpoint with their
--     parsers. Proofs: Catalog.Client (what an answer becomes), Catalog.Rows, Catalog.Screen (audit).
--   Ussd: the USSD helpers of lib/catalog.ts (parseUssdResult to ussdCancelRequest); a null state is
--     no_session. Proofs: Ussd.Laws (when a session is open), Ussd.Latest (the last exchange).
--   Esim: the eSIM part of lib/catalog.ts. Esim.Answers parses command results, Esim.Reads has the last
--     reading and listing per chip and module, Esim.Merge the merged table and batches, Esim.Failures
--     the failures. Proofs: Esim.Merge.Apart, Esim.Merge.Profiles, Esim.Merge.Batches,
--     Esim.Failures.Loop,
--     Esim.Failures.Current, and
--     Assoc.Newest on the loops that keep one value per key. localeCompare is the parameter `locale`;
--     Array.prototype.sort is a stable insertion sort.
--     Esim.Download parses the result of a download, Esim.Switch is esimSwitchVerdict of lib/tokens.ts
--     (proofs: Esim.Switch.Verdict), Esim.Panel what components/esim-panel.tsx reads off the commands
--     (proofs: Esim.Panel.Broken).
--   Newest: the loop that keeps the latest of its rows, which several of them share, and its laws.
--   Settings: the settings forms of lib/tokens.ts: readSettingValue, settingsFormValues,
--     coerceSettingValue, settingsDocument; Settings.Fields has the fields and their groups. Number is
--     the parameter `parse` and String, on what is no text, the parameter `show`. Proofs:
--     Settings.Document (what is saved), Settings.Entries (a list through its box).
--   Pattern: regular expressions of the language, as all the rests that they may leave of a text
--     (Pattern.Laws); the engine's own matcher is no code of the repository.
--   Guards: what stands in front of a command in lib/tokens.ts: AT_COMMAND_GUARDS and atCommandGuard,
--     and in Guards.Table DEVICE_COMMAND_GUARDS and deviceCommandGuard. Proofs: Guards.Asked
--     (typed commands), Guards.Unasked (the others,
--     by the list of Guards.Harmless).
--   DeviceConsole: useDeviceCommands of components/device-console.tsx as a machine over events; an event
--     sees what the last one left. Proofs: DeviceConsole.Answered (what may go out), DeviceConsole.Body
--     (what is in it).
--   CardPolicy: the edits of lib/tokens.ts and lib/card-capability.ts, and the machine of
--     components/card-policies.tsx. Proofs: CardPolicy.Asked, CardPolicy.Saved.
--   Consequence: consequenceProblem, assertConsequence and secretInputProps of lib/tokens.ts. Proofs:
--     Consequence.Laws.
--   Navigation: NAV_GROUPS to deviceTabHref of lib/tokens.ts. Proofs: Navigation.Unique.
--   Tones: the badge tones of lib/tokens.ts.
--   Uptime: uptimeSparkline of app/devices/[deviceId]/page.tsx.
--   Settings.Health: fetchSettings and parseChannelHealth of lib/catalog.ts.
--   Catalog.Activity: the sessions, the journal, the alerts and the uptime of lib/catalog.ts.
--   TenantHeaders: lib/tenant-headers.ts.
--   SignIn: app/api/auth/login/route.ts and logout/route.ts. Proofs: SignIn.Granted.
--   Fleet: matchingModems and orderModems of app/devices/page.tsx. Proofs: Fleet.Order, Fleet.Place.
--   Interpolate: lib/interpolate.ts.
--   SmsSafety: lib/sms-safety.ts; the hold is an Option. Proofs: SmsSafety.Laws.
--   TableQuery: lib/table-query.ts. Proofs: TableQuery.Laws.
--   Connection: the monitor of lib/pwa.ts as a machine over events; Connection.Watch decides which
--     requests are events. Proofs: Connection.Laws, Connection.Seen, Connection.Verdict,
--     Connection.Timers, Connection.Listeners.
--   Tests: runs on concrete inputs, and an instance of each theorem with hypotheses.
--
-- Names: a function fooBar of the source is foo_bar. A promise is what it settles to; an exception is
-- a constructor of the result. What the engine or the browser supplies is a parameter: toLowerCase
-- (`lower`), the URL parser, fetch, JSON.stringify, localeCompare, the environment. No hypothesis on these is needed
-- but where a theorem names one. No loop of the model needs fuel: each is structural.
--
-- Not modelled: fractions (a JSON number is an integer or an infinity), the order of integer-like keys,
-- the markup and hooks of app/ and components/, a list where the
-- path of a setting expects an object, the style data of lib/tokens.ts, the generated types of
-- packages/contract, the Go gateway (apps/gateway), SQL and deployment.
pub mod Prelude
pub mod Text
pub mod Host
pub mod Session
pub mod Json
pub mod Assoc
pub mod Tenant
pub mod Middleware
pub mod Catalog
pub mod Connection
pub mod Settings
pub mod Pattern
pub mod Guards
pub mod DeviceConsole
pub mod Uptime
pub mod Interpolate
pub mod Fleet
pub mod TenantHeaders
pub mod SignIn
pub mod Tones
pub mod CardPolicy
pub mod Consequence
pub mod Navigation
pub mod Newest
pub mod Ussd
pub mod Esim
pub mod SmsSafety
pub mod TableQuery
pub mod Tests
