-- ===== src/Lib.antt =====
-- Verification library of the Accounting backend: the ledger service and the authentication service
-- with their in-memory stores, the audit log, and the limiter of authentication attempts.
--
-- The program. A request on the ledger goes through `ledger.Service` (backend/internal/ledger),
-- which reads the store, checks the actor's membership and role and the fields, and then writes
-- through the `Store` interface. Books have members with roles, and each book names one of its
-- owners as its primary owner; entries belong to a book and an account and carry an amount in minor
-- units with an optional quoted exchange rate. Listings are answered in pages, and a summary adds
-- up a book's entries in its reporting currency. The authentication routes ask `authRateLimiter`
-- (backend/internal/httpserver) before they do anything else; then they call `auth.Service`
-- (backend/internal/auth), which registers users, checks passwords, one-time codes and second
-- factors, and opens and closes sessions. What happened is told to `audit.Service`
-- (backend/internal/audit), which chains the events of its log by hashes.
--
-- The files.
--   Prelude          Boolean tests, lists, texts, 64-bit words, dictionaries, results and actions.
--   Ledger/Model     backend/internal/ledger/model.go: the records.
--   Ledger/Page      pagination.go: `paginate` and `normalizePage`.
--   Ledger/Money     money.go: `convertAmountCents`, `parseExchangeRate`, `roundRatToInt64`.
--   Ledger/Rates     rates.go: `normalizeExchangeRates`, `exchangeRateIndex`.
--   Ledger/Store     store.go and ids.go: `MemoryStore`. Books has the methods on books and members,
--                    Items those on entries, categories, groups, accounts and rates; Invariant and
--                    Entries/View are about what the writes keep.
--   Ledger/Seed      seed.go: the categories of a new book.
--   Ledger/Service   books.go in Books (reads and checks) and Members (the requests), entries.go in
--                    Entries, EntryChanges and EntryRequests, service.go in Summary and Entries,
--                    the reads of books.go and entries.go in Listings,
--                    accounts_categories.go in Categories and Accounts. Below Categories, Ancestors
--                    is about the loop over the parents, Forest and its siblings about what the
--                    requests keep.
--   Auth/Model       backend/internal/auth/model.go: the records.
--   Auth/Store       store.go: `MemoryStore` of users, sessions, codes and throttles.
--   Auth/Environment service.go: the settings, and the components that the service calls.
--   Auth/Throttle    service.go: the lockout. Auth/Login: `Register`, `Login`, sessions.
--   Auth/Codes       email_codes.go. Auth/Totp: the check of codes of totp.go; Auth/Enrolment: its setup.
--   Auth/Sso         logins with a token of an external provider. Auth/Profile: profiles.
--   Audit            backend/internal/audit: Model, Store, Metadata (what is sanitised), Hashes (the
--                    chain and `VerifyChain`), Service (`Record`, `List`), Snapshot (file_store.go);
--                    Chain and Pages are about them.
--   Imports          backend/internal/imports: Store (batches), Service (`MarkApplied`), Applied about it.
--   RateLimiter      backend/internal/httpserver/auth_rate_limiter.go.
--   Tests            runs on small data.
--
-- How state and operations correspond. A method of `MemoryStore` holds the mutex for its whole body
-- and is a function from a state to a result and a state; one that fails may have written before,
-- so the state comes back beside an error. A request of the service is the reads and checks before
-- its first write, a function of the state (`role_target`, `removal_target`, `entry_context`,
-- `entry_update`), and then its writes (`change_role`, `remove_target`, `create_entry`). One
-- request runs to its end before the next; the service takes no lock around a request, so
-- interleavings of two requests are outside the model.
--
-- Data. A string is the list of its code points, and a byte that is part of none is a number beyond
-- them; JSON replaces such a byte by U+FFFD, which a restart reads. `strings.ToUpper` is written out on ASCII, Latin-1
-- and the two letters outside them whose upper case is ASCII. An `int` or `int64` is its bit
-- pattern below 2 ^ 64 and arithmetic wraps. A `time.Time` is the number of nanoseconds since the
-- zero time. A map is an association list, and a map that Go visits in any order is always sorted
-- before it is answered (`slices.SortFunc` is an insertion sort). `*big.Rat` is a sign and a
-- fraction that need not be in lowest terms. `rat.SetString` is read for the decimals that the
-- program's pattern admits. Errors keep their sentinel and lose their text.
--
-- Parameters. The clock, new ids, tokens and codes are arguments, and one request of the
-- authentication service reads the clock once. `Environment` has what that service calls:
-- `net/mail`, SHA-256, the library of one-time passwords, password hashes, the mail sender,
-- Turnstile, the validator of SSO tokens and the key ring; nothing is assumed of them. `Codec` is
-- what the audit log calls: `encoding/json`, SHA-256, the format of times and `strings.ToLower`.
-- `github.com/google/uuid` is `Uuid`, SHA-256 with `strings.ToLower` is `Digest`.
--
-- Bounds and fuel. Every loop is structural recursion over a list, but for two. The doubling of a
-- lock has its rounds as an argument. The loop over the ancestors of a category has as fuel the
-- number of the book's categories and two: no chain of parents that ends is longer than that number
-- and one. A map of the authentication store is a function from its keys, since it is read and
-- written by key only. The counters of failed attempts are numbers; 2 ^ 63 attempts are out of
-- reach.
--
-- Not modelled. The SQL stores and the file stores but the audit log's, HTTP handlers, the parsing
-- of import files, logging and configuration; in the ledger, the fetch of exchange rates; in
-- authentication, passkeys and the migration of stored secrets. In the audit log two calls of
-- `Record` at once are modelled by their steps, everything else runs one request after another.
pub mod Prelude
pub mod Imports
pub mod Ledger
pub mod Audit
pub mod Auth
pub mod RateLimiter
pub mod Tests
