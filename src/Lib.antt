-- ===== src/Lib.antt =====
-- alib-fetcher reads the listings of second-hand books that Alib.ru publishes, keeps them in a bbolt
-- database, and sends a digest of the new ones to a Telegram chat. This library is a model of its
-- core logic with the theorems that make it correct. Paths are those of the repository.
--
-- The parts, and how they work together. One cycle of the service (internal/app/service.go) prunes
-- the database, fetches listings, records them, takes the pending ones, has them rendered into
-- messages (internal/digest/render.go), sends one message after the other, and marks the books of
-- each message once it is accepted (internal/store/store.go). A fetch reads the pages listing by
-- listing (internal/alib). The process (internal/process) decides when a cycle runs, so that a
-- recipient has one at a time. The command (cmd/alib-fetcher) makes the recipients of a configuration
-- that is accepted (internal/config), with one client of Telegram (internal/telegram) for each token.
--
-- Base: the names of the libraries that are used, Boolean tests, lists over the native numbers,
--   signed integers, texts, and the stable sort of `sort.SliceStable` (Base.Sorts); results with
--   errors (Base.Outcomes); what is used of `strconv` (Base.Numerals) and `strings` (Base.Strings).
-- Alib.Book: internal/alib/book.go, `Book` and `Photo`. Alib.Legacy: `UnmarshalJSON`, which converts
--   the records of older versions.
-- Alib.Parser: internal/alib/parser.go, how one paragraph is read. Texts: the texts and attributes of
--   nodes. Lines: `logicalLines` and `findNode`. Year: `parsePublicationYear`. Sale: the parts of a
--   listing, `parseBibliography`, `parseSeller`, `parsePrice`, `parseDescription`. Listing:
--   `listingNodes`, `parseBook` and `parseListing`.
-- Alib.Listings: internal/alib/parser.go, `parseState` and the loop of `ParseWithResult`, and
--   internal/alib/client.go, the merging of the pages in `FetchWithResult`.
-- Html: the tree that golang.org/x/net/html returns.
-- Digest.Markup, Digest.Item: internal/digest/render.go, the markup of texts, links, sellers, photos
--   and of one listing (`renderMultilineText`, `renderLink`, `publicationEmoji`, `renderBook`).
-- Digest.Limits: `renderedRuneCount`, `exceedsTextLimits`, `truncateContent` and `RenderBook`.
-- Digest.Chunks: `RenderSendable`, `appendBook`, `renderFailureSummary`; Digest.Chunks.Laid: how the
--   text of a message is made up of books, rules and a note.
-- Store.Record: internal/store/store.go, the records, `decodeRecord`, `validateRecord`, and results
--   with errors. Store.Bolt: the bucket as a record of operations with the documented laws of bbolt
--   (go.etcd.io/bbolt), and the transaction around a function that may fail.
-- Store.Discover, Store.Pending, Store.Sent, Store.Latest, Store.Migrate: `RecordDiscovered` and
--   `Existing`; `Pending`; `MarkSent` and `Prune`; `DeleteLatest`; `Open` with
--   `migrateLegacyMarkers`. Each has child modules for what is proved of it.
-- App.Ports: internal/app/service.go, `Dependencies` and the interfaces `Fetcher`, `State`, `Sender`
--   and `FreshBooksPolicy`, as functions on a world that stays abstract. App.Deliver: `send`,
--   `retryDelay` and the loop over the chunks. App.Service: `renderAndSend`, `recordableFetched`,
--   `sortPending`, `existing`, `renderOptions`. App.Run: `Run`. App.Stored: the service over the
--   modelled database, which fills the laws that the theorems on the service ask of a `State`.
-- Process.Runner: internal/process/runner.go, `digestRunner` as the steps of its goroutines.
-- Process.Reload: internal/process/reload.go, one round of `RunReloadable` (`reloadGeneration`).
-- Process.Routing: internal/process/callbacks.go, which recipient a button belongs to
--   (`handleGroupedCallback`, `matchesExpectedChat`), and the groups that share a client.
-- Config.FreshBooks: internal/config/config.go, `FreshBooksPolicy` and `parseFreshBooks`.
-- Config.ChatId, Config.Paths, Config.StateFiles: internal/config/config.go, `normalizeChatID`;
--   what is used of `path/filepath` on Unix, with `resolveStateDir`; `validateStateMappings`.
-- Config.Search: internal/config/search.go, the fields of the form (Fields), what a search may ask for
--   (Checks), `url.QueryEscape` (Encoding), and the URLs (Urls).
-- Config.Settings: internal/config/config.go, `validate`, `validateChats` and `LoadForMaintenance`.
--   Config.Documents: the keys of a document, `validateDocumentKeys`.
-- Telegram: internal/telegram/sender.go, `sanitizeError` (Secrets), `responseLimitBody` (Responses),
--   `normalizeSDKCallError` (Errors), and the settings of a client (Client).
-- Alib.Client: internal/alib/client.go, `NewClient`.
-- Command: cmd/alib-fetcher/main.go, the options (`validateCommandOptions`) and the recipients that
--   `runtimeFactory.snapshot` makes of a configuration (Snapshot).
-- Tests: an in-memory bucket that meets the laws of bbolt, runs, and each theorem that has
--   hypotheses at a concrete input.
--
-- Representation. A Go string is the list of the code points of a valid UTF-8 text; its size in
-- bytes is computed. Times are nanoseconds since 1970 as signed integers without a bound, which is
-- what the database stores of them. Counts are natural numbers. A value of the database is a record,
-- something else in braces, or an old marker: this is what the program can tell of it. A context is
-- the row of answers to the polls that a call makes. An operation returns its result or its error
-- and the bucket; errors carry the key or the wrapping text, not the whole message.
-- `sort.SliceStable` is modelled as stable insertion; on a comparison that is an order every stable
-- sort returns the same list.
--
-- Fuel and bounds. The search of `truncateContent` has one round more than the content has runes,
-- and `decimal` as many rounds as the number and one more; both are enough, since every round halves
-- the interval or drops a digit. `send` takes the number of attempts as fuel, because the program
-- retries as long as the adapter asks it to; it returns with any fuel that exceeds the number of
-- attempts that another one follows.
-- The loop of `parsePublicationYear` has the number of runes as fuel, since every round passes one.
--
-- Not modelled: the downloads and their retries (`Client.downloadPage`), the loop of
-- `RunReloadable` around its rounds, the goroutine of a generation, the reading and decoding of
-- the configuration file (`readRaw`), the calls of the SDK of Telegram and its updates
-- (internal/telegram/updates.go), the parsing of the command line and `Prepare` in
-- cmd/alib-fetcher, the scheduler, logging, the wording of errors, and everything under vendor.
-- Parameters are the parser of golang.org/x/net/html, the parsing and the resolution of addresses
-- of net/url, the classes and the lower case of Unicode, the normal form NFC, Windows-1251, the
-- decoders of JSON and TOML, cron expressions, time zones, durations, the file system, bbolt, the
-- errors of the SDK, the clock, the contexts and the network.
pub mod Base
pub mod Command
pub mod Config
pub mod Html
pub mod Alib
pub mod App
pub mod Process
pub mod Digest
pub mod Store
pub mod Telegram
pub mod Tests
