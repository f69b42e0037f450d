-- ===== src/Lib.antt =====
-- A model of para-mcp, a server that gives notes in PARA folders to language-model clients.
--
-- The program. A vault (internal/core/ports/vault.go) stores the notes of one scope. A note service
-- (internal/application/service.go) stands before one vault: it normalizes paths, refuses foreign scopes
-- and applies templates. A federation (internal/application/federation.go) holds one service per scope in a
-- registry, asks several of them for one page, continues a page by a cursor, promotes notes from one scope
-- to another and hides deleted ones. A local vault (internal/infrastructure/storage/localvault) keeps its
-- notes in a directory of files, with a cache of their summaries, a graph of their links and a full-text
-- index beside them. Around these stand the role registry, the store of cursor handles, the caches of a
-- remote vault, the purger of vectors, the budget of the semantic pipeline and the wait for an index state.
--
-- The files.
--   Prelude: lists, text as code points, integers, association lists, sorting, comparators.
--   Domain: internal/core/domain. Domain/Entities and Domain/Results have its records, Domain/Value the
--     dynamic values of front matter; Domain/Path is path.go, Domain/Filter and Domain/Order filter.go,
--     Domain/Tags normalization.go, Domain/Patch patch.go and noteid.go, Domain/Related scoring.go.
--   Vault: the storage port, as a record of operations over the state `W` of everything behind it.
--   Service: NoteService; Service/Search has SemanticSearch, Related and Stale, Service/Hybrid
--     HybridSearch.
--   Federation: registry.go; Federation/Writes the operations on one vault, Federation/Scopes
--     effectiveScopes and resolveScopesAndOffsets, Federation/Query Query, Federation/Promote Delete and
--     Promote, Federation/Idempotency the cache of promotions, Federation/Tombstones and
--     Federation/TombstoneFile the tombstones in memory and in their file, Federation/Cursor cursor.go;
--     Federation/Deletion is about Delete and Query together.
--     Federation/Search merges the hits of several vaults.
--   Storage: internal/infrastructure/storage. Storage/Notes, Storage/Links, Storage/Graph and Storage/Batch
--     are noteutil: the text of a note, its links, the graph of backlinks, the loop of a batch.
--     Storage/Local is localvault: Storage/Local/Mutations mutations.go, Storage/Local/Queries queries.go,
--     Storage/Local/Scan the indexing of a file in scan.go, Storage/Local/Watcher watcher.go with
--     rename_tracker.go and conflict_detector.go; its other children are about these.
--   Index: internal/infrastructure/index/index.go, with Index/Search for the scores and the hits.
--   Server: internal/server/rbac and internal/server/cursorstore.
--   RemoteVault: the body cache of internal/infra/remotevault/cache.go.
--   Semantic: internal/infra/semantic/tombstone, internal/infra/semantic/budget and
--     internal/infra/semantic/waitforindex.
--   Tests: two small vaults in memory, and a run for each result.
--
-- How code becomes model. An operation that changes state takes the state and returns the new one beside
-- its result, also with an error. Errors are the sentinels of vault.go; a run-time panic is an error of its
-- own. Maps are association lists. The order in which the scopes of a query answer is a parameter, and so
-- are the key that an iteration of a map comes to first, the clock's readings, the random bytes and minted
-- identities, the tables of `unicode`, `norm.NFC.String`, JSON, base64 and HMAC. The operations behind a
-- mutex, and those that an actor runs one behind the other, are one step each. So are a promotion and the
-- removal of a file that the watcher saw, which neither a mutex nor an actor guards: what other calls do in
-- the middle of them is not modelled.
--
-- The files of a local vault are a map from paths to texts. A call of the operating system may be refused,
-- for a reason of its own, and a refused write may leave a part of the content; which calls are refused,
-- what is left and what a symbolic link resolves to are parameters. So are the YAML encoding, BLAKE3, the
-- derived note identities and the arithmetic on the floating-point numbers of a score.
--
-- Bounds and fuel. Four loops do not go along a list: the eviction of the body cache has the length of the
-- list as fuel, which is enough since each turn drops one element; the wait for an index state runs over
-- the polls that it makes; the search for the nearest ancestor that resolves takes at most as many turns as
-- the path has characters; a client that reads page after page is given one more turn than there are notes.
-- Sizes, times and counts do not reach 2^63 in the program and are numbers without a bound; a limit or an
-- offset may be negative. Scores are numbered in their order. Term frequencies stay below 2^24 and sums of
-- processor time below 2^53, where float32 and float64 are exact.
--
-- Not modelled: the MCP handlers, the SQL and object-storage vaults, the HTTP clients and the vector stores,
-- which are calls of other systems; the start and the end of the local vault's watcher and its counters of
-- health; the cache of summaries of a remote vault; the batches of a service and of a federation;
-- statistics and health reports; the workers of the semantic pipeline, derived metadata and the channels of
-- the actor pool.
pub mod Prelude
pub mod Domain
pub mod Vault
pub mod Storage
pub mod Index
pub mod Service
pub mod Federation
pub mod Server
pub mod RemoteVault
pub mod Semantic
pub mod Tests
