-- ===== src/Lib.antt =====
-- AHP inspector: a viewer for logs of the agent host protocol. A log is a file of JSON messages, one a
-- line, with a direction each. A line becomes an event, an event is appended to a store, requests are
-- paired with their responses, and the server answers queries on the store, among them what the state
-- of the agent host was at an event.
--
-- The files, and the code that each models:
--   Shared/Event, Shared/Correlation, Shared/ParseError: packages/shared/src/event.ts, correlation.ts
--     and parse-error.ts. Shared/Json is the `unknown` that JSON.parse returns, with the tests
--     `typeof`, `in` and Array.isArray that the program makes; Shared/Stringify is JSON.stringify.
--   Parser/SplitLines, Parser/Splitter: the class LineSplitter of packages/parser/src/jsonl.ts. One
--     call of `pushDetailed` is four stages, each of which may return early, and then the loop over the
--     units. Parser/Normalizer and Parser/Extract: normalizer.ts and extract.ts beside it.
--   Core/Store: packages/core/src/event-store.ts; Core/Store/Notify its subscribers.
--   Core/Correlator: packages/core/src/correlator.ts. Core/Correlator/Runs joins store and correlator
--     in a step relation: an event comes, time passes, changes are drained, the log is rotated.
--   Core/Replay: packages/core/src/replay.ts, in the order of the code: Decode (what is read from a
--     value), Legacy (states of the historical shape), Snapshots, Apply (an action envelope and its
--     sequence number), Events (responses, reconnects, intents), Run (the loop).
--   Server/StateReplayIndex: packages/server/src/state-replay-index.ts, the cache of replays.
--   Server/SearchIndex: packages/server/src/search-index.ts. What other code does to the index while a
--     search waits at a yield is a list of changes, given for each yield.
--   Core/Row, Core/Labels, Core/Projection: the row of an event, packages/core/src/row-projection.ts.
--   Parser/Line: parseLine of packages/parser/src/jsonl.ts, and wire-meta.ts beside it.
--   Server/Frames, Server/AppState: packages/server/src/app-state.ts. Frames are the payloads of the
--     stream, Rows the listener of the store and the timer, Ingest the way from a chunk to the store,
--     Calls the calls that reach an open log. A frame that is emitted is an entry of `sent`.
--   Ui/Store, Ui/Stream: the client's store, packages/ui/src/state/store.ts, and its end of the stream,
--     packages/ui/src/transport/sse-client.ts. A reducer that throws gives `none`.
--   Server/LogStream: the stream of packages/server/src/sse-routes.ts, its queue and its snapshot.
--   Pipeline: an open log, its stream and a client of it together.
--   Ui/Filters: the selection of rows in packages/ui/src/state/filters.ts and selectors.ts. Ui/Grouping:
--     the rows under headers, selectors.ts.
--   Base: shared helpers. Base/Maps is JavaScript's Map, with its order of insertion; Base/Int the
--     integers; Base/Text the decimal text of a number. Tests: runs and applications at examples.
--
-- How state is modelled: an object is a record, a method a function from the state before to the state
-- after, beside what it returns; an exception is a value of the result; a callback is the list of its
-- calls. An object that several places share and change is the entry of the map that holds it.
--
-- Numbers: counters, indices and byte counts are natural numbers. The numbers of a message are
-- integers: the program compares and adds sequence numbers, times and ids, and the fractional or
-- huge numbers that JSON allows are not modelled. The status flags of historical sessions are 32-bit
-- patterns. A loop is a recursion on a list, on the width of a range, on the three attempts of a
-- search or on the 50 frames of a batch. Only the loop over the chunks of a snapshot has fuel, the
-- number of its rows; since a chunk takes at least one row, it is enough.
--
-- Parameters: packages/protocol is a copy of another project's library, so its reducers and its
-- table of actions are the record `Protocol` of Core/Replay. The cache takes the identity of events
-- and the size estimate of a replay, which depend on which objects are shared, from the record
-- `Host`; the search index and the filters take `toLowerCase`. An open log takes JSON.parse, the
-- streaming TextDecoder, the inference of a direction, the clock and the summary of an event from
-- the record `Runtime`, and the labels atob, decodeURIComponent, Date.parse and toLowerCase from
-- `TextLibrary`. The clock is asked once for each event. A share and the digits of `toFixed` are
-- computed exactly, where JavaScript rounds floats. The size of a frame is a parameter of the
-- stream, since it is that of its JSON text. A slice of a string that would cut a surrogate pair in
-- two leaves it out.
--
-- Not modelled: the components of the client (packages/ui), its persistence, the command line and
-- editor (packages/cli, packages/extension), log discovery and tailing (packages/host-node), the
-- server's other routes and its sessions, the disposal of an open log, an end in the middle of a
-- snapshot, the narrowing and summaries of packages/core, and the older log format.
pub mod Base
pub mod Shared
pub mod Parser
pub mod Core
pub mod Server
pub mod Ui
pub mod Pipeline
pub mod Tests
