-- ===== src/Lib.antt =====
-- kiroxy, a proxy that serves the Anthropic messages API from a pool of Kiro accounts.
--
-- A request is answered in these parts: the pool (internal/pool) picks an account and the vault
-- (internal/tokenvault) has its tokens; the upstream's events (internal/kiroproto) are gathered by a
-- response accumulator (internal/respconv) that applies the client's stop sequences and token budget; the
-- SSE writer (internal/respconv/streaming.go) turns what each event adds into server-sent events; and
-- the messages service (internal/messages) normalizes the conversation and calls the upstream, with one
-- account after the other while that fails, and decides whether the client gets that stream, an
-- error in its place, or a second attempt. What the upstream did to an account goes back to the pool.
--
-- Prelude       names of the standard library, Boolean tests, lists over native numbers, byte strings
-- Strings       the functions of Go's strings and unicode/utf8 that the code calls, on lists of bytes
-- Tokenvault    internal/tokenvault/vault.go. The table is a list of rows; each call is a function from
--               the table to the table and a result (get, save, reserve, commit, commit_with_meta_patch,
--               release, delete), and refresh takes what other callers do during its upstream call. A
--               `Faults` value says which database calls fail. Sql has the statements, Machine the
--               life of one credential as a step relation, Contract what each call may write and
--               answer; Transitions, Generations and Locks are about these.
-- Pool          internal/pool/pool.go (Pool, Pool/Selection for Pick, Pool/Failures for the Record
--               methods) and internal/pool/stickiness.go (Pool/Stickiness). Maps are lists in the order
--               in which they are ranged over, and nothing is assumed of that order.
-- Respconv      internal/respconv: ThinkingTags (thinking_tags.go), ChunkDelta (chunk_delta.go),
--               Accumulator (accumulator.go, token_budget.go, stop_sequence.go, usage.go), Events
--               (event_processor.go), Streaming and Streaming/Handler (streaming.go). The writer's state
--               holds the list of the events written; Streaming/Protocol is the reader's grammar.
-- Kiroproto     internal/kiroproto: Frame (frame.go) reads one frame from the bytes that are left, Headers
--               (frame.go) walks its headers, ToolUse (tooluse.go) puts the fragments of tool calls
--               together, after their JSON is decoded, and Stream (eventstream.go) is the loop over the
--               frames, which gives the events to a callback with a state of its own.
-- Messages      internal/messages: Messages (response.go) is the callback of the stream and the outcome,
--               Upstream puts the parser before it. Errors (execute.go, and aws_error.go of
--               internal/kiroclient) classifies the errors of a call; Rotation (execute.go) is the loop
--               over the accounts, on a World of operations that stands for the upstream, the clock, the
--               accounts and the client; and Retry (execute.go) the second attempt. A run keeps a log of
--               what was done, the latest first, which its theorems are about. Pooled puts the pool into
--               the world.
-- Reqconv       internal/reqconv: Text (content_text.go) and Normalizer (message_normalizer.go) make a
--               conversation alternate, Payload (build_payload.go) splits it, ToolResults
--               (tool_results.go) gathers and orders the results of tools. The blocks are those of
--               internal/anthropic/types.go.
-- Openai        internal/openai: Content, Messages and Request (translate_request.go, models.go) take a
--               chat completion's request to a message's; Response (translate_response.go) takes the
--               answer back. Frames, Events, Stream and Translate (translate_stream.go) do so for a
--               stream: its frames are cut and read, their JSON is decoded by parameters, and each event
--               changes the translator and writes chunks. Stream/Reader has what a client makes of them.
-- Toolsearch    internal/toolsearch: the deferred and the active tools of a request (context.go) and the
--               search that finds them (Toolsearch/Search, search.go). Messages/SearchRounds
--               (internal/messages/toolsearch.go) is the loop that answers the model's searches, on the
--               blocks of Respconv/Streaming/ToolSearch (streaming_toolsearch.go).
-- Models        internal/models/models.go; Tiers has internal/models/tier.go, the tier of
--               internal/kiroclient/usage.go and the gate of internal/messages/tier_gate.go.
--
-- State is passed explicitly. Times are numbers of nanoseconds since Go's zero time; strings that the
-- code only compares are strings, strings it looks into are lists of bytes. The counts of runes and
-- tokens are natural numbers without a bound; the product of a cooldown and its multiplier wraps as an
-- int64 does. The tag parser's loop has fuel, one more than the bytes in its buffer, and each round
-- but the last takes a tag from the buffer; the border search of the chunk delta has the length of the
-- border as its fuel, which each step shortens. The stream parser has one round for each byte and one,
-- and each frame takes 16 bytes; the header walk has a round for each byte; the name of a model is
-- resolved in one round for each byte and one; the searches for tools have three rounds, as in the
-- source; the rotation has as many rounds as the larger of the retries and 3, to which the retries may
-- be raised. The backoff of a rotation is shifted as an unsigned number of 64 bits: the source's is
-- signed, and panics once it overflows, after waits of centuries.
--
-- Parameters stand for what is not modelled: the frame checksum, new UUIDs, the decoders of the JSON
-- payloads, JSON validity, the texts of HTTP statuses and of HTTP/2 error codes, strings.ToLower, the
-- metadata patch, whether a write to the client fails, the upstream's refresh call, the token lookup
-- of Pick, the weights of the accounts' rolling health and the random draw (both floating point, here
-- numbers of a common unit), the overage headroom of an account, the estimate from the context usage,
-- strings.TrimSpace, the decoding of base64, regular expressions, the sort of search results, and the
-- scores that rank them (floating point, here numbers).
--
-- Not modelled: keepalive pings, which may stand between any two events; strings that are not valid
-- UTF-8 where they are marshalled; an error of the flush when the gate is promoted, which the code
-- ignores; locks, since each operation holds its lock throughout; metrics and
-- logs; the capture of requests; the rest of request conversion, the searches of a request that is not
-- streamed, the HTTP server and the dashboards.
pub mod Kiroproto
pub mod Messages
pub mod Models
pub mod Openai
pub mod Pool
pub mod Prelude
pub mod Reqconv
pub mod Respconv
pub mod Strings
pub mod Tokenvault
pub mod Toolsearch
