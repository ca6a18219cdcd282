-- ===== src/Lib.antt =====
-- edgedb-go: the Go driver for EdgeDB, modelled over explicit state.
--
-- A query travels through four layers. internal/client borrows a connection, reconnects it, and
-- tries queries and transactions again; internal/codecs turns Go values into bytes and back;
-- internal/buff frames the bytes into messages; internal/soc reads the socket in chunks.
--
-- - Common: numbers, lists and options over the native numbers, big-endian words, and Outcome, what
--   a Go call comes to: a result, a returned error, a panic, or a receive that blocks.
-- - Buff.Writer is internal/buff/write.go and Buff.Reader internal/buff/read.go, one function per
--   method; Buff.Reader.Feed has Next and feed. A slice is a list whose capacity is its length.
-- - Client.Errors is internal/client/error.go, Client.Retry the RetryRule and RetryOptions of
--   options.go, Client.Borrow borrow.go, Client.Reconnect reconnect.go, Client.Tx transaction.go with
--   the TxOptions, and Client.Transactable transactable.go. Client.Env is what they stand on: the
--   protocol connection, the clock, the random numbers and the cache of capabilities, whose functions
--   are parameters.
-- - Client.Protocol is the flows of messages on one connection: its errors and strings, with Headers for
--   the headers of scriptflow.go, Errors for wrapAll, Warnings for warning.go, Messages for
--   decodeErrorResponseMsg and fallthrough.go, Loop for the loop over `r.Next` that all flows share, and
--   Script for execScriptFlow. Granular has the messages of granularflow2pX.go, Parse its parse2pX
--   and Execute its execute2pX; the calls on the caches are a list, and building codecs is a
--   parameter. The types that errorFromCode makes of a code are the code. A
--   strconv.Atoi, a strings.Split and a rune count are written out.
-- - Client.Pool is the pool of connections of internal/client/client.go: the calls of acquire, release
--   and Close of any number of goroutines and the timers of idle connections are events of a step
--   relation, in Client.Pool.Steps. Balance counts its tokens, Limits draws the bounds from that,
--   Owners says who holds a connection, and Closing what Close waits for.
-- - Cache is internal/cache/cache.go: the pointer code on a heap of nodes. Ring, Keys and Pointers are
--   about its rings and its map, Recency is the list of entries that it promises, Refinement, Eviction
--   and Storing show that Get and Put keep to that list, and History is about sequences of calls.
-- - Codecs.Interface is what a codec is to the codecs that contain it, with internal/codecs/utils.go.
--   Codecs.Scalars has the codecs of numbers.go, bool.go, str.go, uuid.go and of datetime.go that copy
--   words, and Codecs.Array those of array.go. Reflection on Go values is a data type of the arguments
--   that the code tells apart; a Go integer or float is its bit pattern.
-- - Descriptor is internal/descriptor/descriptor.go, with the protocol versions of internal/internal.go
--   in Descriptor.Version. Descriptor.Pop has Pop, on fuel: a round for each byte and one more are
--   enough. Descriptor.Wire says of what blocks a description consists and what they mean, without
--   Pop; Descriptor.Reads and the modules under Descriptor.Pop relate the two. Descriptor.PopV2 is
--   descriptor_v2.go, with Descriptor.WireV2 in the same way.
-- - Examples holds the theorems at concrete inputs.
--
-- The loops of reconnect, tx and granularFlow have no bound in the source and run on fuel here; the
-- theorems of Client.Transactable.Bounds, Client.Transactable.Queries and Client.Reconnect.Laws say how
-- much is enough. The loop of Put in the cache runs on fuel as well, and two rounds are enough.
-- The loop over the messages of a flow runs on fuel too: a round for each message and two more are enough.
-- Messages of errors are constructors, one for each text. Not modelled: the socket and TLS, the granular
-- flows of the older protocols, parsing of connection parameters, codecs that need
-- reflection or the standard library's number parsers, and the code generators.
pub mod Common
pub mod Buff
pub mod Cache
pub mod Client
pub mod Codecs
pub mod Descriptor
pub mod Examples
