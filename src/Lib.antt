-- ===== src/Lib.antt =====
-- The verification library of redis-in-go, a small Redis server in Go.
--
-- The program. app/main.go reads the RDB file into the store, prepares the append-only files, connects
-- to a master if there is one, accepts connections and gives each a Handler of
-- internal/commands/commands.go. The handler reads bytes, parses them with ParseCommand of
-- internal/resp/parser.go and runs one built-in command at a time. The commands work on the one Store
-- of internal/store/store.go, which holds strings with deadlines and versions, lists, streams and
-- sorted sets, behind a mutex. Clients can wait for a list element (BLPOP) or a stream entry (XREAD) on
-- a channel; a push or an XADD wakes them. A sorted set is a skip list of internal/store/skiplist.go.
-- Published messages reach the subscribers over one channel for each connection.
--
-- The model.
--   Prelude    numbers, lists, Go's int (Prelude/Int) and the ways in which a Go call ends
--              (Prelude/Outcomes: a value, a run-time panic, or blocked for ever)
--   Text       Go strings as lists of bytes; strconv.Atoi, strconv.Itoa, strings.Split, ToLower, and
--              in Text/Scan HasPrefix, Contains, Fields, TrimRight and TrimSpace on ASCII text
--   Bits       the bit operations of Geo, bit by bit
--   Table      Go maps as association lists
--   Resp       internal/resp/parser.go: ParseCommand is parse_command, ReadLine is read_line, and a
--              round of the loop over the arguments is parse_bulk. The encoders of
--              internal/commands/commands.go are in Resp/Encode; Resp/Format is the format of the
--              protocol, written down on its own.
--   Store      internal/store/store.go. Store/State is the state, with a heap of channels; the
--              operations are in Store/Strings (Set, SetWithAbsoluteExpiry, Get, INCR, Watch,
--              CheckWatchedKeysForChange), Store/Lists (RPush, LPush, LRange, LLen, LPop, BLPop, Type),
--              Store/Channels (queues of waiting clients), Store/StreamIds (convertID,
--              resolveStreamID, compareStreamIDs) and Store/Streams (XAdd, XRange, XRead). The other
--              modules of Store are proofs.
--   SkipList   internal/store/skiplist.go: InsertElement, RemoveElementByName, FindElementRank,
--              GetElement and FirstGE on a heap of nodes. SkipList/Float has the order of float64;
--              the other modules are proofs.
--   SortedSets the operations of internal/store/store.go on sorted sets (ZAdd, ZRem, ZCard, ZScore,
--              ZRank, ZRange) and their handlers in internal/commands/commands.go
--   Geo        internal/store/geo.go: Interleave and its inverse
--   Rdb        internal/rdbParser/rdbParser.go: ReadRDBFile on the content of the file, and
--              loadRDBIntoStore of app/main.go. Rdb/Encode is the format, written down on its own.
--   Aof        internal/aof/aof.go: Init, ConfigGet, GetActiveIncrementalFileName and
--              GetActiveIncrementalFile over a map from paths to contents
--   Replica    internal/replica/replica.go: ConnectToMaster, ReadSimpleString, DiscardRDBPayload, with
--              what psyncCmd of internal/commands/commands.go answers
--   Auth       internal/auth/auth.go, and AuthenticateConnection of internal/commands/commands.go
--   Commands   internal/commands/commands.go. Commands/World is what the handlers act on, with
--              HandleModifyingCmd; Commands/Handlers has the handlers that use the store;
--              Commands/Session the state of a Handler, SendResponse, the commands of a transaction,
--              executeBuiltIn and handleCommands; Commands/Stream is HandleIncomingStream with
--              TrackOffset; Commands/PubSub has the PubSubServer and its handlers; Commands/Wait has
--              MasterNode and WAIT, and Commands/Replconf REPLCONF and PSYNC; Commands/Rebuild is
--              RebuildState. The other modules are proofs.
--   Examples   concrete inputs for the theorems, and runs of the model
--
-- Conventions. A function of the source that changes the store takes it last and returns the new one
-- beside its result. The clock is an argument: nanoseconds for deadlines, milliseconds for stream IDs.
-- An int is a ℤ, and arithmetic that can leave 64 bits goes through wrap_int. A float64 is its 64 bits.
-- A map is ranged over in the order of its association list, where Go leaves the order open. BLPop and
-- XRead are split where they wait: the part in front of the wait, and one part for each arm of their
-- select. The random numbers behind the height of a node are an argument, and so are
-- strconv.ParseFloat and FormatFloat, filepath.Join, net.Dial, the hash, and what the buffer of
-- os.ReadFile holds behind the file. strings.ToLower and ToUpper are those on ASCII text.
--
-- A handler that uses the store gives the list of the responses that it passes to SendResponse, and
-- executeBuiltIn sends them. The clock of Commands is a function of the number of readings so far.
-- built_ins has all the names of h.builtIns; the handlers that are not modelled are an argument of the
-- model, others, of which nothing is known unless a theorem says so. SortedSets, PubSub, Wait and
-- Replconf stand on states of their own beside this one.
--
-- Bounds and fuel. EXEC calls executeBuiltIn, and the model bounds the depth of EXEC in EXEC by one:
-- EXEC is never put into the queue. The loop of RebuildState has as much fuel as there are bytes, and
-- each command takes at least one; the loop of ReadRDBFile likewise. HandleIncomingStream has one round
-- for each read and each request. A search in a skip list has as many steps on a level as there are
-- addresses. The printer of numbers takes n + 1 rounds for n, and each round divides by ten. The
-- binary search takes one round more than the list has elements, and each round shortens the
-- interval. A capacity above 2^44 strings is a panic, since 16 bytes each pass the 2^48 bytes that Go's
-- runtime can address.
--
-- Not modelled: the arithmetic of the geo commands on floating-point numbers and their search; the
-- handlers of AUTH, ACL, BLPOP, XREAD, KEYS, CONFIG and INFO; input and output, flags and the accept
-- loop, and what is printed for debugging. A send from XAdd to its waiting clients follows the release of the mutex in the source;
-- here nothing comes in between. That a file or a connection fails in the middle of a write is left
-- out.
mod Prelude
pub mod Text
pub mod Resp
mod Bits
pub mod Table
pub mod Store
pub mod SkipList
pub mod Geo
pub mod Rdb
pub mod Auth
pub mod Aof
pub mod Replica
pub mod Commands
pub mod SortedSets
mod Examples
