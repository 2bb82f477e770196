-- ===== src/Lib.antt =====
-- Verification of the Go utility packages of this repository: models of the parts that keep state
-- or compute something of their own, and theorems about what they promise.
--
-- How the parts interact. The maps of sync/ are the base of the stores in tmplKV/ and of
-- sync/MapExceeded.go; the stores also take ids from idpool/. slice/SliceIndex.go reads and writes
-- windows of a Go slice, as slice/Slice.go does with its own array. decoder/mp4 reads its lengths
-- with decoder/tool. The packages bools, errors, funcCtrl, keyFunc, msgq, pool, reqf, signal and
-- xml stand alone; limit uses signal only to close.
--
-- Which file models which part:
--     - Slice/GoSlice.antt: Go slices: a window of memory with a length and a capacity, append
--     with the growth that the runtime chooses (a parameter), copy and reslicing;
--     GoSlice/Laws.antt has their laws.
--     - Slice/Buf.antt: slice/Slice.go, one function per method (Append is append_data,
--     BufAppendsI is appends, the fields data, bufsize, maxsize and modified keep their names).
--     Buf/Spec.antt is the abstract buffer, a list with a limit.
--     - Slice/Ops.antt: slice/common.go, the loops by recursion on the slice.
--     - Slice/Index.antt: slice/SliceIndex.go, SliceIndexNoLock; a part is a pair of positions in
--     the source slice.
--     - Sync/Map.antt: sync/Map.go; Sync/Exceeded.antt: sync/MapExceeded.go, whose entries are
--     pointers, so the items are a function from addresses; Sync/LoadOrInit.antt:
--     sync/LoadOrStoreFunc.go.
--     - IdPool.antt: idpool/Idpool.go. TmplKv/KvStore.antt, TmplKv/KStore.antt,
--     TmplKv/VStore.antt: tmplKV/tmplKV.go, tmplKV/tmplK.go, tmplKV/tmplV.go; TmplKv/Times.antt
--     has their comparisons of int64 values.
--     - Bools/BoolS.antt: bools/BoolS.go, the evaluator of rules; Bools/BoolS/Names.antt has the
--     names that a rule asks the map for.
--     - Pool/Blocks.antt: pool/Blocks.go, with a buffered channel as a list; Pool/Items.antt:
--     pool/Pool.go.
--     - Decoder/Integers.antt: decoder/tool/B_I.go; Decoder/BitsReader.antt:
--     decoder/tool/bitsReader.go, with the bits of the data as a list in
--     Decoder/BitsReader/Numbers.antt. Decoder/Mp4.antt: searchBox and decode of
--     decoder/mp4/main.go; Decoder/Mp4/Dealing.antt: deal and deals; Decoder/Mp4/Init.antt:
--     Init_fmp4. Decoder/Mp4/Boxes.antt has trees of boxes and their bytes, which the code does
--     not name.
--     - Msgq.antt: msgq/Msgq.go, the list of registered functions with its two flags, and the
--     goroutines that wait to run removeDisable. Msgq/Tags.antt: the functions that register by a
--     tag, and their cancel functions. Msgq/Serving.antt and Msgq/Stopping.antt have traversals of
--     the list that say which functions a push calls.
--     - KeyFunc.antt: keyFunc/keyFunc.go; a trace is the list of its nodes, the last first.
--     - Xml.antt: xml/decoder.go, the decoder byte by byte.
--     - Errors.antt: errors/errors.go, Join and Catch on trees of errors.
--     - FuncCtrl.antt: SkipFunc and FlashFunc of funcCtrl/FuncCtrl.go; FuncCtrl/BlockN.antt and
--     FuncCtrl/BlockSeq.antt: BlockFuncN and BlockSeqFunc, with one step for each send, receive,
--     swap and close of a caller.
--     - Limit.antt: limit/Limit.go, with steps of the goroutine of New and of the callers of TO.
--     - Reqf/CookieDomain.antt and Reqf/Cookies.antt: reqf/cookie.go, the check of a domain name
--     and the conversions of cookie strings.
--     - Signal.antt: signal/Signal.go, with Wait, WaitC and Done split into steps that other calls
--     may come between; Signal/Steps.antt runs them in any order.
--     - Common.antt and its children: Boolean tests, lists and integers over the native numbers,
--     association lists with a key equality (Common/Keys.antt), and the conversions between bytes
--     and runes (Common/Utf8.antt). They model no code.
--
-- Conventions. A function that may panic returns an Option, and none is the panic (in VStore a
-- lock taken twice, in Blocks also a blocked send). int values that the code never lets become
-- negative are natural numbers, others are integers with pos and negsuc. A subtraction stops at 0
-- only where the code has tested for it or where a comment says what stands there. Arithmetic that
-- may wrap is written out: the counters of Decoder/BitsReader.antt (a uint8), the modification
-- counter of Slice/Buf.antt (modulo 2 ^ 64) and the end of a life in TmplKv/Times.antt (an int64).
-- Go maps and sync.Map are lists of entries with distinct keys, and a range visits them in the
-- order of that list. Theorems on a call or a loop hold for every list; in a run from a new state
-- the entries stand in the order of insertion, except that each Get of Pool/Items.antt is given
-- the order of its range. A pointer is a number.
--
-- Fuel. The loop of Check in Bools/BoolS.antt runs on fuel, one round more than the rule has
-- bytes; each round reads a byte, and Bools/BoolS/Total.antt shows that it is enough. getTrace in
-- KeyFunc.antt takes fuel for a round and for a nested call; KeyFunc/Ends.antt counts the keys
-- that have no node yet and shows how much is enough. decode in Decoder/Mp4.antt takes one round
-- for a box; Decoder/Mp4/Decoding.antt shows that one more than there are boxes is enough for
-- well-formed input, and Decoder/Mp4/Faults.antt that none is for a box of length 0. The loop that
-- counts zeros in Decoder/BitsReader.antt takes one round more than the data has bits, and each
-- round reads a bit. All other loops are structural recursion: those of msgq/Msgq.go go over the
-- elements that the list has when they begin, since the list only loses elements while they run.
--
-- Parameters. The growth of an array in append, the pointer or Id that sync.Pool, New or new
-- gives, the callbacks (with the state that they share as an argument and a result),
-- bytes.TrimSpace, the equality of keys and values (with the law that it is equality), and the
-- clock, which is a field that a caller sets or an argument. MapExceeded subtracts one second from
-- the time of a clock that has run for at least that long.
--
-- Not modelled: the interleaving of goroutines (calls run one after the other, as under the locks
-- of the code; only Signal.antt, Limit.antt and the children of FuncCtrl.antt have finer steps,
-- and in Msgq.antt the goroutines of removeDisable run at any time between the calls), floats (and
-- so Search_stream_fmp4), loops over foreign readers and writers, time limits, and the packages
-- that only wrap the operating system, the network or third-party code: websocket, web, rpc, sse,
-- get, sql, log, file, compress, crypto, hash, sys, linuxwin, component and the root package.
-- Planned next: errors/v2, the dealer of copies of io, and the rest of slice/.
pub mod Bools
pub mod Common
pub mod Decoder
pub mod Errors
pub mod FuncCtrl
pub mod IdPool
pub mod KeyFunc
pub mod Limit
pub mod Msgq
pub mod Pool
pub mod Reqf
pub mod Signal
pub mod Slice
pub mod Sync
pub mod TmplKv
pub mod Xml
