-- ===== src/Lib.antt =====
-- Verification of parts of yacl: the channel by which two parties exchange messages, the stores of
-- oblivious transfers, the builder of arithmetic circuits with its gadgets, secret sharing, two-party
-- computation, the cuckoo index, and string helpers.
--
-- The channel (yacl/link/transport/channel.cc, channel.h). A user sends values under keys and
-- receives them by key. Each value gets a sequence id, which the key carries on the wire; a thread
-- takes queued messages and starts a task for each, which sends the value in one request or in chunks
-- and tries again when the link fails. The peer stores what arrives, drops what it has seen, and
-- acknowledges what its user has read. Closing waits until both sides have everything.
-- - Channel/Key: the keys (NormalMessageKeyEnforce, ViewToSizeT, BuildChannelKey, SplitChannelKey).
-- - Channel/State: the record Channel for the class's fields, with SendTaskSynchronizer, MessageQueue
--   and ChunkedMessage; the setters; SubmitSendTask and SendAck.
-- - Channel/Receive: OnRequest, OnMessage, OnNormalMessage, OnChunkedMessage, Recv, TestRecv.
--   Receive/Deliver: the way of a message from its arrival to its ACK; Receive/Reach: the sets of ids
--   after any sequence of arrivals of a peer; Receive/Any: after any messages.
-- - Channel/Send: SendAsync, Send, SendAsyncThrottled, ThrottleWindowWait, TestSend, SendThread.
--   Send/Queue: what these leave in the queue and when they return; Send/Order: several calls in order.
-- - Channel/Chunks: SendImpl and SendChunked; Chunks/Splice, Reassemble, Order: the chunks put together
--   again; Chunks/Window: SendChunkedWindow.
-- - Channel/Listeners: IReceiverLoop. Channel/Retry: SendRequestWithRetry and yacl/link/retry_options.h.
-- - Channel/Close: WaitLinkTaskFinish, its four steps, Abort and the destructor; Close/Done and
--   Close/Reached: what holds when the waits end.
-- - Segments: SegmentTree of yacl/utils/segment_tree.h, in which the channel keeps the ids that it has
--   seen; its children treat it as a set (Cover, Merge, Insert, Set).
-- - Decimal: the decimal numbers of keys and control messages (SimpleAtoi of yacl/utils/strings.cc).
--
-- The stores (yacl/ot/slice_base.h, slice_base.cc, ot_store.h, ot_store.cc). A store is a window on a
-- buffer of 128-bit blocks that it may share with other stores, so the buffer is an argument of each
-- operation, and an operation that writes returns it.
-- - Ot/Slice: SliceBase. Ot/RecvStore: OtRecvStore; RecvStore/Slices: slices and
--   what they share; RecvStore/Copies: the copies out of a store.
-- - Ot/SendStore: OtSendStore; SendStore/Messages: the two messages of each transfer.
--
-- The circuits (yacl/snark). A builder makes variables, each with the linear combination of inputs
-- that it stands for, and constraints a * b = c on them; Build numbers the variables and gives the
-- constraint system that a witness satisfies or not. The gadgets are circuits made with the builder.
-- - Snark/Mp: MPInt (yacl/math/mpint/mp_int.h) as integers, with libtommath's modular functions as a
--   parameter. Snark/R1cs: r1cs.cc, r1cs.h; R1cs/Values: what combinations and constraints stand for.
-- - Snark/Builder: CircuitBuilder of circuit_builder.cc; its children give the values of the linear
--   operations (Linear), what assertions assert (Asserts), and that operations only add to a builder
--   (Extends); Values and Denotes: the values of variables modulo a number.
-- - Snark/Builder/Build: RemapLc and Build; Build/Numbering: the numbers of the variables;
--   Build/Entries: the same of the map's entries; Build/Satisfied: the system against the builder's constraints.
-- - Snark/Builder/Witness: ComputeWitness; Witness/Unknown and Witness/Rounds: how its loop goes on.
-- - Snark/Gadgets: gadgets.cc; its children relate each gadget to what it is for (Logic, Bits,
--   Bits/Order, Mimc).
-- - Snark/Poly: the polynomials and poly_ops of qap.cc, qap.h; Poly/Values and Poly/Products: their
--   values at a point; Poly/Division: DivMod. Snark/Qap: LagrangeInterpolate and R1csToQap; its children give the
--   interpolated values (Interpolation, System) and the program of a system (Program).
--
-- Secret sharing (yacl/vss). A secret is the value at 0 of a random polynomial, a share its value at
-- another point; commitments to the coefficients let the holder of a share check it.
-- - Vss: Polynomial of poly.cc, poly.h. Vss/Degree, Low, Combination, Lagrange: why interpolation gives
--   the value of a polynomial back. Vss/Shares: VerifiableSecretSharing of vss.cc, vss.h; Shares/Create and
--   Shares/Recover: the shares of a secret, and the secret from shares. Vss/Commits: the commitments.
-- The source of random numbers and the elliptic curve group are parameters; of the group, a relation
-- says which point is which multiple of the generator, so that a point may have many representations.
--
-- Two-party computation (yacl/mpc/ss_executor.cc, ss_executor.h, types.h). Each party holds one of two
-- words that add up to a value modulo 2 ^ 64. An operation that talks to the peer sends first and waits
-- then, under a tag with a counter that both parties advance: it is a record of what it sends and of what
-- it does with the messages of the peer, and two of these are put together.
-- - Mpc: SSExecutor and its arithmetic operations; Mpc/Arithmetic: what two parties get from them.
--   Mpc/Transfer: RunChosenOT; Transfer/Chosen: what its receiver gets. Mpc/Triples: RunArithOtDirection and
--   PreprocessArithTriples of both parties; Triples/Cross: the products of one direction; Triples/Preprocess: the triples;
--   Triples/Multiply: a product with them. Mpc/Conversion: B2A; Conversion/Value: the value that it keeps.
-- The random words and the random transfers, which OtKernel makes, are arguments.
--
-- The cuckoo index (yacl/coding/batch/cuckoo_index.cc, cuckoo_index.h). It finds for each input one bin
-- that the input hashes to, moving others to their next bin, or puts it into a stash.
-- - Cuckoo/Bin: the encoded bins. Cuckoo: CuckooIndex. Cuckoo/Count: how often an input is stored;
--   Cuckoo/Place: the tries of Insert; Cuckoo/Insert: the whole of it. Cuckoo/Lookup: MinCollidingHashIdx.
-- The product of the number of inputs and the scale factor, a double, is a parameter.
--
-- The string helpers (yacl/utils/strings.cc, strings.h). Strings: BytesToHexString, HexStringToBytes,
-- StrSplit at a character, StrJoin, letter case, StripAsciiWhitespace; its children Hex, Split and Case
-- relate these to each other.
--
-- Base holds what all of these use: bytes, results, association lists for std::map, lemmas on lists,
-- integers (Int), their remainders (Residue) and inverses (Inverse), bits (Bits).
--
-- How the code is read. A handler that holds a mutex is one step, a function from the channel to a
-- result and the channel after it, which a handler that throws has also changed. A method that waits
-- takes the list of what other threads do during its waits, one entry for each wake-up, and gives
-- `none` where it still waits at the end of the list: these loops are as long as their lists. The one
-- loop on fuel is that of ComputeWitness; a round that is not the last gives a value to an entry of
-- var_info_ or to a constraint's right side, so their number and one more are enough. The list of
-- SendRequestWithRetry is of attempts; max_retry + 1 of them are enough. The tries of the cuckoo index
-- are counted down from max_try_count, as in the code.
-- Numbers of size_t, uint64_t and uint32_t wrap around as written; the int64_t of SendChunkedWindow,
-- ChunkedMessage and SSExecutor, which count what fits in memory, do not.
--
-- Variables of circuits are indices that are not negative, and the modulus is positive. A property of a
-- gadget takes any values of the inputs, with 1 at the constant wire.
--
-- Not modelled: the link below the channel, whose outcomes are arguments; logs; the process exit
-- that exit_if_async_error asks for; the memory of a new buffer, which is a parameter; a null buffer pointer
-- of a store, and what a store holds after one of its methods threw. A write or read out of a buffer's
-- bounds is the error `fault`, or `none` where a function has no other error.
mod Base
pub mod Decimal
pub mod Segments
pub mod Strings
pub mod Channel
pub mod Ot
pub mod Snark
pub mod Vss
pub mod Cuckoo
pub mod Mpc
mod Tests
