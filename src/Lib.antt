-- ===== src/Lib.antt =====
-- HTram: an aggregation library for Charm++ programs. A client sends many small items; the library
-- holds them back, packs those for one destination into messages, and sends a message when it is
-- full or when a flush asks for it.
--
-- The program's parts, and the file that models each:
--   htram_group.h, HoldQueue                        HoldQueue
--   htram_group.h, holdPush/holdEmptied/holdNext    HoldBits (the bitmap), Hold (bitmap and queues)
--   htram_group.h, item, HTramMessage               Message
--   htram_group.C, one destination: trim, shipBuffer, insertValueWPsTo, insertBucketsByDest,
--     sendItemPrioDeferredDest                      Port
--   htram_group.C, one destination: flushDest and the passes of tflush   Flush
--   htram_group.C, one PE: changeThreshold, setBufferSize, setHistoBucketCount   Htram
--   htram_group.C, one PE: tflush, flushStale, flushIdle, admittedDrift, pendingItems, countBuffers
--                                                   Htram/Flushes
--   htram_group.C, one PE: the constructor, the choice of a destination, a client's calls   Htram/Api
--   htram_group.C, insertValue                      Port/Value
--   htram_group.C, HTramRecv::receive, HTram::receivePerPE   Receive
--   htram_group.C, HTramRecv::receive_no_sort, HTram::receiveOnPE   Receive/Presorted
--   htram_group.C, onQD, countBuffers, onBufferCount   Quiesce
--   htram_combine.h, the table of CombiningHold     Combine/Cells
--   htram_combine.h, CombiningHold                  Combine
--   htram_group.C, one destination with combining on: enableCombining, releaseFull, flushDest,
--     sendItemPrioDeferredDest, changeThreshold      Combined
--   smp_ig.C, histo.C, the word of an index          Pack
--   smp_ig.C, class Updater                         Pack/Gather
--   histo.C, class Updater                          Pack/Histo
-- Prelude has the shared types and lemmas, Env the parameters, Sample a small instance to run.
--
-- A Port is the state of class HTram that belongs to one destination d: msgBuffers[d], tram_hold[d]
-- with its words of hold_bits, updates_in_tram[d] and full_sends[d], beside the PE's statistics and
-- the messages sent to d so far. An operation on d is a function of Ports. A Lane is a Port less the
-- statistics; an Htram is a PE: its settings, its statistics, and one Lane for each destination in
-- use. A send to the Charm++ runtime appends to the messages sent; nothing is read back from it.
--
-- The build is the graph build (BUCKETS_BY_DEST and ADD_FILLERS), with items that carry their
-- destination PE, the modes WPs and WW. But for Combine and Combined, combining is off.
--
-- Parameters (Env): the client's callback get_dest_proc, C's float with its product and comparisons,
-- the message layout. Where a proof needs it, the comparisons of an int with a float are taken to be
-- monotone in the int, and `<` and `>` to exclude each other (FloatLaws).
--
-- Integers: counters of items (updates_in_tram, next, the sums of the reports) are unbounded here;
-- the code keeps them in int, which they fit while a PE has fewer than 2^31 items. The byte counters
-- wrap at 2^64. What smp_ig.C stores in an int is cut to 32 bits. A bitmap word has 64 bits. A PE
-- index and a bucket are natural numbers.
--
-- Loops: a loop over the buckets runs on fuel, the number of buckets, and goes up by one bucket at
-- least in each round; a loop that empties a queue runs on the queue's size, and takes one item in
-- each round. So the fuel is never what stops a loop.
--
-- With combining on, what tram_hold had when it was turned on stays there: no operation of Combined
-- looks at it, and no code sends from it then. A read past the end of live_ is `none`.
--
-- A search of the combining hold's table runs on the table's length; it ends at an empty slot, of
-- which a valid hold has one. The stamps of its entries wrap at 2^32, and the theorems that need it
-- say that none is at the end. The loops of releaseFull and flushDest with combining on run on the
-- hold's count and one more: a round that goes on ships an item of the hold at least.
--
-- The weight of a state (contents, pe_contents) is a sum over all items sent, buffered and held,
-- for an arbitrary weight of items. Equal weights under every weighting mean the same items, as often.
--
-- Not modelled: the modes WsP and PP, tflush, flushStale and the reports with combining on,
-- coarsenBuckets, the build without BUCKETS_BY_DEST, reset_stats, the latency statistics, the rest of
-- the client programs histo.C and smp_ig.C, and the Charm++ runtime with its delivery and quiescence
-- detection.
pub mod Prelude
pub mod HoldQueue
pub mod HoldBits
pub mod Hold
pub mod Env
pub mod Message
pub mod Port
pub mod Flush
pub mod Htram
pub mod Receive
pub mod Quiesce
pub mod Combine
pub mod Combined
pub mod Pack
pub mod Sample
