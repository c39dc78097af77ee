-- ===== src/Lib.antt =====
-- A model of plot-thread, a ledger of plots (blocks) of representations (transactions), with the
-- theorems that its parts are correct.
--
-- Representations are signed statements by which a sender gives 1 of its imbalance to a recipient.
-- The processor checks them and puts them in the representation queue, whose imbalance cache shows
-- the imbalances as if the queue were confirmed; it checks plots and their targets. The ledger
-- stores confirmed imbalances and indices in LevelDB. The indexer keeps the graph of who represents
-- whom, which the queue asks for cycles. Peers queue plots for download; the addresses of peers, with
-- the times of attempts and successes, are in a LevelDB of their own.
--
-- Representation       representation.go, and checkRepresentation and checkRepresentationSeries of
--                      processor.go: NewRepresentation, ID, Sign, Verify, IsMature, IsExpired
-- ImbalanceCache       imbalance_cache.go: Apply, Undo
-- Indexed              container/list with a map to its elements, as the two queues use them
-- PlotQueue            plot_queue.go: Add, Remove, Exists, Peek, Len
-- Graph                representation_graph.go: Link, IsParentDescendant, dfs
-- PubKey               indexer.go: pubKeyToString
-- Indexer              indexer.go: padToBase64Length, plusCodeFromPubKey, indexRepresentations
-- RepresentationQueue  representation_queue_memory.go: Add, AddBatch, RemoveBatch, reprocessQueue,
--                      Get, Exists, ExistsSigned, Len
-- Plot                 plot.go: NewPlot, AddRepresentation, the hash list root, work, Compare
-- Processor            processor.go and checkpoints.go: checkPlot, processRepresentation,
--                      computeMaxRepresentationsPerPlot, computeTarget. State: the processor, and
--                      the interfaces of ledger.go and plot_storage.go; Median:
--                      computeMedianTimestamp; Tips: connectPlot, disconnectPlot,
--                      getThreadTipHeader; Reorganize: acceptPlotContinue, reconnectTip; Accept:
--                      processPlot, acceptPlot; Run: run; Laws: what a ledger obeys; OnDisk:
--                      ledger_disk.go behind the interface
-- LedgerDisk           ledger_disk.go: keys and encodings, the queries of the tip, of heights, branch
--                      types, imbalances and indices, ConnectPlot, DisconnectPlot, pruneIndices,
--                      restoreIndices; History: the queries that iterate
-- PeerStorage          peer_storage_disk.go: the tables of peer addresses; Disk: Store, Delete,
--                      OnConnectAttempt, OnConnectFailure, OnConnectSuccess, OnDisconnect; Listing:
--                      Get, GetSince
-- PlotHeaderHasher     plot_header_hasher.go: NewPlotHeaderHasher, initBuffer, Update
-- Prelude              shared types and lemmas; Tests: concrete inputs
--
-- An operation that changes state takes the state last and returns it with its result. A result is
-- a value, an error or a panic; what was written before an error stays written. An int64 is an
-- integer whose sums and differences wrap; heights and counts of Go's int are integers as well. Byte
-- slices and arrays are lists of numbers; a [32]byte is made by copying. Maps are association
-- lists, and what the code does for every key is stated without their order. An element of
-- container/list is a handle that is never used again. Calls come one after the other:
-- the two queues hold a lock for a whole call, and only the processor changes the ledger. The graph
-- has no lock, and a call that reads it is taken to find it whole. The methods of the peer storage that
-- read and then write its database hold none, and calls of them that interleave are not modelled.
--
-- The search of the graph runs on fuel, two more than the number of edges: enough, since it visits
-- no node twice (is_parent_descendant-Reach gives an answer always).
--
-- The search for the common ancestor of two threads runs on fuel too, and gives the error
-- out_of_fuel, which the code does not have, where it is used up. One more than the height of the
-- higher thread is enough where every plot stands on a stored one (find_ways_total).
--
-- The processor's loop is a relation between states, a step for each message. The indexer changes
-- the graph in a goroutine of its own, so each call finds the next of an arbitrary sequence of
-- graphs. Messages to registered channels are a list; that a send blocks until it is received is
-- not modelled.
--
-- The buffer of the header hasher is a list, and a write from an offset replaces what is there. The
-- source makes it as long as the longest header, with fields of 19 digits and a count of 10; that a
-- write past its end would reallocate or panic is not modelled.
--
-- Foreign code is a parameter: json.Marshal, SHA3-256 and ed25519 (Crypto), floating-point weights,
-- plot storage, LevelDB (Database) and, where it is only read, the ledger. base64, hex,
-- utf8.ValidString and encoding/binary are written out from their documentation.
--
-- Not modelled: networking (peer.go, peer_manager.go, dns.go, irc.go, upnp.go, tls.go), the scriber,
-- plot storage on disk, the indexer's loop, the keyholder and the commands, the ranking of the graph,
-- and JSON decoding.
pub mod Prelude
pub mod Representation
pub mod ImbalanceCache
pub mod Indexed
pub mod PlotQueue
pub mod Graph
pub mod Plot
pub mod LedgerDisk
pub mod PeerStorage
pub mod Processor
pub mod PlotHeaderHasher
pub mod PubKey
pub mod Indexer
pub mod RepresentationQueue
pub mod Tests
