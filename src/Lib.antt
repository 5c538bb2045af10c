-- ===== src/Lib.antt =====
-- A BitTorrent client: bencode and the metadata of a torrent, the DHT, peers and their protocol, the
-- choice of the blocks to ask for, and a seeder. The packages call each other as follows: the session
-- (download/session.go) finds peers by trackers (tracker) and the DHT (dht), keeps a pool of endpoints
-- (peer/pool.go) and gives connections to the manager (download/manager.go), which asks the piece picker
-- (download/picker.go) for blocks; the seeder (seeder/handler.go) answers the same messages
-- (peer/message.go) from a file that it checked (seeder/storage.go). The DHT's messages are bencoded (dht/krpc.go, bencode/decode.go).
--
-- Files and the code that they model:
--   Base             lists, maps, 32-bit words, texts, results, and `sort.Slice` as an interface
--                    (Sorter) with an instance
--   Bencode          bencode/decode.go; Assert: the type assertions on a decoded value; Number:
--                    `strconv.Atoi` and `%d`; Progress, Strings, Decimal: proofs
--   Dht.Krpc         the encoder and the sort of dht/krpc.go; Messages: its queries and its parser of
--                    responses; the other children: proofs of the round trip with Bencode
--   Dht.Node         dht/node.go; Compact: the proof of the round trip of node lists
--   Dht.Routing      dht/routing.go; Buckets, Unique: proofs of the invariants
--   Download.Picker  download/picker.go; Choose: `UpdatePeerBitfield`, `UpdatePeerHave`, `NextBlock`;
--                    Settle: `MarkCompleted`, `MarkFailed`, `GetStalledRequests`, `IsCompleted`; the
--                    other children: proofs on any sequence of calls
--   Dht.Lookup       dht/dht.go; Counts, Fresh, Once: the proof on the queries of a lookup
--   Download.Filewriter
--                    download/filewriter.go; Whole: the round trip with the seeder
--   Download.Sequential
--                    download/download.go; Verified: the proof on what is returned
--   Download.Manager download/manager.go; Run: the loop of `Start` and the storage thread; Verified,
--                    Stored, Lost: proofs on what is written
--   Peer.Client      peer/client.go; Extension: peer/extension.go; the other children: proofs on the
--                    pieces and the metadata that a peer sends
--   Peer.Pipeline    peer/pipeline.go; Stalls: the proof on the ticker
--   Peer.Message     peer/message.go: the framing of messages
--   Peer.Handshake   peer/handshake.go; Wire: the proof on what both ends read
--   Peer.Pool        peer/pool.go
--   Seeder.Handler   seeder/handler.go: `handlePeer`
--   Seeder.Storage   seeder/storage.go: `LoadPieces`, `BuildBitfield`
--   Tracker          tracker/tracker.go (Http) and tracker/udp.go (Udp); Answers, Forms: proofs on the
--                    peers that a tracker sends
--   Torrent          torrent/torrent.go: `ParseFile`; InfoHash: the proof on encoded torrents; Magnet:
--                    torrent/magnet.go
--
-- State is passed explicitly: each method takes the struct's fields that it uses and returns the new
-- ones. The mutex that each method of the picker and of the pool holds makes a call one step, so that
-- any interleaving of goroutines is a sequence of calls, and the invariants are stated on all of them.
-- A connection is the list of the bytes, or of the messages, that it will deliver; writes on it succeed
-- and are returned.
-- Maps are association lists; where Go iterates over a map, the order of the list stands for the order
-- of the iteration. A panic is a result of its own, beside errors. A 64-bit `int` is a ℕ or ℤ with
-- the wrap written out where a value from the network can reach it; counters do not wrap.
--
-- Fuel: the decoder recurses on twice the length of the input and more, since of two calls in a row
-- one consumes a byte; the seeder's loop takes a round for each message, and each message has at least
-- four bytes. That this is enough is stated in the results. The loop of `pipelineRequests` runs on the
-- fuel that an event gives, since in end-game mode it need not end; what is proved holds for any fuel.
--
-- Parameters: HTTP, the file system, random numbers, SHA-1, the hex encoding of an info hash in
-- torrent/torrent.go, base32, the parser of URLs, and joining paths are arguments; `sort.Slice` is
-- a Sorter, with the laws of its documentation.
--
-- Not modelled: the command line (app/main.go), the sockets, deadlines and goroutines of
-- download/session.go, download/concurrent.go and seeder/server.go, and the buffers that the readers
-- share, whose only trace is the list of those that the manager gives back.
pub mod Base
pub mod Bencode
pub mod Dht
pub mod Download
pub mod Peer
pub mod Seeder
pub mod Torrent
pub mod Tracker
