-- ===== src/Lib.antt =====
-- moviehouse: a BitTorrent client with a media server (src/). The development models the parts of the
-- client that read what other peers send and that decide what to ask them for.
--
-- Parts and files (paths from the root of the repository)
--   Prelude/   Booleans, lists and words over native numbers; `Outcome`, the result of fallible code,
--              whose `out_of_fuel` is no result of the program; `Assoc` for `HashMap`; `Utf8` for
--              `str::from_utf8`.
--   Bencode/   src/bencode/. Value: value.rs (`BValue`, `as_*`, `get`, `get_str`); a `BTreeMap` is the
--              list of its entries in the order of the keys. Encode: encode.rs. Decode: decode.rs, a
--              function for each method of `Decoder`, which takes the decoder and returns it with the
--              result; Decimal: `to_string` and `str::parse::<i64>`. RoundTrip, Sound
--              and Whole: the codec as a whole.
--   Peer/      src/peer/. Message: message.rs (`encode`, `decode`, `wire_len`). Codec: codec.rs, the
--              frames; a buffer is the list of its bytes, and what a call leaves of it is returned.
--              Handshake: handshake.rs. Manager: manager.rs, the pool of peers (`PeerManager`).
--   Piece/     src/piece/. Bitfield: bitfield.rs. Progress: `PieceProgress` of picker.rs, the blocks of
--              one piece; Progress/Indexing: with the panics of its
--              indices. Picker: `PiecePicker` of picker.rs, with one function for each method;
--              Picker/Rarest: the choice of a new piece; Picker/Candidates, Continue and Asking: what
--              `pick_block` asks for; Picker/Assemble: blocks that become the piece;
--              Picker/Availability: peers that come and go; Picker/Kept and
--              Verified: what all operations keep; Picker/Blocks: the states of
--              a piece in progress. Store: store.rs, the hashes of the pieces.
--   Torrent/   src/torrent/metainfo.rs: `Info` and `parse_info`, the info dictionary.
--   Disk/      src/disk/. Mapping: mapping.rs (`FileMapping`), the bytes of the files that a piece
--              covers. Io: io.rs, the commands of the disk task; Io/Splice, RoundTrip, Pieces: pieces
--              that are written and read back. Files are a function from paths to contents.
--   Engine/    src/engine/. Choker: choker.rs, which peers are unchoked. Resume: resume.rs, the pieces
--              that are on the disk already; Resume/Restart: those that the disk task wrote.
--              Session: session.rs, the event loop of a download.
--              Session/Start: the state at its start; Session/Events: its arms; Session/Quiet and
--              Arms: those that complete no piece; Session/Downloads, Reachable and Reached: what
--              holds in every state; Session/Pipeline: what is asked of a peer; Session/Refine and
--              Run: the loop as a torrent that gains pieces.
--   Dht/       src/dht/. RoutingTable: routing_table.rs. Token: token.rs. CompactAddrs, KrpcWire: the
--              encodings of krpc.rs; Krpc: its messages as they come in (`handle_message`).
--              Node: node.rs (`handle_inbound`). Address: the addresses of the standard library.
--   Examples/  the theorems at concrete inputs.
--
-- How they interact: the codec cuts the stream of a peer into frames and hands each to the decoder of
-- messages; extension messages and torrent files are bencoded; a bitfield message becomes a
-- `Bitfield`, by which the picker chooses blocks for that peer; a piece message goes to
-- `block_received`; the bytes of a complete piece are compared with their hash and written to its
-- spans. The session calls the manager on every event and then dispatches the event itself. Its state is
-- one record (`Session`) of the picker, the pool and its own maps; commands that channels took are the
-- list `sent`, and pieces handed to the disk the list `writes`. An event is a function of the state, and
-- the orders of events are the relation `Reachable`. Torrent.Info gives the session its pieces.
--
-- Bounds and fuel: bytes are numbers below 256 where a theorem needs it, and words are written with
-- `% 2 ^ w`. `usize` has 64 bits. The decoder of bencode runs on fuel, twice the bytes that are left
-- and one: each call of the mutual functions but one consumes a byte. Inputs are shorter than 2^63
-- bytes where the theorem says so. The loop of `assign_next_block` has fuel for the blocks between its
-- cursor and the end. An index that is out of bounds is `none`, or the error
-- `index_out_of_bounds`; in the picker and in bitfields it reads a default instead, and
-- Progress/Indexing has the operations on blocks with the panics.
--
-- What the code leaves open is an argument: the order in which the picker's map is visited, the numbers
-- that are drawn at random, the peer that is chosen among the choked ones, the channels that are full, the
-- throughput of a peer (`Env`), the clock, and the hash function. The type of paths and the
-- functions that join them are arguments too; addresses of peers are numbers. The map of peers is
-- visited in the order in which they came, and in one turn of the loop a channel gives one answer to
-- the same command. The picker reads bitfields where they do not panic (`holds`).
--
-- Not modelled: the frontend, the web server, transcoding, TMDB and the command line (input and output
-- and calls of libraries); of the session the speeds, messages and statistics, which are floating point
-- and text, and the tasks that it starts; the manager and the stores of the engine, the trackers, the
-- socket, the bootstrap and the lookups of the DHT, and of torrents and the disk what no file above names.
pub mod Prelude
pub mod Bencode
pub mod Peer
pub mod Piece
pub mod Torrent
pub mod Disk
pub mod Engine
pub mod Dht
mod Examples
