-- ===== src/Lib.antt =====
-- A model of osmpgsqlimport, which imports an OpenStreetMap extract into PostgreSQL with PostGIS and keeps
-- it current by OsmChange files.
--
-- An import has phases. `OSMReader` (src/OSMReader.cpp) reads blocks of a PBF file. The reader hands the
-- entries to worker threads by bounded queues (`BlockingQueue`, src/main.cpp). The node threads append
-- each node's coordinates to their own shard files (`OSMMMap`, src/OSMMMap.cpp) and its row to a buffer
-- of their connection (`NavDB`, src/NavDB.cpp). At a barrier the shards are merged into one mapped file.
-- The way threads look the coordinates of a way up there, build its EWKB text and store it as a way or an
-- area. After a second barrier they store relations, as multipolygons or as lines and roads. The delta
-- mode (src/DeltaApplier.cpp, src/OSCReader.cpp) applies changes to the same store and tables, and
-- src/Replicator.cpp fetches them one by one. src/AirportsLoader.cpp loads the OurAirports tables.
--
-- The files:
--   Prelude and below: lists, texts, 64-bit words as patterns, doubles as bit patterns.
--   Store/Bitmap, Store/Shard, Store/Merge, Store/Merge/Slots, Store/NodeStore: src/OSMMMap.cpp. A shard
--     file is the list of chunks given to LZ4, the sidecar a list of bytes, the merged mapping a list of
--     slots of 16 bytes with its bitmap. `insert`, `merge`, `select`, `remove` keep their names.
--   Wkb, Wkb/Hex, Wkb/Way, Wkb/Lines: the EWKB writers of src/main.cpp and src/OSMReader.cpp, and
--     Wkb/Decode, a reader of EWKB written for the specification alone.
--   Rings, Rings/Multipolygon: `stitchRings` and `buildMultipolygon` of src/main.cpp, with what it is to
--     touch, to lie within and to have a role in Rings/Touching, Rings/Multipolygon/Within and
--     Rings/Multipolygon/Roles.
--   Tags, Tags/Area: the tag maps and `isArea` of src/main.cpp.
--   Queue: `BlockingQueue` of src/main.cpp, with its interleavings in Queue/Runs and the
--     waits and notifications of its condition variables in Queue/Waiting.
--   Db/Copy, Db/TagTable, Db/Nav, Db/Queries: src/NavDB.cpp. `tryCopyBatch`, `diffTags`, the buffers,
--     flushes, updates and deletes on the tables, and `getWayCoords` with `getWayCoordsMap`.
--   Pbf, Pbf/Block, Pbf/Blobs: `parsePrimitiveBlock`, `readBlob` and `next` of src/OSMReader.cpp. A file is
--     its bytes; Pbf/Blobs/Frames and Pbf/Blobs/Reading are about how it is framed and read.
--   CommandLine: `parseArgs` of src/main.cpp.
--   Producer and below: the loop of `main` in src/main.cpp that reads the file, as the list of what it does
--     to the queues and the offset files, and the offsets that a resumed import starts at.
--   Import: `nodeThread` and `wayThread` of src/main.cpp.
--   Delta, Delta/Geometry: src/DeltaApplier.cpp.
--   Osc, Osc/Parse, Osc/Written: `startElement`, `endElement` and the loop of `parse` of
--     src/OSCReader.cpp, with what a file is written from.
--   Replication, Replication/Poll: `sequenceToPath`, `downloadAndApply`, `remoteSequence` and `poll` of
--     src/Replicator.cpp.
--   Csv: `parseCsvLineAP` of src/AirportsLoader.cpp.
--   Airports, Airports/Tables, Airports/Load: the loaders of src/AirportsLoader.cpp, from the bytes of a file on. The
--     columns of a row are in the order of the call that writes it.
--   Status: `Status` of src/main.cpp with `advancePhase`, `hr` and `formatDuration`.
--   Main: the steps of `main` in src/main.cpp around the reader loop, with the tables that
--     `truncateForResume` and `vacuumAnalyze` name; Main/Rules states what a bulk load must keep to.
--   Tests and below: theorems at concrete inputs.
--
-- Ids are the 64-bit patterns of int64_t. A double is its IEEE 754 pattern, and the program's comparisons
-- of doubles are defined on patterns. `size_t` arithmetic wraps around at 2 ^ 64.
--
-- Fuel: `full_records` runs on the length of its bytes and takes 24 of them in a round; `stitch` and
-- `extend` run on the number of segments and use one in a round; `try_copy_batch` runs on one more than
-- the number of rows and drops one in a round; `drain` on more than the items of the queue; `next` and
-- `read_all` on more than the bytes of the file, of which each round takes at least 4; `decimal` on
-- more than the number; `parse_chunks` on more than the bytes of the file, of which each further round
-- takes 65536. The theorems about them hold for this much fuel and give a result.
--
-- Parameters, for code that is not in the repository: the protocol buffer library and zlib (`parse_header`,
-- `parse_blob`, `parse_pb`, `uncompress`), expat (`xml_parse`), LZ4 (`Decompress`: the pieces in which a frame comes
-- back), PostgreSQL's COPY (`Server`, `copy`), PostGIS's decoding of a stored way (`coords_of`,
-- `dump_points`), its sorting (`order_by_id`), the C
-- library's `isalnum` on whole texts (`al`, `all_alpha_num`) and floating-point functions (`to_mercator`,
-- `lat_of`, `lon_of`), the C++ library's
-- `stoi`, `stoll` and `stod`, downloads and signals (`download`, `stopped`).
--
-- Not modelled: logging, the status display and the printed summary, the texts of the schema and index
-- statements, gzip under OsmChange files, the creation of threads and connections, and what
-- follows an exception that reaches `main`. SQL statements other than COPY are taken to succeed. File
-- synchronisation and `madvise` have no effect in the model, and `ftruncate` and `mmap` of an open shard do
-- not fail, whatever the id. Where the COPY of the tags raises after
-- a retry, the buffer of the model still has the rows that the retry dropped.
mod Prelude
pub mod Store
pub mod Wkb
pub mod Tags
pub mod Rings
pub mod Queue
pub mod Db
pub mod Delta
pub mod Csv
pub mod Pbf
pub mod Replication
pub mod Import
pub mod Osc
pub mod CommandLine
pub mod Producer
pub mod Airports
pub mod Status
pub mod Main
mod Tests
