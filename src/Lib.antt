-- ===== src/Lib.antt =====
-- OpenFS, a distributed file system: a verification library for its metadata server, its data
-- nodes and its client.
--
-- The metadata server (src/meta) keeps the directory tree, the inodes, the blocks of each file
-- and the data nodes. A data node (src/data) stores blocks on disks that it formats, each with a
-- bitmap of its blocks and a write-ahead log; a storage of append-only segment files, which
-- nothing else uses, stands beside it. To write a file the client (src/client) creates it, cuts
-- its data into blocks, has block ids allocated, writes the blocks to a data node and commits
-- them; to read it, it asks where they are.
--
-- Which file models what, each function under the name of the source's method in snake case:
--   Types.antt              src/common/types.h
--   Crc.antt, Crc/          src/common/crc32.cpp
--   IdGen.antt, IdGen/      src/common/id_generator.cpp
--   Meta/Path.antt          ResolvePath of src/meta/namespace_manager.cpp
--   Meta/Namespace.antt     the other methods of src/meta/namespace_manager.cpp
--   Meta/InodeTable.antt    src/meta/inode_table.cpp
--   Meta/BlockMap.antt      src/meta/block_map.cpp
--   Meta/NodeManager.antt   src/meta/node_manager.cpp
--   Meta/Allocator.antt     src/meta/block_allocator.cpp
--   Meta/Service.antt       src/meta/meta_service_impl.cpp
--   Bitmap.antt, Bitmap/    src/data/block_bitmap.cpp
--   Wal.antt, Wal/          src/data/wal_manager.cpp
--   Device.antt             src/data/block_io_engine.cpp
--   Disk.antt               DiskManager of src/data/disk_manager.cpp
--   Disk/Format.antt        DiskFormatter and the opening of a disk, in the same file
--   Node.antt               src/data/disk_pool.cpp, data_node.cpp and data_service_impl.cpp
--   Segment.antt            src/data/segment_writer.cpp and segment_sealer.cpp
--   Segment/Reader.antt     src/data/segment_reader.cpp
--   Segment/Engine.antt     src/data/segment_engine.cpp
--   Splitter.antt           src/client/block_splitter.cpp
--   Client.antt             src/client/openfs_client.cpp, meta_connection.cpp, data_connection.cpp
--   Cache.antt              src/client/metadata_cache.cpp
-- Common.antt and Common/ hold what these share. The state of a class is a record of its members;
-- a method takes it and returns it with the result. A std::string and a buffer are lists of
-- bytes, a std::unordered_map is an association list. A method runs under its class's mutex and
-- is one step. Unsigned integers are natural numbers, with the wrap written out where the source
-- can reach it. The clock, the stream that opening a file yields, and the room of the device are
-- arguments. What is written to the stream of a segment or of a log waits in its buffer until it
-- is sent or flushed, so that a write can succeed on a full device and the flush then fail.
--
-- Disk.antt puts Bitmap, Wal and Device together; Disk/Refinement.antt says what a disk promises,
-- as a step relation on a map from offsets to blocks. Node.antt serves blocks from a list of
-- disks. Client.antt drives Meta/Service.antt and an interface of data nodes, whose laws
-- (Client/Assembly.antt) Client/SingleNode.antt fills from Node.antt. What gRPC makes of a call
-- is an argument: it is answered, lost before it is carried out, or lost after that.
--
-- Fuel: the search of the bitmap takes one round for each block, and the scans of the log one
-- round for each of its blocks and one more, as each round goes on by at least a block. The
-- eviction of Cache.antt takes one round for each entry, as each round removes one. The ten
-- rounds that size the bitmap of a disk are the source's own.
--
-- Not modelled: the copying of messages, threads and start-up (also of the disks of a node),
-- configuration, logging, the command line, FUSE and S3; direct I/O on raw devices; the block
-- cache of a data node, the heat tracker, repair and rebalancing. Handlers of the metadata
-- service lock one component after the other; a handler is one step here, so interleavings within
-- a handler are not covered, nor are two requests to the parts of a data node at once.
pub mod Common
pub mod Types
pub mod Bitmap
pub mod Crc
pub mod IdGen
pub mod Meta
pub mod Segment
pub mod Splitter
pub mod Wal
pub mod Device
pub mod Disk
pub mod Node
pub mod Client
pub mod Cache
