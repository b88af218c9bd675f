-- ===== src/Lib.antt =====
-- POLARDB_Uncompleted, a key-value engine for the POLARDB race in C++: records of 4096 bytes go to
-- a log and to buffer slots, and their slots to skip lists; a hash table maps each key to a status
-- word that says where its record is; a background thread merges full skip lists into a file.
--
-- The files and the code:
--   Base             the shared helpers: Boolean tests, lists over the native numbers, arrays as
--                    functions, the outcome of a call (value, failed assertion, undefined), bits
--   Index            engine_race/DBSystem/Index.h, class Index: the packed status word
--   IndexHashMap     engine_race/DBSystem/Index.cpp, crc32, hash_key and class IndexHashMap
--   Indexer          engine_race/DBSystem/Index.cpp, class Indexer, the table behind a mutex
--   SkipList         engine_race/DBSystem/SkipList.h and SkipList.cpp, class SkipList: twelve levels,
--                    each an array that holds a list of elements and a list of unused nodes
--   Buffer           engine_race/DBSystem/DBSystem.h and DBSystem.cpp, struct Record and class Buffer
--   MemTables        engine_race/DBSystem/DBSystem.cpp, class MemTables: the choice of a list to
--                    write to, and the merge of the dumper, which uses a skip list through the
--                    record Source of MemTables/Source, which level 0 of a skip list implements
--   WaitQueue        engine_race/DBSystem/WaitQueue.h, the queue between the threads
--   PolarString      include/polar_string.h
--   Utils            engine_race/DBSystem/utils.cpp, get_key and path_join
--   Disk             engine_race/DBSystem/io.cpp, class DiskManager: the two logs and the sorted
--                    files, over the record FileSystem of Disk/Files, which states what the code
--                    relies on of the file system; Disk/Image has the bytes of a Record, Disk/Log
--                    those of several, Disk/Writing the calls of write_to_log, Disk/Switch the
--                    exchange of the logs
--   Manifest         engine_race/DBSystem/DBSystem.cpp, class Manifester, and the manifest file of
--                    io.cpp
--   DbSystem         engine_race/DBSystem/DBSystem.cpp, read and write_recover of class DBSystem; in
--                    DbSystem/Write write and submit_dump, in DbSystem/Dump dump_all, in
--                    DbSystem/Dumper the rounds of the dumper thread, in DbSystem/Fetch init and the
--                    recovery of the logs
--   Example          engine_example, the sample engine: DoorPlate (door_plate.cc), a hash table in a
--                    mapped file; DataStore (data_store.cc), which appends values to files; Engine
--                    (engine_example.cc), which uses both; Util, the return codes of
--                    include/engine.h and StrHash of util.cc
--   Tests            runs on concrete inputs
--
-- The methods take and return the object's state. A method that holds its mutex for its whole body
-- is one step; `none` stands for a call that waits on a condition variable. Numbers are natural
-- numbers, with the 32-bit and 64-bit wrap-around written out. `random()` is a parameter. A
-- switch_log that waits is counted among the sleeping threads, and goes on in a step of its own,
-- resume_switch_log, once end_dumping has woken it.
--
-- Loops on fuel: the probe loop of IndexHashMap has HASH_TABLE_SIZE rounds, the bound of the loop
-- itself. A walk along a level of a skip list has as many rounds as the level has nodes. The merge
-- loop takes its rounds as an argument, and one more than there are records is enough.
-- Reading a log or the manifest takes a byte at least in each round, so one round more than there
-- are bytes is enough. CalcIndex of the sample engine has kMaxDoorCnt rounds, the bound of its loop.
--
-- Not modelled: starting and stopping the threads of MemTables, the other functions of utils.cpp,
-- the stubs of engine_race.cc, the file locks and directory listings of the sample engine, whose
-- results are parameters, and the test programs. Files are a parameter: a `write` takes all its
-- bytes, `open`, `rename` and `remove` do not fail, and a `writev` of more than 1024 blocks writes
-- nothing (IOV_MAX of Linux).
--
-- The dumper gathers pointers into the nodes of the lists: MemTables/Dumper has a pointer as the
-- record that it leads to, which does not change after it is popped, with the address of its list,
-- and keeps the addresses of the lists that were deleted; following a pointer into one is
-- undefined. MemTables/Rounds is the same loop on lists that are never deleted.
pub mod Base
pub mod Index
pub mod IndexHashMap
pub mod Indexer
pub mod SkipList
pub mod Buffer
pub mod MemTables
pub mod Utils
pub mod Disk
pub mod Manifest
pub mod DbSystem
pub mod WaitQueue
pub mod PolarString
pub mod Example
mod Tests
