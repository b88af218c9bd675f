-- ===== src/Tests.antt =====
-- The theorems at concrete inputs, and runs of the code.
mod Words
mod Table
mod Lists
mod Queues
mod System
mod Maps
mod Disk
mod Engine
mod Example
mod Restart
mod Dumper
