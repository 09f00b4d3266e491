-- ===== src/Tests.antt =====
-- Runs on concrete states, a module for each part.
mod Pages
mod Paging
mod Processes
mod Programs
mod Slabs
mod Strings
mod Traps
mod Console
mod Keys
mod Bus
mod Inodes
mod Disk
mod Drives
mod Dumps
mod Firmware
mod Names
mod Gates
