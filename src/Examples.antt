-- ===== src/Examples.antt =====
-- Runs of the model at small inputs, and the theorems at inputs where their hypotheses hold.
mod Support
mod Lists
mod Parser
mod Rdb
mod Display
mod Boot
mod Cdrom
mod Files
mod Sfs
mod Elf
mod ElfFile
mod Ext2
mod Install
mod Context
mod Loading
