-- ===== src/FileLock/Exclusive.antt =====
-- Mutual exclusion by the lock of packages/backend/src/lib/file-lock.ts.
use vpp_blockchain.Base.{◌≡◌, some}
use vpp_blockchain.FileLock.{Stats, Pc}
use vpp_blockchain.FileLock.Holder.{held_by}

-- The process has the lock.
abbrev pub HasLock : Pc → Type 0
HasLock pc = (fd : Stats) × (held_by pc ≡ some fd)
