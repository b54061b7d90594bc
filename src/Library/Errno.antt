-- ===== src/Library/Errno.antt =====
-- Kernel/Library/errno.hpp: the error codes that kernel objects record.

-- `enum KernelError`
pub data KernelError : Type 0 where
  lock_taken buffer_full invalid_value generic_error no_error : KernelError
