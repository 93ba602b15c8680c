-- ===== src/Buffer/Swap.antt =====
-- `Buffer::swap` of twnl/Buffer.h, which never exchanges the write indices.
use twnl.Base.{◌≢◌, arith}
use twnl.Buffer.{Buffer, IsValid, readable_bytes, swap}

-- For two valid buffers that hold different numbers of bytes, the first one after `swap` does not
-- hold as many bytes as the second one held before.
pub swap_wrong :
    (a b : Buffer)
    → IsValid a
    → IsValid b
    → readable_bytes a ≢ readable_bytes b
    → readable_bytes (swap a b).0 ≢ readable_bytes b
unfolding swap
swap_wrong a b v w ne = ground arith
