-- ===== src/Kv/Request.antt =====
-- The buffer descriptors of cs537/P6/ring_buffer.h that clients and server exchange.
use schoolwork.Common.{ℕ}

-- `enum REQUEST_TYPE`
abbrev pub put_request : ℕ
put_request = 0

abbrev pub get_request : ℕ
get_request = 1

-- `struct buffer_descriptor`. The request type is the number that the memory holds.
pub record BufferDescriptor : Type 0 where
  pub req_type : ℕ
  pub k : ℕ
  pub v : ℕ
  pub res_off : ℕ
  pub ready : ℕ
