-- ===== src/Queue/Buffer.antt =====
-- src/queue/Buffer.hpp and src/queue/Buffer/BufferConfiguration.hpp: a buffer is an address, the
-- number of its bytes in use, and the side that it serves. A buffer that has been moved from (its
-- address is null) is popped or leaves its scope at once, so a model of it holds no such value.
use ki.Prelude.{ℕ, List, ◌++◌, length, take, drop, update}

abbrev pub buffer_size : ℕ
buffer_size = 4096

abbrev pub buffers_in_queue : ℕ
buffers_in_queue = 512

pub data BufferType : Type 0 where
  read write : BufferType

pub record Buffer : Type 0 where
  pub address : ℕ
  pub bytes_used : ℕ
  pub buffer_type : BufferType

-- The explicit constructor, with its default type.
abbrev pub new_buffer : ℕ → Buffer
new_buffer address = record { address = address; bytes_used = 0; buffer_type = read }

abbrev pub set_type : BufferType → Buffer → Buffer
set_type t b = record b { buffer_type = t }

-- The memory that the buffers point into: the bytes of the block at an address.
abbrev pub Memory : Type 0
Memory = ℕ → List ℕ

-- Bytes that are written from the start of a block; the rest of the block stays.
abbrev pub store : Memory → ℕ → List ℕ → Memory
store mem address bytes = update mem address (bytes ++ drop (length bytes) (mem address))

-- The bytes that a buffer stands for: the first `bytes_used` of its block.
abbrev pub payload : Memory → Buffer → List ℕ
payload mem b = take b.bytes_used (mem b.address)
