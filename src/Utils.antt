-- ===== src/Utils.antt =====
-- ConnectionExperiments/utils.cpp: random data.
pub mod RandomData
pub mod Letters
pub mod Cards
mod Tests
use rdma_project.Common.{ℕ, ◌*◌, List, replicate, Option, none, some}
use rdma_project.Host.{Kernel, Cmd, pure, ◌>>=◌, sys_open, sys_read}
use rdma_project.Host.Ints.{to_int}

-- A Buffer, and the bytes at the address that it was made with, while they are there.
pub record LargeBuffer (Buffer : Type 0) : Type 0 where
  pub buffer : Buffer
  pub bytes : Option (List ℕ)

module _ (K : Kernel) where
  -- The file stays open, and what `read` returns is ignored.
  unfoldable pub dev_random_data : List ℕ → ℕ → Cmd (List ℕ)
  dev_random_data buffer size = do fd ← sys_open K; sys_read K (to_int fd) buffer size

  -- `std::vector<char> s(len)` holds zeros.
  unfoldable pub generate_random_data : ℕ → Cmd (List ℕ)
  generate_random_data len = dev_random_data (replicate len 0) len

  -- `make_buffer` is the constructor of `infinity::memory::Buffer`, given the address of the data and
  -- their length in bytes. The vector `data` ends with the function, and its bytes with it.
  unfoldable pub create_large_buffer :
      {Buffer : Type 0}
      → (make_buffer : (address length : ℕ) → Buffer) → (address data_size : ℕ)
      → Cmd (LargeBuffer Buffer)
  create_large_buffer {Buffer} make_buffer address data_size = do
    data' ← generate_random_data data_size
    let made : LargeBuffer Buffer = record {
      buffer = make_buffer address (data_size * 1);
      bytes = some data';
    }
    pure (record made { bytes = none })
