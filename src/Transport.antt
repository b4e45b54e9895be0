-- ===== src/Transport.antt =====
-- src/transport_http_long_polling.c: here the buffer that the body of a response is collected in, and
-- in the modules below the transport itself, with src/transport.c.
--
-- Of `ConnInfo` the three fields that `on_curl_write` uses; a null `data` is the empty block. The
-- handles of libcurl and the text of its errors are left out. Each `realloc` is granted: the code
-- does not test it. `none` is undefined behaviour.
pub mod Write
pub mod Libs
pub mod LongPolling
pub mod Sockets
pub mod Bodies
pub mod Complete
pub mod Response
pub mod Calls
pub mod SocketCalls
pub mod Interleave
pub mod Actions
pub mod Close
pub mod Dispatch
use libbayeux.Prelude.{
  ℕ, ◌+◌, ◌-◌, ◌*◌, ◌%◌, ◌^◌, bit_and, List, [], ◌∷◌, Option, some, take, ltb, if◌then◌else◌, ◌>>=◌,
}
use libbayeux.Libc.{CString}
use libbayeux.Memory.{Block, realloc, store, memcpy}

pub record ConnInfo : Type 0 where
  pub data_block : Block ℕ
  pub data_capacity : ℕ
  pub data_count : ℕ

-- `calloc(1, sizeof(ConnInfo))`
abbrev pub conn_new : ConnInfo
conn_new = record { data_block = []; data_capacity = 0; data_count = 0 }

-- a value of type `size_t`
abbrev pub size_t : ℕ → ℕ
size_t n = n % 2 ^ 64

-- `(size_needed + 4093) & ~4093`
unfoldable pub response_capacity : ℕ → ℕ
response_capacity size_needed = bit_and (size_t (size_needed + 4093)) (2 ^ 64 - 1 - 4093)

-- the block and the capacity after `resize if needed`
unfoldable pub resize_data : ConnInfo → ℕ → ConnInfo
resize_data conn size_needed =
    let capacity = response_capacity size_needed in
    if ltb conn.data_capacity size_needed
    then record conn { data_capacity = capacity; data_block = realloc conn.data_block capacity }
    else conn

-- The result of the call stands beside the connection.
unfoldable pub on_curl_write : CString → ℕ → ℕ → ConnInfo → Option (ℕ × ConnInfo)
on_curl_write buf size count full = do
  let bytes = size_t (size * count)
  let conn = resize_data full (size_t (full.data_count + bytes + 1))
  copied ← memcpy conn.data_block conn.data_count (take bytes buf)
  let data_count = size_t (conn.data_count + bytes)
  ended ← store copied data_count 0
  some (bytes, record conn { data_block = ended; data_count = data_count })
