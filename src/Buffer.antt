-- ===== src/Buffer.antt =====
-- src/codec/buffer.h and src/codec/buffer.cpp: the byte buffer of a connection, a vector with a
-- reader and a writer index. A byte is a number; sizes stay below 2 ^ 64, the size of memory.
-- An `assert` of the source is a precondition that the callers meet, and is not executed.
pub mod Vector
pub mod Contents
pub mod Refine
use hc_tcp_im_server.Common.{
  ℕ, ◌+◌, ◌-◌, List, [], ◌∷◌, ◌++◌, Option, none, some, length, take, drop, replicate, ltb, leb,
  if◌then◌else◌,
}
use Vector.{resize, write_at, slice}

abbrev pub cheap_prepend : ℕ
cheap_prepend = 8

abbrev pub initial_size : ℕ
initial_size = 1024

-- `bytes` is `m_buffer`.
pub record Buffer : Type 0 where
  pub bytes : List ℕ
  pub reader_index : ℕ
  pub writer_index : ℕ

-- `Buffer()`
unfoldable pub new : Buffer
new = record {
  bytes = replicate (cheap_prepend + initial_size) 0;
  reader_index = cheap_prepend;
  writer_index = cheap_prepend;
}

abbrev pub readable_bytes : Buffer → ℕ
readable_bytes b = b.writer_index - b.reader_index

abbrev pub writable_bytes : Buffer → ℕ
writable_bytes b = length b.bytes - b.writer_index

abbrev pub prependable_bytes : Buffer → ℕ
prependable_bytes b = b.reader_index

-- The bytes from `peek()` on, as many as are readable.
abbrev pub contents : Buffer → List ℕ
contents b = slice b.reader_index (readable_bytes b) b.bytes

unfoldable pub retrieve_all : Buffer → Buffer
retrieve_all b = record b { reader_index = cheap_prepend; writer_index = cheap_prepend }

pub retrieve : Buffer → ℕ → Buffer
unfolding retrieve_all
retrieve b len =
    if ltb len (readable_bytes b)
    then record b { reader_index = b.reader_index + len }
    else retrieve_all b

-- The string is copied from `peek()` before the bytes are retrieved.
pub retrieve_as_string : Buffer → ℕ → List ℕ × Buffer
retrieve_as_string b len = (slice b.reader_index len b.bytes, retrieve b len)

pub retrieve_all_as_string : Buffer → List ℕ × Buffer
retrieve_all_as_string b = retrieve_as_string b (readable_bytes b)

-- `resize` where the free bytes do not suffice, and otherwise the readable bytes move to the front.
pub make_space : Buffer → ℕ → Buffer
make_space b len =
    if ltb (writable_bytes b + prependable_bytes b) (len + cheap_prepend)
    then record b { bytes = resize b.bytes (b.writer_index + len) }
    else record {
      bytes = write_at b.bytes cheap_prepend (contents b);
      reader_index = cheap_prepend;
      writer_index = cheap_prepend + readable_bytes b;
    }

pub ensure_writable_bytes : Buffer → ℕ → Buffer
unfolding make_space
ensure_writable_bytes b len = if ltb (writable_bytes b) len then make_space b len else b

pub has_written : Buffer → ℕ → Buffer
has_written b len = record b { writer_index = b.writer_index + len }

-- `std::copy` to `beginWrite()`.
unfoldable pub copy_in : Buffer → List ℕ → Buffer
copy_in b xs = record b { bytes = write_at b.bytes b.writer_index xs }

pub append : Buffer → List ℕ → Buffer
append b xs = has_written (copy_in (ensure_writable_bytes b (length xs)) xs) (length xs)

abbrev pub extra_size : ℕ
extra_size = 65536

-- `readFd` on Linux. The argument is what `readv` brings: `none` for an error, and otherwise at most
-- `writable_bytes b + extra_size` bytes, which fill the writable part first and then `extrabuf`.
pub read_fd : Buffer → Option (List ℕ) → Buffer
unfolding has_written copy_in
read_fd b none = b
read_fd b (some xs) =
    if leb (length xs) (writable_bytes b)
    then has_written (copy_in b xs) (length xs)
    else append (record (copy_in b (take (writable_bytes b) xs)) { writer_index = length b.bytes })
        (drop (writable_bytes b) xs)
