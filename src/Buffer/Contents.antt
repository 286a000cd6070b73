-- ===== src/Buffer/Contents.antt =====
-- The invariant of src/codec/buffer.h, and what each operation does to the readable bytes.
use hc_tcp_im_server.Common.{
  ℕ, ◌+◌, ◌-◌, ◌≤◌, ◌<◌, ◌≡◌, sym, ap, ◌∙◌, Option, none, some, List, [], ◌++◌, arith, length, take,
  drop, Bool-cases, inl, inr, leb, append_assoc, length-take, take-append-drop, drop-take,
  drop-drop, drop-all, leb→le, append-nil,
}
use hc_tcp_im_server.Buffer.Vector.{
  write_at, length-resize, length-write_at, length-slice, slice-resize, slice-write_at_self,
  slice-write_at_before, slice-add,
}
use hc_tcp_im_server.Buffer.{
  Buffer, cheap_prepend, new, readable_bytes, writable_bytes, contents, retrieve, make_space,
  ensure_writable_bytes, has_written, copy_in, append, read_fd,
}

-- The reserve in front is never used up, and the indices are in order and inside the vector.
pub record IsValid (b : Buffer) : Type 0 where
  pub reserve : cheap_prepend ≤ b.reader_index
  pub ordered : b.reader_index ≤ b.writer_index
  pub inside : b.writer_index ≤ length b.bytes

pub length-contents : {b : Buffer} → IsValid b → length (contents b) ≡ readable_bytes b
length-contents {b} v = length-slice b.reader_index (readable_bytes b) b.bytes (omega arith)

pub new-IsValid : IsValid new
unfolding new
new-IsValid = omega arith

pub retrieve-IsValid : {b : Buffer} (n : ℕ) → IsValid b → IsValid (retrieve b n)
unfolding retrieve
retrieve-IsValid n v = ground arith

pub readable_bytes-retrieve :
    (b : Buffer) (n : ℕ) → readable_bytes (retrieve b n) ≡ readable_bytes b - n
unfolding retrieve
readable_bytes-retrieve b n = ground arith

-- What remains after `retrieve` is the contents without their first bytes.
pub contents-retrieve :
    {b : Buffer} (n : ℕ) → IsValid b → contents (retrieve b n) ≡ drop n (contents b)
unfolding retrieve
contents-retrieve {b} n v = ground (
  arith,
  drop-take n (readable_bytes b) (drop b.reader_index b.bytes),
  drop-drop n b.reader_index b.bytes,
  drop-all n (contents b),
  length-contents v,
)

module _ {b : Buffer} (n : ℕ) (v : IsValid b) (short : writable_bytes b < n) where
  pub make_space-IsValid : IsValid (make_space b n)
  unfolding make_space
  make_space-IsValid = ground (
    arith,
    length-resize b.bytes (b.writer_index + n),
    length-write_at b.bytes cheap_prepend (contents b),
    length-contents v,
  )

  -- It makes room for the bytes asked for, and keeps the readable ones.
  pub make_space-room : n ≤ writable_bytes (make_space b n)
  unfolding make_space
  make_space-room = ground (
    arith,
    length-resize b.bytes (b.writer_index + n),
    length-write_at b.bytes cheap_prepend (contents b),
    length-contents v,
  )

  pub contents-make_space : contents (make_space b n) ≡ contents b
  unfolding make_space
  contents-make_space = ground (
    arith,
    slice-resize b.reader_index (readable_bytes b) (b.writer_index + n) b.bytes,
    slice-write_at_self b.bytes cheap_prepend (contents b),
    length-contents v,
  )

-- Copying into the writable part and moving the writer index extends the contents.
module _ {b : Buffer} (xs : List ℕ) (v : IsValid b) (fits : length xs ≤ writable_bytes b) where
  pub written-IsValid : IsValid (has_written (copy_in b xs) (length xs))
  unfolding has_written copy_in
  written-IsValid = omega (arith, length-write_at b.bytes b.writer_index xs)

  pub contents-written : contents (has_written (copy_in b xs) (length xs)) ≡ contents b ++ xs
  unfolding has_written copy_in
  contents-written = ground (
    arith,
    slice-add b.reader_index (readable_bytes b) (length xs) (write_at b.bytes b.writer_index xs),
    slice-write_at_before b.bytes b.reader_index (readable_bytes b) b.writer_index xs,
    slice-write_at_self b.bytes b.writer_index xs,
  )

module _ {b : Buffer} (n : ℕ) (v : IsValid b) where
  pub ensure_writable_bytes-IsValid : IsValid (ensure_writable_bytes b n)
  unfolding ensure_writable_bytes
  ensure_writable_bytes-IsValid = ground (arith, make_space-IsValid n v)

  pub ensure_writable_bytes-room : n ≤ writable_bytes (ensure_writable_bytes b n)
  unfolding ensure_writable_bytes
  ensure_writable_bytes-room = ground (arith, make_space-room n v)

  pub contents-ensure_writable_bytes : contents (ensure_writable_bytes b n) ≡ contents b
  unfolding ensure_writable_bytes
  contents-ensure_writable_bytes = ground (arith, contents-make_space n v)

module _ {b : Buffer} (xs : List ℕ) (v : IsValid b) where
  pub append-IsValid : IsValid (append b xs)
  unfolding append
  append-IsValid =
      written-IsValid xs (ensure_writable_bytes-IsValid (length xs) v)
        (ensure_writable_bytes-room (length xs) v)

  pub contents-append : contents (append b xs) ≡ contents b ++ xs
  unfolding append
  contents-append =
      contents-written xs (ensure_writable_bytes-IsValid (length xs) v)
        (ensure_writable_bytes-room (length xs) v)
      ∙ ap (λ ys. ys ++ xs) (contents-ensure_writable_bytes (length xs) v)

-- `readFd` appends what the socket brought, wherever it was put, and an error changes nothing.
abbrev pub received : Option (List ℕ) → List ℕ
received none = []
received (some xs) = xs

abbrev spilled : Buffer → List ℕ → Buffer
spilled b xs = record (copy_in b (take (writable_bytes b) xs)) { writer_index = length b.bytes }

module _ {b : Buffer} (xs : List ℕ) (v : IsValid b) (full : writable_bytes b < length xs) where
  spilled-IsValid : IsValid (spilled b xs)
  unfolding copy_in
  spilled-IsValid = omega (
    arith,
    length-write_at b.bytes b.writer_index (take (writable_bytes b) xs),
    length-take (writable_bytes b) xs,
  )

  contents-spilled : contents (spilled b xs) ≡ contents b ++ take (writable_bytes b) xs
  unfolding copy_in has_written
  contents-spilled =
      ground
        (arith, contents-written (take (writable_bytes b) xs) v, length-take (writable_bytes b) xs)

module _ {b : Buffer} (v : IsValid b) where
  pub read_fd-IsValid : (r : Option (List ℕ)) → IsValid (read_fd b r)
  unfolding read_fd
  read_fd-IsValid none = v
  read_fd-IsValid (some xs) = elim (Bool-cases (leb (length xs) (writable_bytes b))) [
    | inl fits ↦ rw (fits, read_fd) (written-IsValid xs v (leb→le _ _ fits))
    | inr full ↦
        rw (full, read_fd)
          (append-IsValid (drop (writable_bytes b) xs) (spilled-IsValid xs v (ground arith)))
  ]

  pub contents-read_fd : (r : Option (List ℕ)) → contents (read_fd b r) ≡ contents b ++ received r
  unfolding read_fd
  contents-read_fd none = sym (append-nil (contents b))
  contents-read_fd (some xs) = elim (Bool-cases (leb (length xs) (writable_bytes b))) [
    | inl fits ↦ rw (fits, read_fd) (contents-written xs v (leb→le _ _ fits))
    | inr full ↦
        rw (full, read_fd)
          (contents-append (drop (writable_bytes b) xs) (spilled-IsValid xs v (ground arith))
            ∙ ap (λ ys. ys ++ drop (writable_bytes b) xs) (contents-spilled xs v (ground arith))
            ∙ append_assoc (contents b) (take (writable_bytes b) xs) (drop (writable_bytes b) xs)
            ∙ ap (◌++◌ (contents b)) (take-append-drop (writable_bytes b) xs))
  ]
