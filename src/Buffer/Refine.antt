-- ===== src/Buffer/Refine.antt =====
-- A client of src/codec/buffer.h sees a queue of bytes, whatever moves and grows behind it.
use hc_tcp_im_server.Common.{
  ℕ, ◌≤◌, ◌≡◌, refl, sym, ap, ◌∙◌, Option, List, [], ◌∷◌, ◌++◌, arith, length, take, drop,
  take-take_le, drop-all,
}
use mathlib.Core.Path.{ap₂}
use hc_tcp_im_server.Buffer.Vector.{slice}
use hc_tcp_im_server.Buffer.{
  Buffer, contents, readable_bytes, retrieve_as_string, retrieve_all_as_string, append, read_fd,
}
use hc_tcp_im_server.Buffer.Contents.{
  IsValid, length-contents, retrieve-IsValid, contents-retrieve, append-IsValid, contents-append,
  received, read_fd-IsValid, contents-read_fd,
}

-- The calls that a connection makes.
pub data Op : Type 0 where
  appends : List ℕ → Op
  reads : Option (List ℕ) → Op
  takes : ℕ → Op
  takes_all : Op

-- What a call returns, and the buffer after it.
pub step : Buffer → Op → List ℕ × Buffer
step b (appends xs) = ([], append b xs)
step b (reads r) = ([], read_fd b r)
step b (takes n) = retrieve_as_string b n
step b takes_all = retrieve_all_as_string b

pub run : Buffer → List Op → List (List ℕ)
run b [] = []
run b (op ∷ ops) = let (out, b') = step b op in out ∷ run b' ops

-- The same over the plain queue of bytes.
pub queue_step : List ℕ → Op → List ℕ × List ℕ
queue_step q (appends xs) = ([], q ++ xs)
queue_step q (reads r) = ([], q ++ received r)
queue_step q (takes n) = (take n q, drop n q)
queue_step q takes_all = (q, [])

pub queue_run : List ℕ → List Op → List (List ℕ)
queue_run q [] = []
queue_run q (op ∷ ops) = let (out, q') = queue_step q op in out ∷ queue_run q' ops

-- A client asks for no more bytes than there are: the precondition of `retrieveAsString`.
abbrev pub Allowed : List ℕ → List Op → Type 0
Allowed q [] = Unit {0}
Allowed q (appends xs ∷ ops) = Allowed (q ++ xs) ops
Allowed q (reads r ∷ ops) = Allowed (q ++ received r) ops
Allowed q (takes n ∷ ops) = (n ≤ length q) × Allowed (drop n q) ops
Allowed q (takes_all ∷ ops) = Allowed [] ops

prefix-contents :
    {b : Buffer} (n : ℕ)
    → IsValid b
    → n ≤ readable_bytes b
    → slice b.reader_index n b.bytes ≡ take n (contents b)
prefix-contents {b} n v h = sym (take-take_le n (readable_bytes b) (drop b.reader_index b.bytes) h)

-- No sequence of calls that asks for no more bytes than there are tells a valid buffer from the
-- plain queue of its contents.
pub run_refines :
    (ops : List Op) {b : Buffer}
    → IsValid b
    → Allowed (contents b) ops
    → run b ops ≡ queue_run (contents b) ops
unfolding run queue_run step queue_step retrieve_as_string retrieve_all_as_string
run_refines [] v a = refl
run_refines (appends xs ∷ ops) {b} v a =
    let e = contents-append xs v in
    ap (◌∷◌ []) (run_refines ops (append-IsValid xs v) (rw e a) ∙ ap (λ q. queue_run q ops) e)
run_refines (reads r ∷ ops) {b} v a =
    let e = contents-read_fd v r in
    ap (◌∷◌ []) (run_refines ops (read_fd-IsValid v r) (rw e a) ∙ ap (λ q. queue_run q ops) e)
run_refines (takes n ∷ ops) {b} v a =
    let e = contents-retrieve n v in
    ap₂ ◌∷◌ (prefix-contents n v (omega (arith, length-contents v)))
      (run_refines ops (retrieve-IsValid n v) (rw e a.1) ∙ ap (λ q. queue_run q ops) e)
run_refines (takes_all ∷ ops) {b} v a =
    let n = readable_bytes b in
    let e = contents-retrieve n v ∙ drop-all n (contents b) (omega (arith, length-contents v)) in
    ap (◌∷◌ (contents b))
      (run_refines ops (retrieve-IsValid n v) (rw e a) ∙ ap (λ q. queue_run q ops) e)
