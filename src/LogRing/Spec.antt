-- ===== src/LogRing/Spec.antt =====
-- The calls of bufring.c as those of a bounded queue of bytes.
use w132d_linux_mainline.Prelude.{
  ℕ, ◌+◌, ◌≤◌, ◌<◌, ◌≡◌, Bool, true, false, List, [], ◌∷◌, ◌++◌, Option, some, ◌>>=◌, length, take,
  drop,
}
use w132d_linux_mainline.LogRing.{
  Ring, Ret, bad_param, fault, len, ring_clear, ring_reset, ring_write, ring_read, at_most,
}
use w132d_linux_mainline.LogRing.Storage.{CopyFails}

-- The calls, while the log is open; `uncopied` tells how the copies of the call go.
pub data Op : Type 0 where
  write : (ℕ → ℕ → ℕ) → List ℕ → Op
  read : (ℕ → ℕ → ℕ) → ℕ → Op
  clear : Op
  reset : Op

pub data Answer : Type 0 where
  wrote : Bool → Ret → Answer
  got : Ret → List ℕ → Answer
  done : Answer

unfoldable pub run_op : Op → Ring → Option (Answer × Ring)
run_op (write u bs) r = ring_write u true r bs >>= λ q. some (wrote q.0 q.1.0, q.1.1)
run_op (read u n) r = ring_read u r n >>= λ q. some (got q.0.0 q.0.1, q.1)
run_op clear r = some (done, ring_clear r)
run_op reset r = some (done, ring_reset r)

unfoldable pub run : List Op → Ring → Option (List Answer × Ring)
run [] r = some ([], r)
run (op ∷ ops) r = run_op op r >>= λ a. run ops a.1 >>= λ b. some (a.0 ∷ b.0, b.1)

-- A queue that has room for fewer than `size` bytes: what a call answers, and what it leaves.
pub data Step (size : ℕ) : Op → List ℕ → Answer → List ℕ → Type 0 where
  write_nothing :
      {u : ℕ → ℕ → ℕ} {bs q : List ℕ}
      → length bs ≡ 0
      → Step size (write u bs) q (wrote false bad_param) q
  discarded :
      {u : ℕ → ℕ → ℕ} {bs q : List ℕ}
      → 0 < length bs
      → size ≤ length q + length bs
      → Step size (write u bs) q (wrote true (len (length bs))) q
  written :
      {u : ℕ → ℕ → ℕ} {bs q : List ℕ}
      → 0 < length bs
      → length q + length bs < size
      → Step size (write u bs) q (wrote false (len (length bs))) (q ++ bs)
  write_fault :
      {u : ℕ → ℕ → ℕ} {bs q : List ℕ}
      → 0 < length bs
      → length q + length bs < size
      → CopyFails u
      → Step size (write u bs) q (wrote false fault) q
  read_nothing : {u : ℕ → ℕ → ℕ} {q : List ℕ} → Step size (read u 0) q (got bad_param []) q
  was_read :
      {u : ℕ → ℕ → ℕ} {n : ℕ} {q : List ℕ}
      → 0 < n
      → Step size (read u n) q (got (len (at_most (length q) n)) (take n q)) (drop n q)
  read_fault :
      {u : ℕ → ℕ → ℕ} {n : ℕ} {q : List ℕ}
      → 0 < n
      → 0 < length q
      → CopyFails u
      → Step size (read u n) q (got fault []) q
  cleared : {q : List ℕ} → Step size clear q done []
  was_reset : {q : List ℕ} → Step size reset q done []

pub data Steps (size : ℕ) : List Op → List ℕ → List Answer → List ℕ → Type 0 where
  nothing : {q : List ℕ} → Steps size [] q [] q
  next :
      {op : Op} {ops : List Op} {q q' q'' : List ℕ} {a : Answer} {as' : List Answer}
      → Step size op q a q'
      → Steps size ops q' as' q''
      → Steps size (op ∷ ops) q (a ∷ as') q''
