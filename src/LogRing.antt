-- ===== src/LogRing.antt =====
-- unisocwcn/platform/bufring.c: the ring that the firmware's log goes through.
pub mod Storage
pub mod Writing
pub mod Append
pub mod Reading
pub mod Spec
pub mod Calls
pub mod Refine
pub mod Alloc
pub mod Timeout
pub mod Extend
mod Tests
use w132d_linux_mainline.Prelude.{
  ℕ, zero, suc, ◌+◌, ◌-◌, ◌%◌, ◌/◌, Bool, true, false, ◌&&◌, not, List, [], ◌∷◌, ◌++◌, Option, none,
  some, ltb, leb, ◌==◌, if◌then◌else◌, ◌>>=◌, length, replicate, take, drop,
}
use w132d_linux_mainline.Prelude.Memory.{write_bytes, read_bytes}

-- `struct mdbg_ring_t`: `rp` and `wp` count from `pbuff`, and `end` is the index `size - 1`.
pub record Ring : Type 0 where
  pub size : ℕ
  pub pbuff : List ℕ
  pub rp : ℕ
  pub wp : ℕ
  pub p_order_flag : Bool

-- `_MDBG_RING_REMAIN`
unfoldable pub ring_free_space : Ring → ℕ
ring_free_space r = if leb r.rp r.wp then r.size + r.rp - r.wp else r.rp - r.wp

unfoldable pub ring_readable_len : Ring → ℕ
ring_readable_len r = r.size - ring_free_space r

-- `MDBG_RING_R` and `MDBG_RING_W`
pub data Rw : Type 0 where
  ring_r : Rw
  ring_w : Rw

abbrev pub past_end : Ring → ℕ → Bool
past_end r i = ltb (r.size - 1) i

unfoldable pub ring_over_loop : Ring → ℕ → Rw → Bool × Ring
ring_over_loop r len ring_r =
    if past_end r (r.rp + len) then (true, record r { p_order_flag = false }) else (false, r)
ring_over_loop r len ring_w =
    if past_end r (r.wp + len) then (true, record r { p_order_flag = true }) else (false, r)

unfoldable pub ring_will_full : Ring → ℕ → Bool
ring_will_full r len = ltb (ring_free_space r) len

unfoldable pub ring_clear : Ring → Ring
ring_clear r = record r { rp = r.wp }

unfoldable pub ring_reset : Ring → Ring
ring_reset r = record r { wp = 0; rp = 0 }

-- -MDBG_ERR_BAD_PARAM, -EFAULT, or a number of bytes
pub data Ret : Type 0 where
  bad_param : Ret
  fault : Ret
  len : ℕ → Ret

abbrev pub at_most : ℕ → ℕ → ℕ
at_most cont_len n = if leb n cont_len then n else cont_len

-- The wait of `mdbg_ring_write_timeout`, `cnt` rounds of 20 ms at most, where `others` is what the
-- readers do in a round.
unfoldable pub wait_space : (ℕ → Ring → Ring) → ℕ → Ring → ℕ → Ring
wait_space others zero r n = r
wait_space others (suc cnt) r n =
    let later = wait_space others cnt (others cnt r) n in
    if leb (ring_free_space r) n then later else r

-- `uncopied o n`: how many of the `n` bytes at the offset `o` of `buf` the kernel's copy_from_user
-- or copy_to_user could not copy; none of them, where `buf` is in the kernel.
module _ (uncopied : ℕ → ℕ → ℕ) where
  -- What is in the ring after a copy to it: the kernel puts zeros for what it cannot read.
  unfoldable pub arrived : ℕ → List ℕ → List ℕ
  arrived o bs =
      take (length bs - uncopied o (length bs)) bs ++ replicate (uncopied o (length bs)) 0

  abbrev pub whole_copy : ℕ → ℕ → Bool
  whole_copy o n = uncopied o n == 0

  -- Both copies are made, and either may fail.
  unfoldable pub write_parts : Ring → List ℕ → ℕ → ℕ → Option (Ret × Ring)
  write_parts r bs len1 len2 = write_bytes r.pbuff r.wp (arrived 0 (take len1 bs)) >>= λ m.
      write_bytes m 0 (arrived len1 (take len2 (drop len1 bs))) >>= λ m'. some (
        if whole_copy 0 len1 && whole_copy len1 len2
        then (len (length bs), record r { pbuff = m'; wp = len2 })
        else (fault, record r { pbuff = m' }))

  abbrev pub write_around : Ring → List ℕ → Option (Ret × Ring)
  write_around r bs =
      let len1 = r.size - r.wp in write_parts r bs len1 ((length bs - len1) % r.size)

  unfoldable pub write_straight : Ring → List ℕ → Option (Ret × Ring)
  write_straight r bs = write_bytes r.pbuff r.wp (arrived 0 bs) >>= λ m. some (
      if whole_copy 0 (length bs)
      then (len (length bs), record r { pbuff = m; wp = r.wp + length bs })
      else (fault, record r { pbuff = m }))

  unfoldable pub write_freely : Ring → List ℕ → Option (Ret × Ring)
  write_freely r bs =
      let loop = ring_over_loop r (length bs) ring_w in
      if loop.0 then write_around loop.1 bs else write_straight loop.1 bs

  -- `mdbg_ring_write` of the bytes at `buf`; `opened` is `mdbg_dev->open_count != 0`. The Boolean of
  -- the result tells whether the readers of the log were woken up.
  unfoldable pub ring_write : Bool → Ring → List ℕ → Option (Bool × (Ret × Ring))
  ring_write opened r bs =
      if length bs == 0
      then some (false, (bad_param, r))
      else if leb (ring_free_space r) (length bs) && opened
      then some (true, (len (length bs), r))
      else write_freely r bs >>= λ q. some (false, q)

  unfoldable pub read_parts : Ring → ℕ → ℕ → ℕ → Option ((Ret × List ℕ) × Ring)
  read_parts r n len1 len2 = read_bytes r.pbuff r.rp len1 >>= λ a.
      read_bytes r.pbuff 0 len2 >>= λ b. some (
        if whole_copy 0 len1 && whole_copy len1 len2
        then ((len n, a ++ b), record r { rp = len2 })
        else ((fault, []), r))

  abbrev pub read_around : Ring → ℕ → Option ((Ret × List ℕ) × Ring)
  read_around r n = let len1 = r.size - r.rp in read_parts r n len1 (n - len1)

  unfoldable pub read_straight : Ring → ℕ → Option ((Ret × List ℕ) × Ring)
  read_straight r n = read_bytes r.pbuff r.rp n >>= λ a.
      some (if whole_copy 0 n then ((len n, a), record r { rp = r.rp + n }) else ((fault, []), r))

  unfoldable pub read_len : Ring → ℕ → Option ((Ret × List ℕ) × Ring)
  read_len r n =
      let loop = ring_over_loop r n ring_r in
      if loop.0 then read_around loop.1 n else read_straight loop.1 n

  -- `mdbg_ring_read` of at most `n` bytes: the return value with the bytes that `buf` then holds.
  -- What a copy that failed has left there is not read.
  unfoldable pub ring_read : Ring → ℕ → Option ((Ret × List ℕ) × Ring)
  ring_read r n =
      let read = at_most (ring_readable_len r) n in
      if n == 0
      then some ((bad_param, []), r)
      else if read == 0
      then some ((len 0, []), r)
      else read_len r read

  -- `mdbg_ring_write_timeout`, its time in ms
  unfoldable pub ring_write_timeout :
      (ℕ → Ring → Ring) → ℕ → Bool → Ring → List ℕ → Option (Bool × (Ret × Ring))
  ring_write_timeout others timeout opened r bs =
      ring_write opened (wait_space others (timeout / 20) r (length bs)) bs

-- `mdbg_ring_write_ext`: the place of the old `wp`, where `len` bytes are to be written.
unfoldable pub ring_write_ext : Ring → ℕ → Option ℕ × Ring
ring_write_ext r n =
    let loop = ring_over_loop r n ring_r in
    if n == 0
    then (none, r)
    else if loop.0
    then (none, loop.1)
    else if ring_will_full r n
    then (none, r)
    else (some r.wp, record r { wp = r.wp + n })
