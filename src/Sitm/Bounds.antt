-- ===== src/Sitm/Bounds.antt =====
-- The writes of sitm.c to its two arrays.
use w132d_linux_mainline.Prelude.Memory.{write_bytes_total, write_bytes_overflow}
use w132d_linux_mainline.Prelude.{
  ℕ, ◌+◌, ◌-◌, ◌*◌, ◌/◌, ◌%◌, ◌^◌, ◌≤◌, ◌<◌, ◌≡◌, ◌⊎◌, refl, ◌∙◌, ap, List, ◌∷◌, none, arith,
  length, length-replicate, Returns, Returns-bind,
}
use w132d_linux_mainline.Sitm.{brand_new, Receive, receive_body, tail_of, finish, zeros}

-- A body that is longer than the buffer: when the fifo has all of it, the read writes past the end
-- of the buffer.
pub receive_body_overflow :
    {S : Type 0} (kfifo_out : S → ℕ → List ℕ × S) (byte : ℕ) (r : Receive) (s : S)
    → 0 < r.bytes_remaining
    → r.bytes_remaining < 2 ^ 16
    → length r.buffer < r.index + r.bytes_remaining
    → length (kfifo_out s (r.bytes_remaining - 1)).0 ≡ r.bytes_remaining - 1
    → receive_body kfifo_out byte r s ≡ none
unfolding receive_body
receive_body_overflow kfifo_out byte r s pos small big full =
    let left : (r.bytes_remaining + (2 ^ 16 - 1)) % 2 ^ 16 ≡ r.bytes_remaining - 1 = omega arith in
    let out = (kfifo_out s ((r.bytes_remaining + (2 ^ 16 - 1)) % 2 ^ 16)).0 in
    let got : length out ≡ r.bytes_remaining - 1 = ap (λ n. length (kfifo_out s n).0) left ∙ full in
    rw (write_bytes_overflow r.buffer r.index byte out (omega (arith, got))) refl

-- A body that fits: no write is out of bounds, what is read and what is left make up the body, and
-- the buffer keeps its size. The fifo gives at most what it is asked for.
pub receive_body-Fits :
    {S : Type 0} (kfifo_out : S → ℕ → List ℕ × S) (byte : ℕ) (r : Receive) (s : S)
    → ((s' : S) (n : ℕ) → length (kfifo_out s' n).0 ≤ n)
    → 0 < r.bytes_remaining
    → r.index + r.bytes_remaining ≤ length r.buffer
    → length r.buffer < 2 ^ 16
    → Returns (receive_body kfifo_out byte r s) (λ (r', s').
      (length r'.buffer ≡ length r.buffer)
      × (r'.index + r'.bytes_remaining ≡ r.index + r.bytes_remaining)
      × (r.index < r'.index))
unfolding receive_body
receive_body-Fits kfifo_out byte r s law pos fits small =
    let left = (r.bytes_remaining + (2 ^ 16 - 1)) % 2 ^ 16 in
    let out = (kfifo_out s left).0 in
    let bound : length out ≤ left = law s left in
    Returns-bind _ (λ buf. length buf ≡ length r.buffer) _
      (write_bytes_total r.buffer r.index (byte ∷ out) (omega (arith, bound)))
      (λ buf e. (_, refl, (e, omega (arith, bound), omega (arith, bound))))

-- A complete command or ACL packet is filled up with zeros to the next multiple of 4 that is past
-- its end: one that is aligned already gets four of them.
pub finish_pads :
    (r : Receive)
    → (r.type ≡ 1) ⊎ (r.type ≡ 2)
    → r.index + 4 ≤ length r.buffer
    → length r.buffer < 2 ^ 16
    → Returns (finish r) (λ (frame, r').
      (r'.index ≡ (r.index / 4 + 1) * 4)
      × (length r'.buffer ≡ length r.buffer)
      × (r'.state ≡ brand_new))
unfolding finish tail_of
finish_pads r kind fits small =
    let made : length (zeros (tail_of r)) ≡ tail_of r = length-replicate (tail_of r) 0 in
    let tail : tail_of r ≡ 4 - (r.index + 4) % 4 = ground (arith, kind) in
    Returns-bind _ (λ buf. length buf ≡ length r.buffer) _
      (write_bytes_total r.buffer r.index (zeros (tail_of r)) (omega (arith, tail, made)))
      (λ buf e. (_, refl, (omega (arith, tail), e, refl)))
