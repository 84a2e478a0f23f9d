-- ===== src/Sitm.antt =====
-- tty-sdio/alignment/sitm.c: packets of the host controller interface, cut out of a stream of bytes.
-- A packet is its type, a preamble with its length, and its body.
pub mod Bounds
pub mod Overflow
mod Tests
use w132d_linux_mainline.Prelude.Memory.{write_bytes}
use w132d_linux_mainline.Prelude.{
  ℕ, zero, suc, ◌+◌, ◌-◌, ◌*◌, ◌%◌, ◌^◌, Bool, true, false, ◌||◌, List, [], ◌∷◌, ◌++◌, Option, none,
  some, ltb, ◌==◌, if◌then◌else◌, ◌>>=◌, length, get_elem?, set, replicate, take,
}

-- `enum receive_state_t`
pub data ReceiveState : Type 0 where
  brand_new : ReceiveState
  preamble_bytes : ReceiveState
  body : ReceiveState
  ignore : ReceiveState
  finished : ReceiveState

-- `struct packet_receive_data_t` without its `fifo`
pub record Receive : Type 0 where
  pub state : ReceiveState
  pub bytes_remaining : ℕ
  pub type : ℕ
  pub preamble : List ℕ
  pub index : ℕ
  pub buffer : List ℕ

abbrev pub type_command : ℕ
type_command = 1

abbrev pub type_acl : ℕ
type_acl = 2

-- `HCI_HAL_SERIAL_BUFFER_SIZE + BYTE_ALIGNMENT`
abbrev pub buffer_size : ℕ
buffer_size = 1026 + 4

-- `preamble_sizes`, for the types 1 to 4
unfoldable pub preamble_size : ℕ → ℕ
preamble_size type = if type == 2 then 4 else (if type == 4 then 2 else 3)

-- `RETRIEVE_ACL_LENGTH`
unfoldable pub acl_length : List ℕ → Option ℕ
acl_length p = get_elem? p 4 >>= λ high. get_elem? p 3 >>= λ low. some (high * 2 ^ 8 + low)

-- A type that is none leaves the state as it is.
unfoldable pub start_packet : ℕ → Receive → Bool × Receive
start_packet byte r = if ltb 4 byte || ltb byte 1 then (false, r) else (
  true,
  record r {
    type = byte;
    bytes_remaining = preamble_size byte + 1;
    preamble = replicate 5 0;
    index = 0;
    state = preamble_bytes;
  },
)

-- The end of the preamble: the length of the body.
unfoldable pub end_preamble : ℕ → Receive → Option Receive
end_preamble byte r = (if r.type == type_acl then acl_length r.preamble else some byte) >>= λ n.
    write_bytes r.buffer 0 (take r.index r.preamble) >>= λ buf.
    some (record r { bytes_remaining = n; buffer = buf; state = if n == 0 then finished else body })

unfoldable pub receive_preamble : ℕ → Receive → Option Receive
receive_preamble byte r = write_bytes r.preamble r.index (byte ∷ []) >>= λ p.
    let r' : Receive = record r {
      preamble = p;
      index = (r.index + 1) % 2 ^ 16;
      bytes_remaining = (r.bytes_remaining + (2 ^ 16 - 1)) % 2 ^ 16;
    } in
    if r'.bytes_remaining == 0 then end_preamble byte r' else some r'

-- The zeros at the end of a command or of ACL data.
unfoldable pub tail_of : Receive → ℕ
tail_of r = if r.type == type_command || r.type == type_acl then 4 - (r.index + 4) % 4 else 0

abbrev pub zeros : ℕ → List ℕ
zeros n = replicate n 0

-- The packet that is complete is given to `frame_complete`: here, it is returned.
unfoldable pub finish : Receive → Option (List ℕ × Receive)
finish r = write_bytes r.buffer r.index (zeros (tail_of r)) >>= λ buf.
    let n = (r.index + tail_of r) % 2 ^ 16 in
    some (take n buf, record r { buffer = buf; index = n; state = brand_new })

-- `kfifo_out` of the kernel, which `data_ready` calls, is a parameter: at most that many bytes.
module _ {S : Type 0} (kfifo_out : S → ℕ → List ℕ × S) where
  -- The body: the byte, and as much of the rest as there is.
  unfoldable pub receive_body : ℕ → Receive → S → Option (Receive × S)
  receive_body byte r s =
      let left = (r.bytes_remaining + (2 ^ 16 - 1)) % 2 ^ 16 in
      let out = kfifo_out s left in
      write_bytes r.buffer r.index (byte ∷ out.0) >>= λ buf.
      let rest = (left + 2 ^ 16 - length out.0) % 2 ^ 16 in
      some (
        record r {
          buffer = buf;
          index = (r.index + 1 + length out.0) % 2 ^ 16;
          bytes_remaining = rest;
          state = if rest == 0 then finished else r.state;
        },
        out.1,
      )

  -- The `switch` over the state, for one byte.
  unfoldable pub receive_byte : ℕ → ReceiveState → Receive → S → Option (Receive × S)
  receive_byte byte brand_new r s =
      let (known, r') = start_packet byte r in
      if known then (receive_preamble byte r' >>= λ r''. some (r'', s)) else some (r, s)
  receive_byte byte preamble_bytes r s = receive_preamble byte r >>= λ r'. some (r', s)
  receive_byte byte body r s = receive_body byte r s
  receive_byte byte ignore r s =
      let left = (r.bytes_remaining + (2 ^ 16 - 1)) % 2 ^ 16 in
      some (record r { bytes_remaining = left; state = if left == 0 then brand_new else ignore }, s)
  receive_byte byte finished r s = some (r, s)

  -- What follows the `switch`.
  unfoldable pub complete : ReceiveState → Receive → Option (List (List ℕ) × Receive)
  complete finished r = finish r >>= λ (frame, r'). some (frame ∷ [], r')
  complete brand_new r = some ([], r)
  complete preamble_bytes r = some ([], r)
  complete body r = some ([], r)
  complete ignore r = some ([], r)

  -- The state `IGNORE`, which nothing sets, leaves the loop at its end.
  unfoldable pub leaves : ReceiveState → ReceiveState → Bool
  leaves ignore brand_new = true
  leaves ignore preamble_bytes = false
  leaves ignore body = false
  leaves ignore ignore = false
  leaves ignore finished = false
  leaves brand_new t = false
  leaves preamble_bytes t = false
  leaves body t = false
  leaves finished t = false

  -- One round of the loop of `parse_frame`, and whether it goes on.
  unfoldable pub round : ℕ → Receive → S → Option (Bool × List (List ℕ) × Receive × S)
  round byte r s = receive_byte byte r.state r s >>= λ (r', s').
      if leaves r.state r'.state
      then some (false, [], r', s')
      else (complete r'.state r' >>= λ (frames, r''). some (true, frames, r'', s'))

  -- Every round takes a byte, so that a round for each byte of the fifo, and one more, are enough.
  unfoldable pub parse_frame : ℕ → Receive → S → Option (List (List ℕ) × Receive × S)
  parse_frame zero r s = none
  parse_frame (suc fuel) r s =
      let got = kfifo_out s 1 in
      elim got.0 [
        | [] ↦ some ([], r, got.1)
        | byte ∷ more ↦ round byte r got.1 >>= λ (on, frames, r', s').
            let rest = parse_frame fuel r' s' in
            if on
            then (rest >>= λ (frames', r'', s''). some (frames ++ frames', r'', s''))
            else some (frames, r', s')
      ]

  -- `kfifo_avail` and `kfifo_in` of the kernel are parameters; a null `rd` is `none`. The result is
  -- what `sitm_write` returns, the packets that are complete, and the state.
  unfoldable pub sitm_write :
      (S → ℕ)
      → (S → List ℕ → S)
      → ℕ
      → List ℕ
      → Option Receive
      → S
      → Option (ℕ × List (List ℕ) × Option Receive × S)
  sitm_write kfifo_avail kfifo_in fuel buf none s = some (length buf, [], none, s)
  sitm_write kfifo_avail kfifo_in fuel buf (some r) s =
      let room = kfifo_avail s in
      let count = (if ltb room (length buf) then room else length buf) in
      let parsed = parse_frame fuel r (kfifo_in s (take count buf)) in
      if room == 0
      then some (0, [], some r, s)
      else (parsed >>= λ (frames, r', s'). some (count, frames, some r', s'))
