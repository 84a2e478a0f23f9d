-- ===== src/TcpAck/Parse.antt =====
-- What tcp_ack.c reads in a frame. The frame is the memory from the start of the buffer on: a byte
-- for each offset, also past the end of the buffer, which the code does not look at.
pub mod Options
pub mod Checked
use w132d_linux_mainline.Prelude.{
  ℕ, zero, suc, ◌+◌, ◌-◌, ◌*◌, ◌/◌, ◌%◌, ◌^◌, Bool, true, false, ◌&&◌, ◌||◌, not, Option, none,
  some, ltb, ◌==◌, if◌then◌else◌, ◌>>=◌,
}
use w132d_linux_mainline.TcpAck.Types.{AckMsg}

abbrev pub Memory : Type 0
Memory = ℕ → ℕ

-- `ntohs` and `ntohl` of a field; the code only compares addresses and ports.
abbrev pub be16 : Memory → ℕ → ℕ
be16 buf i = buf i * 2 ^ 8 + buf (i + 1)

abbrev pub be32 : Memory → ℕ → ℕ
be32 buf i = be16 buf i * 2 ^ 16 + be16 buf (i + 2)

-- The Ethernet header has 14 bytes.
abbrev pub ip_at : ℕ
ip_at = 14

abbrev pub ip_hdr_len : Memory → ℕ
ip_hdr_len buf = buf ip_at % 16 * 4

abbrev pub tcp_at : Memory → ℕ
tcp_at buf = ip_at + ip_hdr_len buf

-- An IPv4 frame with a TCP segment that has the ACK flag.
unfoldable pub is_tcp_ack : Memory → Bool
is_tcp_ack buf =
    be16 buf 12 == 0x0800
    && buf ip_at / 16 == 4
    && buf (ip_at + 9) == 6
    && not (buf (tcp_at buf + 13) / 16 % 2 == 0)

-- A received segment with the PSH flag, with its ends swapped.
unfoldable pub tcp_check_quick_ack : Memory → Option AckMsg
tcp_check_quick_ack buf =
    if is_tcp_ack buf && not (buf (tcp_at buf + 13) / 8 % 2 == 0)
    then some (record {
      saddr = be32 buf (ip_at + 16);
      daddr = be32 buf (ip_at + 12);
      source = be16 buf (tcp_at buf + 2);
      dest = be16 buf (tcp_at buf);
      seq = be32 buf (tcp_at buf + 4);
      win = 0;
    })
    else none

-- Of an option at `ptr`, past its kind and size: the new value of `drop` and of `win_scale`.
unfoldable pub read_option : Memory → ℕ → ℕ → ℕ → ℕ → ℕ × ℕ
read_option buf ptr opcode drop win_scale =
    if opcode == 8
    then (drop, win_scale)
    else (if opcode == 3
        then (drop, if ltb (buf ptr) 15 then 2 ^ buf ptr % 2 ^ 16 else win_scale)
        else (2, win_scale))

-- The loop over the options in `is_drop_tcp_ack`. The end mark and an option of a bad size leave
-- the `switch`, and not the loop. `none` is the end of the fuel.
unfoldable pub read_options : ℕ → Memory → ℕ → ℕ → ℕ → ℕ → Option (ℕ × ℕ)
read_options zero buf ptr len drop win_scale = none
read_options (suc fuel) buf ptr len drop win_scale = elim (not (len == 0) && not (drop == 0)) [
  | false ↦ some (drop, win_scale)
  | true ↦ elim (buf ptr == 0) [
    | true ↦ read_options fuel buf (ptr + 1) len drop win_scale
    | false ↦ elim (buf ptr == 1) [
      | true ↦ read_options fuel buf (ptr + 1) (len - 1) drop win_scale
      | false ↦ elim (ltb (buf (ptr + 1)) 2 || ltb len (buf (ptr + 1))) [
        | true ↦ read_options fuel buf (ptr + 2) len drop win_scale
        | false ↦
            let r = read_option buf (ptr + 2) (buf ptr) drop win_scale in
            read_options fuel buf (ptr + buf (ptr + 1)) (len - buf (ptr + 1)) r.0 r.1
      ]
    ]
  ]
]

-- The fuel is the environment's: a run may go on past the frame.
unfoldable pub is_drop_tcp_ack : ℕ → Memory → ℕ → ℕ → ℕ → Option (ℕ × ℕ)
is_drop_tcp_ack fuel buf tcp tcp_tot_len win_scale =
    let len = buf (tcp + 12) / 16 * 4 in
    let options = read_options fuel buf (tcp + 20) (len - 20) 1 win_scale in
    if ltb len tcp_tot_len then some (0, win_scale) else options

abbrev pub ack_of : Memory → AckMsg
ack_of buf = record {
  saddr = be32 buf (ip_at + 12);
  daddr = be32 buf (ip_at + 16);
  source = be16 buf (tcp_at buf);
  dest = be16 buf (tcp_at buf + 2);
  seq = be32 buf (tcp_at buf + 8);
  win = be16 buf (tcp_at buf + 14);
}

abbrev pub with_msg : Memory → ℕ × ℕ → ℕ × Option AckMsg × ℕ
with_msg buf (drop, scale) = (drop, (if drop == 0 then none else some (ack_of buf)), scale)

-- The result is `drop` with the message, which is filled in only if `drop` is positive, and
-- `win_scale`. `tot_len` less the length of the IP header is an `int`, and a negative one is below
-- every length, as 0 is.
unfoldable pub tcp_check_ack : ℕ → Memory → ℕ → Option (ℕ × Option AckMsg × ℕ)
tcp_check_ack fuel buf win_scale =
    if is_tcp_ack buf
    then (is_drop_tcp_ack fuel buf (tcp_at buf) (be16 buf (ip_at + 2) - ip_hdr_len buf) win_scale
        >>= λ r. some (with_msg buf r))
    else some (0, none, win_scale)
