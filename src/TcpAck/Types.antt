-- ===== src/TcpAck/Types.antt =====
-- The structs of tcp_ack.h, and the arithmetic of sequence numbers and of time.
use w132d_linux_mainline.Prelude.{ℕ, ◌+◌, ◌-◌, ◌%◌, ◌^◌, Bool, ◌||◌, List, Option, leb, ◌==◌}

abbrev pub tcp_ack_num : ℕ
tcp_ack_num = 32

abbrev pub tcp_ack_drop_cnt : ℕ
tcp_ack_drop_cnt = 24

abbrev pub ack_old_time : ℕ
ack_old_time = 4000

abbrev pub max_tcp_ack : ℕ
max_tcp_ack = 200

abbrev pub min_win : ℕ
min_win = 256

abbrev pub size_kb : ℕ
size_kb = 1024

-- `SPRDWL_U32_BEFORE`: the difference of 32 bits, read as a signed number, is at most 0.
abbrev pub u32_before : ℕ → ℕ → Bool
u32_before a b = let d = (a + 2 ^ 32 - b) % 2 ^ 32 in d == 0 || leb (2 ^ 31) d

-- `time_after` of the kernel's jiffies.h: the difference of 64 bits is negative.
abbrev pub time_after : ℕ → ℕ → Bool
time_after a b = leb (2 ^ 63) ((b + 2 ^ 64 - a) % 2 ^ 64)

-- A `struct sprdwl_msg_buf` is named by a number.
abbrev pub Msg : Type 0
Msg = ℕ

pub record AckMsg : Type 0 where
  pub source : ℕ
  pub dest : ℕ
  pub saddr : ℕ
  pub daddr : ℕ
  pub seq : ℕ
  pub win : ℕ

-- `timer` is the time at which it expires, `none` if it is not pending.
pub record AckInfo : Type 0 where
  pub busy : Bool
  pub drop_cnt : ℕ
  pub psh_flag : Bool
  pub psh_seq : ℕ
  pub win_scale : ℕ
  pub last_time : ℕ
  pub timeout : ℕ
  pub timer : Option ℕ
  pub msgbuf : Option Msg
  pub in_send_msg : Option Msg
  pub ack_msg : AckMsg

-- `max_num` is the bit pattern of an `int`; the index -1 is `none`. `dropped` and `transmitted`
-- record the messages handed to `sprdwl_intf_tcp_drop_msg` and `sprdwl_intf_tx`.
pub record Manage : Type 0 where
  pub enable : Bool
  pub max_num : ℕ
  pub free_index : Option ℕ
  pub last_time : ℕ
  pub timeout : ℕ
  pub max_drop_cnt : ℕ
  pub ack_info : List AckInfo
  pub ack_winsize : ℕ
  pub dropped : List Msg
  pub transmitted : List Msg
