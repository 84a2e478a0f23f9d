-- ===== src/TcpAck/Filter.antt =====
-- The entry points of tcp_ack.c, on the whole `struct sprdwl_tcp_ack_manage`. The handlers run one
-- at a time. `none` is an access out of the array, the end of the fuel, or a read of the message
-- that `sprdwl_tcp_check_ack` has not filled in.
use w132d_linux_mainline.Prelude.{
  ℕ, zero, suc, ◌+◌, ◌-◌, ◌*◌, ◌/◌, ◌%◌, ◌^◌, Bool, true, false, ◌&&◌, not, List, [], ◌∷◌, ◌++◌,
  map, Option, none, some, ltb, leb, ◌==◌, if◌then◌else◌, ◌>>=◌, get_elem?, set, replicate,
}
use w132d_linux_mainline.TcpAck.Types.{
  Msg, AckMsg, AckInfo, Manage, tcp_ack_num, tcp_ack_drop_cnt, ack_old_time, max_tcp_ack, min_win,
  size_kb,
}
use w132d_linux_mainline.TcpAck.Parse.{Memory, tcp_check_ack, tcp_check_quick_ack}
use w132d_linux_mainline.TcpAck.Slots.{tcp_ack_match, tcp_ack_update, tcp_ack_alloc_index}
use w132d_linux_mainline.TcpAck.Handle.{tcp_ack_handle, slot_timeout, slot_sent}

abbrev pub drop_list : Option Msg → List Msg
drop_list none = []
drop_list (some msg) = msg ∷ []

abbrev pub put : Manage → ℕ → AckInfo → Manage
put m i a = record m { ack_info = set m.ack_info i a }

abbrev zero_msg : AckMsg
zero_msg = record { source = 0; dest = 0; saddr = 0; daddr = 0; seq = 0; win = 0 }

abbrev pub initial_slot : (ℕ → ℕ) → ℕ → AckInfo
initial_slot msecs_to_jiffies now = record {
  busy = false;
  drop_cnt = 0;
  psh_flag = false;
  psh_seq = 0;
  win_scale = 0;
  last_time = now;
  timeout = msecs_to_jiffies ack_old_time;
  timer = none;
  msgbuf = none;
  in_send_msg = none;
  ack_msg = zero_msg;
}

-- `sprdwl_tcp_ack_init`; `msecs_to_jiffies` is the kernel's.
unfoldable pub tcp_ack_init : (ℕ → ℕ) → ℕ → Manage
tcp_ack_init msecs_to_jiffies now = record {
  enable = true;
  max_num = 0;
  free_index = some 0;
  last_time = now;
  timeout = msecs_to_jiffies ack_old_time;
  max_drop_cnt = tcp_ack_drop_cnt;
  ack_info = replicate tcp_ack_num (initial_slot msecs_to_jiffies now);
  ack_winsize = min_win;
  dropped = [];
  transmitted = [];
}

-- The messages of the slots that hold one, in the order of the slots.
unfoldable pub held_messages : List AckInfo → List Msg
held_messages [] = []
held_messages (a ∷ xs) = drop_list a.msgbuf ++ held_messages xs

abbrev pub emptied : AckInfo → AckInfo
emptied a = record a { timer = none; msgbuf = none }

-- The loop of `sprdwl_tcp_ack_deinit` and of `enable_tcp_ack_delay`: it drops what is held back.
unfoldable pub tcp_ack_deinit : Manage → Manage
tcp_ack_deinit m = record m {
  enable = false;
  ack_info = map emptied m.ack_info;
  dropped = m.dropped ++ held_messages m.ack_info;
}

-- `enable` is `buf[offset] - '0'`.
unfoldable pub enable_tcp_ack_delay : Memory → ℕ → Manage → Manage
enable_tcp_ack_delay buf offset m =
    if buf offset == 48 then tcp_ack_deinit m else record m { enable = true }

-- `sprdwl_tcp_ack_timeout`, for the timer of a slot.
unfoldable pub tcp_ack_timeout : ℕ → Manage → Option Manage
tcp_ack_timeout i m = get_elem? m.ack_info i >>= λ a.
    let r = slot_timeout a in some (record (put m i r.0) { transmitted = m.transmitted ++ r.1 })

-- The part of `sprdwl_filter_rx_tcp_ack` for a segment that asks for an acknowledgement.
unfoldable pub mark_quick_ack : AckMsg → Manage → Option Manage
mark_quick_ack k m = elim (tcp_ack_match m k) [
  | none ↦ some m
  | some i ↦
      get_elem? m.ack_info i >>= λ a. some (put m i (record a { psh_flag = true; psh_seq = k.seq }))
]

unfoldable pub filter_rx_tcp_ack : Memory → ℕ → Manage → Option Manage
filter_rx_tcp_ack buf plen m =
    if m.enable && not (ltb max_tcp_ack plen)
    then elim (tcp_check_quick_ack buf) [ none ↦ some m | some k ↦ mark_quick_ack k m ]
    else some m

-- A small window: the acknowledgement is sent at once. A window scale is at most 2 ^ 14, so that the
-- product is below 2 ^ 30.
unfoldable pub ack_type : Manage → AckInfo → AckMsg → ℕ → ℕ
ack_type m a k drop =
    if ltb (a.win_scale * k.win) (m.ack_winsize * size_kb % 2 ^ 32) then 2 else drop

unfoldable pub new_scale : ℕ → AckInfo → AckInfo
new_scale win_scale a =
    if not (win_scale == 0) && not (a.win_scale == win_scale)
    then record a { win_scale = win_scale }
    else a

-- The acknowledgement is handled, and what it replaces is dropped.
unfoldable pub send_handled : (ℕ → ℕ) → ℕ → ℕ → Msg → AckMsg → ℕ → AckInfo → Manage → Bool × Manage
send_handled msecs now i msgbuf k drop a m =
    let r = tcp_ack_handle msecs now m.max_drop_cnt msgbuf a k (ack_type m a k drop) in
    (r.ret, record (put m i r.slot) { dropped = m.dropped ++ drop_list r.drop_msg })

-- The part of `sprdwl_filter_send_tcp_ack` for a connection that has a slot.
unfoldable pub send_matched :
    (ℕ → ℕ) → ℕ → ℕ → Msg → AckMsg → ℕ → ℕ → AckInfo → Manage → Bool × Manage
send_matched msecs now i msgbuf k drop win_scale a m =
    let b = new_scale win_scale a in
    if ltb 0 drop then send_handled msecs now i msgbuf k drop b m else (false, put m i b)

abbrev pub new_slot : ℕ → ℕ → AckMsg → ℕ → AckInfo → AckInfo
new_slot now max_drop_cnt k win_scale a = record a {
  busy = true;
  psh_flag = false;
  last_time = now;
  drop_cnt = max_drop_cnt;
  win_scale = if win_scale == 0 then 1 else win_scale;
  ack_msg = record k { win = a.ack_msg.win };
}

-- A new connection in the slot that `sprdwl_tcp_ack_alloc_index` has given, if any.
unfoldable pub fill_slot : ℕ → AckMsg → ℕ → Option ℕ × Manage → Option (Bool × Manage)
fill_slot now k win_scale (none, m) = some (false, m)
fill_slot now k win_scale (some i, m) = get_elem? m.ack_info i >>= λ a.
    some (false, put m i (new_slot now m.max_drop_cnt k win_scale a))

unfoldable pub send_new : ℕ → AckMsg → ℕ → Manage → Option (Bool × Manage)
send_new now k win_scale m = fill_slot now k win_scale (tcp_ack_alloc_index m)

unfoldable pub send_tcp_ack : (ℕ → ℕ) → ℕ → Msg → AckMsg → ℕ → ℕ → Manage → Option (Bool × Manage)
send_tcp_ack msecs now msgbuf k drop win_scale m = elim (tcp_ack_match m k) [
  | none ↦ send_new now k win_scale m
  | some i ↦
      get_elem? m.ack_info i >>= λ a. some (send_matched msecs now i msgbuf k drop win_scale a m)
]

-- What `sprdwl_filter_send_tcp_ack` does with the verdict on a frame.
unfoldable pub dispatch :
    (ℕ → ℕ) → ℕ → Msg → Manage → ℕ × Option AckMsg × ℕ → Option (Bool × Manage)
dispatch msecs now msgbuf m (drop, msg, win_scale) =
    if drop == 0 && win_scale == 0
    then some (false, m)
    else elim msg [ none ↦ none | some k ↦ send_tcp_ack msecs now msgbuf k drop win_scale m ]

-- `sprdwl_filter_send_tcp_ack`; the result `true` tells that the message is taken.
unfoldable pub filter_send_tcp_ack :
    (ℕ → ℕ) → ℕ → ℕ → Msg → Memory → ℕ → Manage → Option (Bool × Manage)
filter_send_tcp_ack msecs fuel now msgbuf buf plen m =
    if m.enable && not (ltb max_tcp_ack plen)
    then (tcp_check_ack fuel buf 0 >>= dispatch msecs now msgbuf (tcp_ack_update now m))
    else some (false, m)

-- `sprdwl_move_tcpack_msg`: a message of `len` bytes has been sent.
unfoldable pub move_tcpack_msg : Msg → ℕ → Manage → Manage
move_tcpack_msg msg len m =
    if m.enable && not (ltb max_tcp_ack len)
    then record m { ack_info = map (slot_sent msg) m.ack_info }
    else m

-- The loop over `n` characters of `adjust_tcp_ack_delay` and `adjust_tcp_ack_delay_win`.
unfoldable pub read_digits : ℕ → Memory → ℕ → ℕ → ℕ
read_digits zero buf i cnt = cnt
read_digits (suc n) buf i cnt =
    let rest = read_digits n buf (i + 1) ((cnt + (buf i - 48)) % 2 ^ 32 * 10 % 2 ^ 32) in
    if leb 48 (buf i) && leb (buf i) 57 then rest else cnt / 10

unfoldable pub adjust_tcp_ack_delay : Memory → ℕ → Manage → Manage
adjust_tcp_ack_delay buf offset m =
    let cnt = read_digits 2 buf offset 0 in
    record m { max_drop_cnt = if leb 100 cnt then tcp_ack_drop_cnt else cnt }

-- `strlen` of the C library is a parameter; the text before the value has 17 characters, and a
-- shorter buffer is not given.
unfoldable pub adjust_tcp_ack_delay_win : (Memory → ℕ) → Memory → ℕ → Manage → Manage
adjust_tcp_ack_delay_win strlen buf offset m = record m {
  ack_winsize = read_digits (strlen buf - 17) buf offset 0;
}
