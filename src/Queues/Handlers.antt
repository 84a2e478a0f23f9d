-- ===== src/Queues/Handlers.antt =====
-- The handlers of the transmit queues in tx_msg.c: the timeouts, the merge with the credits, the list
-- that is sent, and the flushes; and the list part of sprdwl_intf_tx_list in wl_intf.c.
use w132d_linux_mainline.Prelude.{
  ℕ, zero, suc, ◌+◌, ◌-◌, ◌*◌, ◌/◌, ◌%◌, ◌^◌, Bool, true, false, ◌&&◌, ◌||◌, not, List, [], ◌∷◌,
  ◌++◌, ltb, ◌==◌, if◌then◌else◌, length, take, drop,
}
use w132d_linux_mainline.Credit.{
  Hardware, is_negative, Granted, frames, enomem, fc_get_send_num, fc_test_send_num, TxMsg,
  handle_tx_return,
}
use w132d_linux_mainline.Queues.{
  Buf, PeerList, TxT, atomic_sub, atomic_add, cut, Ratios, min, total_of, merge_lists,
}

-- What the handlers read: the hardware, which modes are closed, the mode, the ratios, `time_after` of
-- `jiffies` and a time, `maxnum` of the pool, whether the bus refuses a transfer, and `cp_asserted`.
pub record Env : Type 0 where
  pub hw : Hardware
  pub closed : ℕ → Bool
  pub mode : ℕ
  pub ratios : Ratios
  pub late : ℕ → Bool
  pub maxnum : ℕ
  pub refused : Bool
  pub cp_asserted : Bool

-- `struct sprdwl_tx_msg` as one mode uses it: its lists, `xmit_msg_list`, the credits, how many
-- frames of the mode are counted as dropped, and the buffers that were freed.
pub record Transmit : Type 0 where
  pub tx_list : TxT
  pub to_send_list : List Buf
  pub to_free_list : List Buf
  pub xmit_mode : ℕ
  pub failcount : ℕ
  pub credits : TxMsg
  pub drop_cnt : ℕ
  pub freed : List Buf

-- What a timeout does to a list: whether it was one, what is dropped, and the list after it.
pub record Timed : Type 0 where
  pub timeout : Bool
  pub dropped : List Buf
  pub peer : PeerList

-- A buffer at the front is late. `del_list_num` is an `int`, and negative where the square of `l_num`
-- is too large: nothing is dropped then, and the number that is taken off `l_num` is added to it.
unfoldable pub drop_late : ℕ → PeerList → Timed
drop_late maxnum p =
    let square = p.l_num * p.l_num % 2 ^ 32 in
    let del_list_num = min (square / maxnum) p.l_num in
    if is_negative square
    then record {
      timeout = true;
      dropped = [];
      peer = record p { l_num = atomic_add ((2 ^ 32 - square) / maxnum) p.l_num };
    }
    else record {
      timeout = true;
      dropped = take del_list_num p.head_list;
      peer = record {
        head_list = drop del_list_num p.head_list;
        l_num = atomic_sub del_list_num p.l_num;
      };
    }

abbrev pub first_late : (ℕ → Bool) → List Buf → Bool
first_late late [] = false
first_late late (b ∷ bs) = late b.timeout

-- `handle_tx_timeout` on a list of a peer
unfoldable pub handle_tx_timeout : Env → PeerList → Timed
handle_tx_timeout env p =
    if first_late env.late p.head_list
    then drop_late env.maxnum p
    else record { timeout = false; dropped = []; peer = p }

-- The first loop of `sprdwl_tx_eachmode_data`: what is dropped, the lists, and `p_list_num`.
pub record Counted : Type 0 where
  pub dropped : List Buf
  pub peers : List PeerList
  pub nums : List ℕ

abbrev pub is_positive : ℕ → Bool
is_positive w = not (w == 0) && not (is_negative w)

unfoldable pub count_peers : Env → List PeerList → Counted
count_peers env [] = record { dropped = []; peers = []; nums = [] }
count_peers env (p ∷ ps) =
    let rest = count_peers env ps in
    let timed = handle_tx_timeout env p in
    if is_positive p.l_num
    then record {
      dropped = timed.dropped ++ rest.dropped;
      peers = timed.peer ∷ rest.peers;
      nums = timed.peer.l_num ∷ rest.nums;
    }
    else record { dropped = rest.dropped; peers = p ∷ rest.peers; nums = 0 ∷ rest.nums }

pub record CountedAll : Type 0 where
  pub dropped : List Buf
  pub queues : List (List PeerList)
  pub nums : List (List ℕ)

unfoldable pub count_queues : Env → List (List PeerList) → CountedAll
count_queues env [] = record { dropped = []; queues = []; nums = [] }
count_queues env (ps ∷ qs) =
    let first = count_peers env ps in
    let rest = count_queues env qs in
    record {
      dropped = first.dropped ++ rest.dropped;
      queues = first.peers ∷ rest.queues;
      nums = first.nums ∷ rest.nums;
    }

-- The list part of `sprdwl_intf_tx_list` for a transfer of `count` frames: they are waiting to be
-- freed, or back at the front where the bus refuses the transfer or has no memory for it.
unfoldable pub intf_tx_list : Bool → ℕ → Transmit → Transmit
intf_tx_list true count t = t
intf_tx_list false count t =
    let parts = cut count t.to_send_list in
    record t { to_send_list = parts.1; to_free_list = t.to_free_list ++ parts.0 }

-- `sprdwl_flush_tosendlist`
unfoldable pub flush_tosendlist : Transmit → Transmit
flush_tosendlist t = record t { to_send_list = []; freed = t.freed ++ t.to_send_list }

-- A transfer that failed; after more than ten the list is given up.
unfoldable pub count_failure : Transmit → Transmit
count_failure t =
    let n = (t.failcount + 1) % 2 ^ 64 in
    if ltb 10 n then flush_tosendlist (record t { failcount = 0 }) else record t { failcount = n }

-- The transfer of `k` frames that credits were granted for; the result tells whether it is 0.
unfoldable pub send_granted : Env → ℕ → Transmit → Bool × Transmit
send_granted env k t =
    let moved = intf_tx_list env.refused k (record t { xmit_mode = env.mode }) in
    let returned = record moved { credits = handle_tx_return env.hw env.refused k moved.credits } in
    if env.refused then (false, count_failure returned) else (true, returned)

abbrev pub send_if : Env → Granted → Transmit → Bool × Transmit
send_if env enomem t = (false, t)
send_if env (frames zero) t = (false, t)
send_if env (frames (suc k)) t = send_granted env (suc k) t

-- `sprdwl_handle_to_send_list`
unfoldable pub handle_to_send_list : Env → Transmit → Bool × Transmit
handle_to_send_list env t =
    let n = length t.to_send_list in
    let credit = fc_get_send_num env.hw env.closed env.mode n t.credits.colours in
    if env.cp_asserted || n == 0
    then (true, t)
    else send_if env credit.0 (record t { credits = record t.credits { colours = credit.1 } })

-- The lists after the first loop; the counter of the mode is less by one for each buffer dropped.
unfoldable pub after_timeouts : Env → Transmit → Transmit
after_timeouts env t =
    let c = count_queues env t.tx_list.q_list in
    let n = length c.dropped in
    record t {
      tx_list = record {
        q_list = c.queues;
        mode_list_num = atomic_sub (n % 2 ^ 32) t.tx_list.mode_list_num;
      };
      drop_cnt = (t.drop_cnt + n) % 2 ^ 64;
      freed = t.freed ++ c.dropped;
    }

-- The merge of the lists for `send_num` frames.
unfoldable pub merge : Env → ℕ → List (List ℕ) → Transmit → Transmit
merge env send_num nums t =
    let m = merge_lists env.ratios send_num nums t.tx_list.q_list in
    record t {
      tx_list = record {
        q_list = m.queues;
        mode_list_num = atomic_sub m.taken t.tx_list.mode_list_num;
      };
      to_send_list = t.to_send_list ++ m.sent;
    }

abbrev pub merge_if : Env → Granted → List (List ℕ) → Transmit → Bool × Transmit
merge_if env enomem nums t = (false, t)
merge_if env (frames k) nums t =
    if not (total_of nums == 0) && k == 0
    then (false, t)
    else handle_to_send_list env (merge env k nums t)

-- `sprdwl_tx_eachmode_data`
unfoldable pub tx_eachmode_data : Env → Transmit → Bool × Transmit
tx_eachmode_data env t =
    let nums = (count_queues env t.tx_list.q_list).nums in
    let timed = after_timeouts env t in
    let test = fc_test_send_num env.hw env.closed env.mode (total_of nums) timed.credits.colours in
    merge_if env test.0 nums (record timed { credits = record timed.credits { colours = test.1 } })
