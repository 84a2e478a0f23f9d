-- ===== src/Reorder/Timeout.antt =====
-- The timer of reorder.c: after a loss the window moves on to the next complete packet.
use w132d_linux_mainline.Prelude.{
  ℕ, zero, suc, ◌+◌, ◌%◌, ◌^◌, Bool, true, false, ◌&&◌, not, [], ◌∷◌, Option, none, some, ltb, ◌==◌,
  if◌then◌else◌, ◌>>=◌,
}
use w132d_linux_mainline.Seqno.{seqno_add, seqno_leq}
use w132d_linux_mainline.Reorder.Types.{NodeDesc, Output, Node}
use w132d_linux_mainline.Reorder.Buffer.{slot}
use w132d_linux_mainline.Reorder.Process.{move_window, mod_reorder_timer, timer_pending}
use w132d_linux_mainline.Reorder.Table.{Table, store, send_delba, max_timeout_cnt}

-- The loop of `get_first_seqno_in_buff`; `none` is a fault or the end of the fuel.
unfoldable pub first_seqno_from : ℕ → NodeDesc → ℕ → Option ℕ
first_seqno_from zero d seqno = none
first_seqno_from (suc fuel) d seqno = elim (seqno_leq seqno d.win_tail) [
  | false ↦ some seqno
  | true ↦ slot d seqno >>= λ p. elim p.desc.last [
    | true ↦ some seqno
    | false ↦ first_seqno_from fuel d (seqno_add seqno 1)
  ]
]

-- The tail is at most half the range ahead, 2048 numbers.
abbrev pub first_seqno_fuel : ℕ
first_seqno_fuel = 2050

unfoldable pub get_first_seqno_in_buff : NodeDesc → Option ℕ
get_first_seqno_in_buff d = first_seqno_from first_seqno_fuel d d.win_start

-- After too many timeouts in a row the session is given up.
unfoldable pub count_timeout : Node → Bool × Node
count_timeout n =
    if ltb max_timeout_cnt ((n.timeout_cnt + 1) % 2 ^ 8)
    then (true, record n { active = false; timeout_cnt = 0 })
    else (false, record n { timeout_cnt = (n.timeout_cnt + 1) % 2 ^ 8 })

-- The locked part of `ba_reorder_timeout`: the skbs, the node, and whether a DELBA is sent.
unfoldable pub expire : ℕ → ℕ → Output → Node → Option (Output × Node × Bool)
expire hz jiffies q n =
    if n.active && not (n.rx_ba.buff_cnt == 0) && not (timer_pending n)
    then (get_first_seqno_in_buff n.rx_ba >>= λ pos_seqno.
        move_window q n.rx_ba pos_seqno >>= λ (q', d').
        let (give_up, n') = count_timeout (record n { rx_ba = d' }) in
        some (q', mod_reorder_timer hz jiffies n', give_up))
    else some (q, n, false)

-- `queue_work` does nothing if the work is queued already.
unfoldable pub queue_rx_work : Table → Table
queue_rx_work t = elim t.output.skb_list [ [] ↦ t | s ∷ r ↦ record t { rx_work = true } ]

-- The callback for the node at `p`.
unfoldable pub ba_reorder_timeout : ℕ → ℕ → Table → ℕ → Option Table
ba_reorder_timeout hz jiffies t p = t.heap p >>= λ n.
    expire hz jiffies t.output n >>= λ (q', n', give_up).
    let t' : Table = record (store t p n') { output = q' } in
    some (queue_rx_work (if give_up then send_delba t' n.tid n.sta_lut_index else t'))
