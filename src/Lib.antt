-- ===== src/Lib.antt =====
-- The driver of the UWE5621DS: its reordering and defragmentation of received frames, its filter
-- of TCP acknowledgements, the queues, the priorities, the credits and the checksum of what it
-- sends, its message buffers, the sleep of the chip, the ring of the firmware's log, and the
-- cutting of the Bluetooth stream into packets. Paths are below
-- userpatches/extensions/w132d/drivers/uwe5621ds.
--
-- Parts, and the files that model them:
-- Prelude: the names that all files share, Boolean tests and lists over the native numbers, and
--   code that may fault (`none` is an access through a null or freed pointer, or out of an
--   array). Prelude/Memory has the copies into and out of arrays.
-- Seqno (unisocwifi/rx_msg.h): sequence numbers of 12 bits, and their order on the circle.
-- Reorder (unisocwifi/reorder.c, reorder.h): the block acknowledgement sessions. Reorder/Types
--   has the structs; Reorder/Buffer and Reorder/Process have the functions on one session, down
--   from `reorder_msdu_process`; Reorder/Table has the table of sessions and the handlers
--   `reorder_data_process`, `wlan_filter_event`, `wlan_addba_event`, `wlan_delba_event`, and
--   `peer_entry_delba`; Reorder/Dispatch has `wlan_ba_session_event`, which
--   calls those of events, with the maps of transmit sessions of the peers beside the table;
--   Reorder/Filtered has a filtered frame right after a request; Reorder/Marks has `sprdwl_active_ba_node` and `reset_pn`;
--   Reorder/Timeout has the callback of the timer, and Reorder/Deinit `sprdwl_reorder_init` and
--   `sprdwl_reorder_deinit`. The nodes stand in a heap, by address, so
--   that the buckets and `current_ba_node` point at them, and a freed node can be seen to be
--   read.
-- TcpAck (unisocwifi/tcp_ack.c, tcp_ack.h): TcpAck/Parse reads a frame, TcpAck/Slots finds,
--   takes and gives back the slots of connections, TcpAck/Handle treats one acknowledgement or
--   one timer at a slot, and TcpAck/Filter has the entry points, down from
--   `sprdwl_filter_send_tcp_ack`. The frame is a byte for each offset, also past its end, so that
--   reads outside it are not seen as faults.
-- Sitm (tty-sdio/alignment/sitm.c, sitm.h): the state machine of `parse_frame`, with a function
--   for each state, and `sitm_write`. Sitm/Bounds has its writes, Sitm/Overflow the reading of ACL
--   data that is too long. It shares nothing with the others.
-- Defrag (unisocwifi/defrag.c, defrag.h): the three nodes for fragments, down from
--   `defrag_data_process`. Defrag/Reassembly has the copy of the fragments into one skb,
--   Defrag/Frames the first fragment of a frame, Defrag/Series the others, Defrag/Deliver the
--   frame as a whole, and Defrag/Phantom the nodes right after the start.
-- LogRing (unisocwcn/platform/bufring.c, bufring.h): the functions `mdbg_ring_*`, without the
--   prefix; `rp` and `wp` count from `pbuff`. LogRing/Spec is a bounded queue of bytes,
--   LogRing/Storage says what the ring holds, LogRing/Writing, LogRing/Append, LogRing/Reading
--   and LogRing/Calls relate one call to the queue, LogRing/Refine and LogRing/Timeout are about
--   runs of calls and about other readers, LogRing/Extend is `mdbg_ring_write_ext`, and
--   LogRing/Alloc has `mdbg_ring_alloc` and `mdbg_ring_destroy`.
-- MsgList (unisocwifi/msg.c, msg.h): the pool of message buffers; MsgList/Steps is what clients
--   do with it, with the changes that tx_msg.c makes itself to the count and to the free list on
--   SDIO, MsgList/Owned where each buffer then is (MsgList/Counts has its counting).
-- Credit (unisocwifi/tx_msg.c, tx_msg.h): the functions `sprdwl_fc_*`, and what
--   `sprdwl_handle_tx_return` and `sprdwl_sdio_process_credit` do to the credits. An entry of
--   `flow_ctrl` and that of `color_num` are one record. Credit/Grant, Credit/Own and Credit/Send
--   share out the frames, Credit/Spend and Credit/Balance count the credits, Credit/Flows says
--   what leaves them alone, and Credit/Colours has the colour of each frame.
-- Queues (unisocwifi/tx_msg.c, and of wl_intf.c the lists in `sprdwl_intf_tx_list`): the lists of
--   frames of one mode. Queues has the loops of `sprdwl_tx_eachmode_data` that take frames,
--   Queues/Handlers the handlers around them (`handle_tx_timeout`, `sprdwl_handle_to_send_list`,
--   `sprdwl_tx_eachmode_data`), Queues/Flush what fills and empties the lists,
--   `handle_tx_status_after_close`, and `adjust_qos_ratio` of wl_core.c. Queues/Share has the
--   arithmetic of the shares, Queues/Taken and Queues/Merge how many frames are taken,
--   Queues/Order from where, Queues/Weight, Queues/Timeouts, Queues/Kept, Queues/Placed,
--   Queues/Changes and Queues/Calls what becomes of each frame, Queues/Sent the credits, and
--   Queues/Close the close of an interface.
-- Qos (unisocwifi/qos.c, qos.h): the queue and the TID of a frame (Qos/Classes), the choice of an
--   access category (Qos/Mapping, Qos/Passed, Qos/Choice), the time admitted to each
--   (Qos/Admission), and the search of the WMM element (Qos/Elements). The arrays over access
--   categories are one list of records.
-- Sleep (unisocwcn/sleep/slp_mgr.c, slp_sdio.c; of unisocwcn/sdio/sdiohal_common.c the counts in
--   front of it): Sleep/Protocol has the calls in any order, Sleep/Wakeup the wait for the chip,
--   Sleep/Counts the counts of users.
-- Checksum (unisocwifi/tx_msg.c): `do_csum`; Checksum/Sum has its loop, Checksum/Address the
--   rest.
--
-- The received frames reach the reordering through `reorder_data_process`, the firmware's events
-- through the handlers, and the timer of each session calls `ba_reorder_timeout`; all of them
-- hand frames on by `reorder_set_skb_list`. The acknowledgements to be sent pass
-- `sprdwl_filter_send_tcp_ack`, which takes a message or leaves it to the caller, and the
-- messages that it takes leave by the timer of their slot or are dropped. A transfer first asks
-- `sprdwl_fc_get_send_num` how many frames it may send, colours them by
-- `sprdwl_fc_set_clor_bit`, and settles by `sprdwl_handle_tx_return`; the firmware gives credits
-- back in what it sends. A frame to be sent is put on the list of its queue and peer; a round of
-- `sprdwl_tx_eachmode_data` moves as many as there are credits to `to_send_list`, and
-- `sprdwl_handle_to_send_list` hands that to the bus. Fragments pass `defrag_data_process` before the reordering. Writers and
-- readers of the log share the ring and nothing else.
--
-- Fuel: the loop of `send_msdu_in_order` has a round for each buffered packet and one more, that
-- of `send_msdu_with_gap` one for each number of the gap, and that of `get_first_seqno_in_buff`
-- 2050, as the tail is at most half the range of 12 bits ahead. The loop over the TCP options of
-- a frame can run on past the frame; its fuel is given by the caller, and what it does is stated
-- where the fuel is enough. The loop of `parse_frame` takes a byte in each round, that of
-- `get_wmm_ie` two or more, so that its fuel, one more than the bytes, is enough. The loop of
-- `slp_mgr_wakeup` has a round for each reading of the chip, which the environment gives.
--
-- Ranges: what is an `atomic_t` or an `u32` wraps in the model. The numbers of frames that are
-- shared out are an `int` in the code; at most 100 are granted and the pool has some 20000
-- buffers, so that a product of the two, and `p_list_num * fp_num`, stays far below 2^31, and the
-- model has it without a bound. A difference of an `int` that would be negative is 0 in the model,
-- where the code only compares it. In the first case of `sprdwl_tx_eachmode_data` there is no
-- product. In Queues the lists of one mode are modelled: `sprdwl_tx_msg_func` puts a buffer on the
-- lists of the buffer's own mode, so that `tx_list[pos_buf->mode]` is the one at hand;
-- `drop_data1_cnt` and `drop_data2_cnt` are one count of the mode, and the branch of
-- `handle_tx_timeout` for SPRDWL_AC_MAX is never called.
--
-- Parameters: the operations of `kfifo`, `jiffies` (an argument `now`), `msecs_to_jiffies`, the
-- results of `kzalloc` and `kmalloc`, `strlen`, `dev_alloc_skb`, how many bytes copy_to_user and
-- copy_from_user leave behind, `time_after`, whether the bus takes a transfer, the readings of the
-- chip's status, and `marlin_get_bt_wl_wake_host_en`. Handlers run one at a time: the locks of the code are not modelled,
-- and where others act during a wait they are an argument. An `sk_buff` and a message are numbers,
-- which name them; in Defrag an `sk_buff` is its descriptor and its bytes.
--
-- Not modelled: of tx_msg.c the thread
-- `sprdwl_tx_work_queue`, the commands, `prepare_addba` and `sprdwl_tx_filter_packet`; in
-- `sprdwl_intf_tx_list` the buffers of the bus and the addresses for PCIe; `qos_enable`, which sets
-- a flag that is an argument here, and what `#if 0` leaves out; wake-ups of threads and log lines;
-- the rest of the driver (configuration, commands, transports, boot), the audio codecs, and the
-- tools that build and write images.
pub mod Checksum
pub mod Credit
pub mod Defrag
pub mod LogRing
pub mod MsgList
pub mod Prelude
pub mod Qos
pub mod Queues
pub mod Reorder
pub mod Seqno
pub mod Sitm
pub mod Sleep
pub mod TcpAck
