-- ===== src/Reorder/Types.antt =====
-- The state of reorder.c: the structs of reorder.h, and the fields of `struct rx_msdu_desc`
-- (rx_msg.h) that reorder.c reads.
use w132d_linux_mainline.Prelude.{ℕ, Bool, List, [], Option}

-- An skb is named by a number. A chain of skbs linked by `next`, from `skb` to `skb_last`, is the
-- list of them, and the empty list is a null `skb`.
abbrev pub Skb : Type 0
Skb = ℕ

pub record MsduDesc : Type 0 where
  pub sta_lut_index : ℕ
  pub tid : ℕ
  pub seq_num : ℕ
  pub last_msdu_of_mpdu : Bool
  pub qos_flag : Bool
  pub bc_mc_flag : Bool
  pub pn_l : ℕ
  pub pn_h : ℕ
  pub cipher_type : ℕ

-- `struct rx_ba_pkt_desc`
pub record PktDesc : Type 0 where
  pub pn_l : ℕ
  pub pn_h : ℕ
  pub seq : ℕ
  pub cipher_type : ℕ
  pub last : Bool
  pub msdu_num : ℕ

-- `struct rx_ba_pkt`
pub record Pkt : Type 0 where
  pub chain : List Skb
  pub desc : PktDesc

-- `struct rx_ba_node_desc`; `reorder_buffer` has as many elements as were allocated.
pub record NodeDesc : Type 0 where
  pub win_start : ℕ
  pub win_limit : ℕ
  pub win_tail : ℕ
  pub win_size : ℕ
  pub buff_cnt : ℕ
  pub pn_h : ℕ
  pub pn_l : ℕ
  pub reset_pn : ℕ
  pub index_mask : ℕ
  pub reorder_buffer : List Pkt

-- The list of `struct sprdwl_rx_ba_entry` that goes up to the network stack, and a record of the
-- skbs that were handed to `dev_kfree_skb` or `kfree_skb_list`.
pub record Output : Type 0 where
  pub skb_list : List Skb
  pub freed : List Skb

-- `reorder_timer` is the time in jiffies at which it expires, `none` if it is not pending.
pub record Node : Type 0 where
  pub sta_lut_index : ℕ
  pub tid : ℕ
  pub active : Bool
  pub timeout_cnt : ℕ
  pub reorder_timer : Option ℕ
  pub rx_ba : NodeDesc

abbrev pub hw_tkip : ℕ
hw_tkip = 1

abbrev pub hw_ccmp : ℕ
hw_ccmp = 2

abbrev pub zero_pkt : Pkt
zero_pkt = record {
  chain = [];
  desc = record { pn_l = 0; pn_h = 0; seq = 0; cipher_type = 0; last = Bool.false; msdu_num = 0 };
}
