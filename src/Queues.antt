-- ===== src/Queues.antt =====
-- The transmit queues of unisocwifi/tx_msg.c: the lists of each access category and peer, and how
-- frames are taken from them to be sent.
pub mod Share
pub mod Taken
pub mod Merge
pub mod Order
pub mod Handlers
pub mod Weight
pub mod Timeouts
pub mod Flush
pub mod Kept
pub mod Sent
pub mod Placed
pub mod Changes
pub mod Calls
pub mod Close
mod Tests
use w132d_linux_mainline.Prelude.{
  ℕ, zero, suc, ◌+◌, ◌-◌, ◌*◌, ◌/◌, ◌%◌, ◌^◌, Bool, true, false, ◌&&◌, not, List, [], ◌∷◌, ◌++◌,
  map, Option, none, some, ltb, leb, ◌==◌, if◌then◌else◌, length, take, drop,
}

-- `struct sprdwl_msg_buf` of a data frame: which frame, and its `timeout` in jiffies.
pub record Buf : Type 0 where
  pub frame : ℕ
  pub timeout : ℕ

-- `struct peer_list`; `l_num` is an `atomic_t`, here a word of 32 bits.
pub record PeerList : Type 0 where
  pub head_list : List Buf
  pub l_num : ℕ

-- `struct tx_t` of one mode: a list of peers for each access category.
pub record TxT : Type 0 where
  pub q_list : List (List PeerList)
  pub mode_list_num : ℕ

-- `atomic_sub` and `atomic_add`
abbrev pub atomic_sub : ℕ → ℕ → ℕ
atomic_sub n w = (w + 2 ^ 32 - n) % 2 ^ 32

abbrev pub atomic_add : ℕ → ℕ → ℕ
atomic_add n w = (w + n) % 2 ^ 32

abbrev pub empty_peer : PeerList
empty_peer = record { head_list = []; l_num = 0 }

-- `qos_init` of qos.c on one list
abbrev pub cleared : PeerList → PeerList
cleared p = empty_peer

unfoldable pub qos_init : TxT → TxT
qos_init t = record t { q_list = map (map cleared) t.q_list }

-- `sprdwl_queue_data_msg_buf`; `first` is `sw_rate == 1`.
unfoldable pub queue_data_msg_buf : Bool → Buf → PeerList → PeerList
queue_data_msg_buf first b p = record {
  head_list = if first then b ∷ p.head_list else p.head_list ++ b ∷ [];
  l_num = atomic_add 1 p.l_num;
}

-- What the list walk of `add_xmit_list_tail` cuts off: nothing where it comes to the end of the list
-- before `add_num`.
unfoldable pub cut : ℕ → List Buf → List Buf × List Buf
cut add_num l = if leb add_num (length l) then (take add_num l, drop add_num l) else ([], l)

-- What is moved to the end of `to_send_list`, what remains, and the sum of the numbers that the
-- counter of the mode is decreased by.
pub record Moved : Type 0 where
  pub sent : List Buf
  pub peers : List PeerList
  pub taken : ℕ

-- `add_xmit_list_tail`, and the decrease of `l_num` that follows it.
abbrev pub without : ℕ → PeerList → PeerList
without n p = record { head_list = (cut n p.head_list).1; l_num = atomic_sub n p.l_num }

abbrev pub add_xmit : ℕ → PeerList → Moved → Moved
add_xmit n p rest = record {
  sent = (cut n p.head_list).0 ++ rest.sent;
  peers = without n p ∷ rest.peers;
  taken = n + rest.taken;
}

abbrev pub pass : PeerList → Moved → Moved
pass p rest = record rest { peers = p ∷ rest.peers }

abbrev pub none_of : List PeerList → Moved
none_of ps = record { sent = []; peers = ps; taken = 0 }

-- `struct peer_list` of each peer, with `p_list_num` beside it: enough credits for all.
unfoldable pub merge_all_peers : List ℕ → List PeerList → Moved
merge_all_peers [] ps = none_of ps
merge_all_peers (n ∷ ns) [] = none_of []
merge_all_peers (n ∷ ns) (p ∷ ps) =
    let rest = merge_all_peers ns ps in if n == 0 then pass p rest else add_xmit n p rest

abbrev pub min : ℕ → ℕ → ℕ
min a b = if leb a b then a else b

-- `min_num`: of `fp_num` frames that an access category may send, those of a peer that has `n` of the
-- `q_num` frames.
unfoldable pub min_num : ℕ → ℕ → ℕ → ℕ
min_num n fp_num q_num =
    let round_num = n * fp_num / q_num in
    min (if ltb 0 fp_num && round_num == 0 then 1 else round_num) fp_num

-- The inner loop of the second case.
unfoldable pub merge_peers : ℕ → ℕ → List ℕ → List PeerList → Moved
merge_peers fp_num q_num [] ps = none_of ps
merge_peers fp_num q_num (n ∷ ns) [] = none_of []
merge_peers fp_num q_num (n ∷ ns) (p ∷ ps) =
    let m = if n == 0 then 0 else min_num n fp_num q_num in
    let rest = merge_peers (fp_num - m) (q_num - n) ns ps in
    if n == 0
    then pass p rest
    else if m == 0
    then none_of (p ∷ ps)
    else if fp_num - m == 0
    then add_xmit m p (none_of ps)
    else add_xmit m p rest

-- `vo_ratio`, `vi_ratio` and `be_ratio`, which a vendor command sets.
pub record Ratios : Type 0 where
  pub vo_ratio : ℕ
  pub vi_ratio : ℕ
  pub be_ratio : ℕ

abbrev pub default_ratios : Ratios
default_ratios = record { vo_ratio = 87; vi_ratio = 90; be_ratio = 81 }

-- The ratio of an access category; the last one, `SPRDWL_AC_BK`, has none.
unfoldable pub ratio_of : Ratios → ℕ → Option ℕ
ratio_of r zero = some r.vo_ratio
ratio_of r (suc zero) = some r.vi_ratio
ratio_of r (suc (suc zero)) = some r.be_ratio
ratio_of r (suc (suc (suc i))) = none

abbrev pub first_share : Option ℕ → ℕ → ℕ → ℕ → ℕ
first_share none send_num total q_num = send_num * q_num / total
first_share (some ratio) send_num total q_num =
    if ltb q_num total then min (send_num * ratio / 100) q_num else send_num * q_num / total

-- `fp_num`: what the access category `i` may send. What the categories after it cannot use is added.
unfoldable pub fp_num : Ratios → ℕ → ℕ → ℕ → ℕ → ℕ
fp_num r i send_num total q_num =
    let fp = first_share (ratio_of r i) send_num total q_num in
    let others = total - q_num in
    if ltb others (send_num - fp) && ltb 0 others then fp + (send_num - fp - others) else fp

unfoldable pub sum_of : List ℕ → ℕ
sum_of [] = 0
sum_of (n ∷ ns) = n + sum_of ns

unfoldable pub total_of : List (List ℕ) → ℕ
total_of [] = 0
total_of (ns ∷ nss) = sum_of ns + total_of nss

-- The result of a loop over the access categories.
pub record Merged : Type 0 where
  pub sent : List Buf
  pub queues : List (List PeerList)
  pub taken : ℕ

abbrev pub none_of_all : List (List PeerList) → Merged
none_of_all qs = record { sent = []; queues = qs; taken = 0 }

abbrev pub then_rest : Moved → Merged → Merged
then_rest first rest = record {
  sent = first.sent ++ rest.sent;
  queues = first.peers ∷ rest.queues;
  taken = first.taken + rest.taken;
}

-- The first case of `sprdwl_tx_eachmode_data`: `send_num >= total`.
unfoldable pub merge_all : List (List ℕ) → List (List PeerList) → Merged
merge_all [] qs = none_of_all qs
merge_all (ns ∷ nss) [] = none_of_all []
merge_all (ns ∷ nss) (ps ∷ qs) = then_rest (merge_all_peers ns ps) (merge_all nss qs)

-- The second case, from the access category `i` on.
unfoldable pub merge_some : Ratios → ℕ → ℕ → ℕ → List (List ℕ) → List (List PeerList) → Merged
merge_some r i send_num total [] qs = none_of_all qs
merge_some r i send_num total (ns ∷ nss) [] = none_of_all []
merge_some r i send_num total (ns ∷ nss) (ps ∷ qs) =
    let q_num = sum_of ns in
    let fp = if q_num == 0 then 0 else fp_num r i send_num total q_num in
    let rest = merge_some r (suc i) (send_num - fp) (total - q_num) nss qs in
    if q_num == 0
    then then_rest (none_of ps) rest
    else if send_num == 0
    then none_of_all (ps ∷ qs)
    else then_rest (merge_peers fp q_num ns ps) rest

-- Both cases.
unfoldable pub merge_lists : Ratios → ℕ → List (List ℕ) → List (List PeerList) → Merged
merge_lists r send_num nss qs =
    let total = total_of nss in
    if leb total send_num then merge_all nss qs else merge_some r 0 send_num total nss qs
