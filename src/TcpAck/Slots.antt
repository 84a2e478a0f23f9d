-- ===== src/TcpAck/Slots.antt =====
-- The slots of `struct sprdwl_tcp_ack_manage`: how a connection finds, takes and loses its slot.
pub mod First
pub mod Valid
pub mod Turn
pub mod Take
use w132d_linux_mainline.Prelude.{
  ℕ, zero, suc, ◌+◌, ◌-◌, ◌%◌, ◌^◌, Bool, true, false, ◌&&◌, not, List, [], ◌∷◌, Option, none, some,
  ◌==◌, if◌then◌else◌, get_elem?, set,
}
use w132d_linux_mainline.TcpAck.Types.{AckMsg, AckInfo, Manage, tcp_ack_num, time_after}

-- The first index at which a test holds, as the loops of `sprdwl_tcp_ack_match` and
-- `sprdwl_tcp_ack_alloc_index` look for it.
unfoldable pub first : (AckInfo → Bool) → List AckInfo → Option ℕ
first f [] = none
first f (a ∷ xs) =
    let rest = first f xs in
    if f a then some 0 else elim rest [ none ↦ none | some i ↦ some (suc i) ]

unfoldable pub same_flow : AckMsg → AckMsg → Bool
same_flow a k = a.dest == k.dest && a.source == k.source && a.saddr == k.saddr && a.daddr == k.daddr

abbrev pub is_match : AckMsg → AckInfo → Bool
is_match k a = a.busy && same_flow a.ack_msg k

unfoldable pub tcp_ack_match : Manage → AckMsg → Option ℕ
tcp_ack_match m k = first (is_match k) m.ack_info

unfoldable pub is_expired : ℕ → AckInfo → Bool
is_expired now a = a.busy && time_after now ((a.last_time + a.timeout) % 2 ^ 64)

-- One round of the loop of `sprdwl_tcp_ack_update`, at a slot.
unfoldable pub release_slot : ℕ → ℕ → AckInfo → Manage → Manage
release_slot now i a m =
    if is_expired now a
    then record m {
      free_index = some i;
      max_num = (m.max_num + (2 ^ 32 - 1)) % 2 ^ 32;
      ack_info = set m.ack_info i (record a { busy = false });
    }
    else m

unfoldable pub release : ℕ → ℕ → Manage → Manage
release now i m = elim (get_elem? m.ack_info i) [ none ↦ m | some a ↦ release_slot now i a m ]

-- The loop from the last slot down; the argument is the number of slots that are left.
unfoldable pub release_all : ℕ → ℕ → Manage → Manage
release_all now zero m = m
release_all now (suc i) m = release_all now i (release now i m)

unfoldable pub tcp_ack_update : ℕ → Manage → Manage
tcp_ack_update now m =
    if time_after now ((m.last_time + m.timeout) % 2 ^ 64)
    then release_all now tcp_ack_num (record m { last_time = now })
    else m

abbrev pub take_slot : ℕ → Manage → Option ℕ × Manage
take_slot i m = (some i, record m { free_index = none; max_num = (m.max_num + 1) % 2 ^ 32 })

unfoldable pub tcp_ack_alloc_index : Manage → Option ℕ × Manage
tcp_ack_alloc_index m = if m.max_num == tcp_ack_num then (none, m) else elim m.free_index [
  | some i ↦ take_slot i m
  | none ↦ elim (first (λ a. not a.busy) m.ack_info) [ none ↦ (none, m) | some i ↦ take_slot i m ]
]
