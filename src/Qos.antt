-- ===== src/Qos.antt =====
-- unisocwifi/qos.c: the priority of a frame, the queue that it takes, and the admission control of
-- WMM, as the driver is built (with WMMAC_WFA_CERTIFICATION; the parts under `#if 0` are not compiled).
pub mod Classes
pub mod Mapping
pub mod Passed
pub mod Choice
pub mod Admission
pub mod Elements
mod Tests
use w132d_linux_mainline.Prelude.{
  ℕ, zero, suc, ◌+◌, ◌-◌, ◌*◌, ◌/◌, ◌%◌, ◌^◌, Bool, true, false, ◌&&◌, ◌||◌, not, List, [], ◌∷◌,
  ◌++◌, map, Option, none, some, ltb, leb, ◌==◌, if◌then◌else◌, ◌>>=◌, get_elem?, set, replicate,
  drop,
}

-- `qos_head_type_t`: the queues
abbrev pub ac_vo : ℕ
ac_vo = 0

abbrev pub ac_vi : ℕ
ac_vi = 1

abbrev pub ac_be : ℕ
ac_be = 2

abbrev pub ac_bk : ℕ
ac_bk = 3

abbrev pub ac_max : ℕ
ac_max = 4

-- `edca_ac_t`: the access categories of WMM, AC_BK, AC_BE, AC_VI and AC_VO
abbrev pub edca_bk : ℕ
edca_bk = 0

abbrev pub edca_be : ℕ
edca_be = 1

abbrev pub edca_vi : ℕ
edca_vi = 2

abbrev pub edca_vo : ℕ
edca_vo = 3

-- The bytes of a frame from `skb->data + data_offset` on; a read past them is `none`.
abbrev pub byte : List ℕ → ℕ → Option ℕ
byte frame i = get_elem? frame i

-- A number of two bytes, the high one first
abbrev pub be16 : List ℕ → ℕ → Option ℕ
be16 frame i = byte frame i >>= λ high. byte frame (suc i) >>= λ low. some (high * 256 + low)

-- `IP_TOS46` of the bytes from `i` on
unfoldable pub ip_tos46 : List ℕ → ℕ → Option ℕ
ip_tos46 frame i = byte frame i >>= λ b0.
    if b0 / 16 % 16 == 4
    then byte frame (suc i)
    else if b0 / 16 % 16 == 6
    then (byte frame (suc i) >>= λ b1. some (b0 % 16 * 16 + b1 / 16))
    else some 0

-- The priority of the high three bits of a type of service
unfoldable pub tos_priority : ℕ → ℕ
tos_priority tos =
    let tos_tc = tos / 32 * 32 in
    if tos_tc == 0 || tos_tc == 96
    then 0
    else if tos_tc == 32 || tos_tc == 64
    then 1
    else if tos_tc == 128 || tos_tc == 160
    then 4
    else 6

-- What `pkt_get_prio` gives: the priority, which the skb gets too, and `*tos`.
pub record Prio : Type 0 where
  pub priority : ℕ
  pub tos : ℕ

-- `pkt_get_prio`, where `*tos` was `tos`
unfoldable pub pkt_get_prio : List ℕ → ℕ → Option Prio
pkt_get_prio frame tos = be16 frame 12 >>= λ ether_type.
    if ether_type == 33024
    then (be16 frame 14 >>= λ vlan_tag. some (record { priority = vlan_tag / 8192 % 8; tos = tos }))
    else (ip_tos46 frame 14 >>= λ t. some (record { priority = tos_priority t; tos = t }))

-- `tid_map_to_qosindex`, and the end of `qos_match_q` and of `change_priority_if`
unfoldable pub tid_map_to_qosindex : ℕ → ℕ
tid_map_to_qosindex tid =
    if tid == 1 then ac_bk else if tid == 4 then ac_vi else if tid == 6 then ac_vo else ac_be

-- `qos_match_q`; `enabled` is `g_qos_enable != 0`.
unfoldable pub qos_match_q : Bool → List ℕ → Option ℕ
qos_match_q false frame = some ac_be
qos_match_q true frame = be16 frame 12 >>= λ ether_type.
    if not (ether_type == 2048) && not (ether_type == 34525)
    then some ac_be
    else (pkt_get_prio frame 0 >>= λ p. some (tid_map_to_qosindex p.priority))

-- What `get_tid_qosindex` gives: the queue, `*tid` and `*tos`.
pub record TidQos : Type 0 where
  pub qos_index : ℕ
  pub tid : ℕ
  pub tos : ℕ

-- `get_tid_qosindex`, where `*tid` and `*tos` were 0
unfoldable pub get_tid_qosindex : Bool → List ℕ → Option TidQos
get_tid_qosindex false frame = some (record { qos_index = ac_be; tid = 0; tos = 0 })
get_tid_qosindex true frame = pkt_get_prio frame 0 >>= λ p.
    some (record { qos_index = tid_map_to_qosindex p.priority; tid = p.priority; tos = p.tos })

-- `qos_index_2_tid` of qos.h
unfoldable pub qos_index_2_tid : ℕ → ℕ
qos_index_2_tid q = if q == ac_vo then 6 else if q == ac_vi then 4 else if q == ac_bk then 1 else 0

unfoldable pub map_priority_to_edca_ac : ℕ → ℕ
map_priority_to_edca_ac p =
    if p == 1 || p == 2
    then edca_bk
    else if p == 4 || p == 5
    then edca_vi
    else if p == 6 || p == 7
    then edca_vo
    else edca_be

unfoldable pub map_edca_ac_to_priority : ℕ → ℕ
map_edca_ac_to_priority ac =
    if ac == edca_bk then 1 else if ac == edca_vi then 4 else if ac == edca_vo then 6 else 0

-- `g_wmmac_available`, `g_wmmac_admittedtime` and `g_wmmac_usedtime` of an access category, and whether
-- `aci_aifsn & WMM_AC_ACM` of `priv->wmmac.ac` is set. The times are an `u32`.
pub record Ac : Type 0 where
  pub available : Bool
  pub admitted : ℕ
  pub used : ℕ
  pub acm : Bool

-- `struct wmm_ac_ts_t`, without its direction, which is not set
pub record Ts : Type 0 where
  pub exist : Bool
  pub ac : ℕ
  pub up : ℕ
  pub admitted_time : ℕ

-- The access categories, `g_sta_ts_info`, and whether the timer is pending.
pub record Wmm : Type 0 where
  pub acs : List Ac
  pub ts_info : List Ts
  pub timer : Bool

abbrev pub reset_ac : Ac
reset_ac = record { available = false; admitted = 0; used = 0; acm = false }

abbrev pub no_ts : Ts
no_ts = record { exist = false; ac = 0; up = 0; admitted_time = 0 }

-- `wmm_ac_init`: the timer is set up, and does not run yet.
unfoldable pub wmm_ac_init : Wmm → Wmm
wmm_ac_init w = record w { acs = replicate 4 reset_ac; timer = false }

unfoldable pub reset_wmmac_parameters : Wmm → Wmm
reset_wmmac_parameters w = record w { acs = replicate 4 reset_ac; timer = false }

unfoldable pub update_wmmac_ts_info : ℕ → ℕ → ℕ → Bool → ℕ → Wmm → Wmm
update_wmmac_ts_info tsid up ac status admitted_time w = record w {
  ts_info =
      set w.ts_info tsid
        (record { exist = status; ac = ac; up = up; admitted_time = admitted_time });
}

unfoldable pub remove_wmmac_ts_info : ℕ → Wmm → Wmm
remove_wmmac_ts_info tsid w = record w { ts_info = set w.ts_info tsid no_ts }

-- The loop of `reset_wmmac_ts_info` over the identifiers from `tsid` on
unfoldable pub reset_ts_from : ℕ → ℕ → Wmm → Wmm
reset_ts_from zero tsid w = w
reset_ts_from (suc n) tsid w = reset_ts_from n (suc tsid) (remove_wmmac_ts_info tsid w)

unfoldable pub reset_wmmac_ts_info : Wmm → Wmm
reset_wmmac_ts_info w = reset_ts_from 16 0 w

unfoldable pub get_wmmac_admitted_time : ℕ → Wmm → Option ℕ
get_wmmac_admitted_time tsid w =
    get_elem? w.ts_info tsid >>= λ t. some (if t.exist then t.admitted_time else 0)

abbrev pub with_admitted : ℕ → Ac → Ac
with_admitted n a = record a { admitted = n; available = ltb a.used n }

-- `update_admitted_time`, where the stream belongs to the access category `ac`; `medium_time` is in units of 32 us.
unfoldable pub admit : ℕ → Bool → Ac → Ac
admit medium_time true a = with_admitted ((a.admitted + medium_time * 32) % 2 ^ 32) a
admit medium_time false a =
    with_admitted (if ltb (medium_time * 32) a.admitted then a.admitted - medium_time * 32 else 0) a

unfoldable pub update_admitted_time : ℕ → ℕ → Bool → Wmm → Option Wmm
update_admitted_time tsid medium_time increase w = get_elem? w.ts_info tsid >>= λ t.
    get_elem? w.acs t.ac >>= λ a. some (record w {
      acs = set w.acs t.ac (admit medium_time increase a);
      timer = increase || (w.timer && ltb (medium_time * 32) a.admitted);
    })

abbrev pub restart : Ac → Ac
restart a = if ltb 0 a.admitted then record a { used = 0; available = true } else a

-- `update_wmmac_edcaftime_timeout`, once per second
unfoldable pub update_wmmac_edcaftime_timeout : Wmm → Option Wmm
update_wmmac_edcaftime_timeout w = get_elem? w.acs edca_vo >>= λ vo.
    get_elem? w.acs edca_vi >>= λ vi.
    some
      (record w { acs = set (set w.acs edca_vo (restart vo)) edca_vi (restart vi); timer = true })
