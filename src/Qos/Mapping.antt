-- ===== src/Qos/Mapping.antt =====
-- change_priority_if of qos.c: which access category may send a frame, and the map of 802.11u.
use w132d_linux_mainline.Prelude.{
  ℕ, zero, suc, ◌+◌, ◌*◌, ◌/◌, ◌%◌, ◌^◌, ◌≤◌, ◌<◌, ◌≡◌, refl, ◌∙◌, ap, Bool, true, false, ◌&&◌, not,
  List, [], ◌∷◌, Option, none, some, arith, ltb, leb, ◌==◌, if◌then◌else◌, if_false, ◌>>=◌,
  get_elem?, set, replicate,
}
use w132d_linux_mainline.Qos.{
  Ac, ac_max, tid_map_to_qosindex, map_priority_to_edca_ac, map_edca_ac_to_priority,
}

-- `struct dscp_exception` and `struct qos_map_range`
pub record DscpException : Type 0 where
  pub dscp : ℕ
  pub up : ℕ

pub record QosMapRange : Type 0 where
  pub low : ℕ
  pub high : ℕ
  pub up : ℕ

-- `struct qos_map_set`
pub record QosMapSet : Type 0 where
  pub qos_exceptions : List DscpException
  pub qos_ranges : List QosMapRange

abbrev pub range : ℕ → ℕ → ℕ → QosMapRange
range low high up = record { low = low; high = high; up = up }

-- `init_default_qos_map`; the last three ranges are not set, and are zeros from the start.
unfoldable pub init_default_qos_map : List QosMapRange → QosMapSet
init_default_qos_map last = record {
  qos_exceptions = replicate 21 (record { dscp = 255; up = 0 });
  qos_ranges = range 0 0 0 ∷ (range 3 3 0 ∷ (range 1 2 1 ∷ (range 4 5 4 ∷ (range 6 7 6 ∷ last))));
}

unfoldable pub find_exception : ℕ → List DscpException → Option ℕ
find_exception dscp [] = none
find_exception dscp (e ∷ es) = if dscp == e.dscp then some e.up else find_exception dscp es

unfoldable pub find_range : ℕ → List QosMapRange → Option ℕ
find_range dscp [] = none
find_range dscp (r ∷ rs) =
    if leb r.low dscp && leb dscp r.high then some r.up else find_range dscp rs

abbrev pub or_else : Option ℕ → ℕ → ℕ
or_else none d = d
or_else (some x) d = x

-- The TID after the map, where it was `tid` before
unfoldable pub remap : QosMapSet → ℕ → ℕ → ℕ
remap m tos tid =
    let dscp = tos / 4 in
    or_else (find_exception dscp m.qos_exceptions) (or_else (find_range dscp m.qos_ranges) tid)

-- The time that a frame of `len` bytes uses, at 54 Mbps
abbrev pub cost : ℕ → ℕ → ℕ
cost wmmac_ratio len = (len + 4) * 8 * wmmac_ratio % 2 ^ 32 / 10 / 54

unfoldable pub charge : ℕ → Ac → Ac
charge time a =
    let used = (a.used + time) % 2 ^ 32 in record a { used = used; available = ltb used a.admitted }

-- What the loop of `change_priority_if` comes to: no frame may be sent, or one of an access category.
pub data Chosen : Type 0 where
  refused : Chosen
  chosen : ℕ → List Ac → Chosen

-- The loop, from the access category `ac` down
unfoldable pub downgrade : ℕ → ℕ → List Ac → Option Chosen
downgrade time zero acs = some (chosen 0 acs)
downgrade time (suc k) acs =
    let lower = downgrade time k acs in
    get_elem? acs (suc k) >>= λ a.
    if not a.acm
    then some (chosen (suc k) acs)
    else if a.available
    then some (chosen (suc k) (set acs (suc k) (charge time a)))
    else if not (a.used == 0)
    then some refused
    else lower

-- What `change_priority_if` gives: the queue, `*tid`, and the access categories.
pub record Changed : Type 0 where
  pub qos_index : ℕ
  pub tid : ℕ
  pub acs : List Ac

abbrev pub settle : QosMapSet → ℕ → ℕ → List Ac → Changed
settle m tos tid acs =
    let t = remap m tos tid in record { qos_index = tid_map_to_qosindex t; tid = t; acs = acs }

abbrev pub after_choice : QosMapSet → ℕ → ℕ → List Ac → Chosen → Changed
after_choice m tos tid acs refused = record { qos_index = ac_max; tid = tid; acs = acs }
after_choice m tos tid acs (chosen ac acs') = settle m tos (map_edca_ac_to_priority ac) acs'

-- `change_priority_if`; `enabled` is `g_qos_enable == 1`.
unfoldable pub change_priority_if : Bool → QosMapSet → ℕ → ℕ → ℕ → ℕ → List Ac → Option Changed
change_priority_if false m wmmac_ratio tid tos len acs = some (settle m tos tid acs)
change_priority_if true m wmmac_ratio tid tos len acs =
    downgrade (cost wmmac_ratio len) (map_priority_to_edca_ac tid) acs >>= λ c.
    some (after_choice m tos tid acs c)

exception_none :
    (n dscp : ℕ)
    → dscp < 64
    → find_exception dscp (replicate n (record { dscp = 255; up = 0 })) ≡ none
unfolding find_exception
exception_none zero dscp h = refl
exception_none (suc n) dscp h =
    let other : (dscp == 255) ≡ false = ground (arith, h) in
    if_false _ _ other ∙ exception_none n dscp h

abbrev pub unset_ranges : List QosMapRange
unset_ranges = replicate 3 (range 0 0 0)

range_none :
    (dscp : ℕ) → 8 ≤ dscp → find_range dscp (init_default_qos_map unset_ranges).qos_ranges ≡ none
unfolding find_range init_default_qos_map
range_none dscp h = ground (arith, h)

-- With the map that is set when an interface starts, a frame keeps its TID unless its code point is
-- below 8, so that the three high bits of its type of service are zero.
pub remap-default_kept :
    (tos tid : ℕ) → 32 ≤ tos → tos < 256 → remap (init_default_qos_map unset_ranges) tos tid ≡ tid
unfolding remap init_default_qos_map
remap-default_kept tos tid low high =
    let m = init_default_qos_map unset_ranges in
    let none_there = exception_none 21 (tos / 4) (omega (arith, high)) in
    let no_range = range_none (tos / 4) (omega (arith, low)) in
    ap (λ o. or_else o (or_else (find_range (tos / 4) m.qos_ranges) tid)) none_there
    ∙ ap (λ o. or_else o tid) no_range
