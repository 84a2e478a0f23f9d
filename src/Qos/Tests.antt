-- ===== src/Qos/Tests.antt =====
-- Concrete frames, streams and elements of qos.c.
use w132d_linux_mainline.Prelude.{
  ℕ, ◌≡◌, refl, true, false, List, [], ◌∷◌, ◌++◌, some, none, arith, replicate, Returns, ◌>>=◌,
}
use w132d_linux_mainline.Qos.{
  Ac, Wmm, TidQos, pkt_get_prio, ip_tos46, tos_priority, tid_map_to_qosindex, get_tid_qosindex,
  no_ts, reset_ac, wmm_ac_init, update_wmmac_ts_info, update_admitted_time, admit,
  map_priority_to_edca_ac, map_edca_ac_to_priority,
}
use w132d_linux_mainline.Qos.Classes.{IsClassified, get_tid_qosindex-IsClassified}
use w132d_linux_mainline.Qos.Mapping.{
  init_default_qos_map, unset_ranges, remap, remap-default_kept, change_priority_if, downgrade,
  charge, find_exception, find_range,
}
use w132d_linux_mainline.Qos.Choice.{Decided, change_priority_if-Decided}
use w132d_linux_mainline.Qos.Admission.{
  initial, required, stream, admitted, IsAdmission, Admitted-IsAdmission,
}
use w132d_linux_mainline.Qos.Elements.{
  Element, encode, get_wmm_ie, says_wmm, wmm_place, get_wmm_ie-encode, get_wmm_ie-short,
}

-- A frame of IPv4 with a type of service
abbrev ip_frame : ℕ → List ℕ
ip_frame tos = replicate 12 0 ++ (8 ∷ (0 ∷ (69 ∷ (tos ∷ []))))

abbrev voice : TidQos
voice = record { qos_index = 0; tid = 6; tos = 192 }

voice_lem : get_tid_qosindex true (ip_frame 192) ≡ some voice
unfolding get_tid_qosindex pkt_get_prio ip_tos46 tos_priority tid_map_to_qosindex
voice_lem = refl

get_tid_qosindex-IsClassified_example : IsClassified (ip_frame 192) voice
unfolding get_tid_qosindex pkt_get_prio ip_tos46 tos_priority tid_map_to_qosindex
get_tid_qosindex-IsClassified_example = get_tid_qosindex-IsClassified true (ip_frame 192) voice refl

remap-default_kept_example : remap (init_default_qos_map unset_ranges) 192 6 ≡ 6
remap-default_kept_example = remap-default_kept 192 6 (omega arith) (omega arith)

-- Voice needs admission and has used all of its time, video has some left.
abbrev categories : List Ac
categories =
    reset_ac
    ∷ (reset_ac
        ∷ (record { available = true; admitted = 3200; used = 100; acm = true }
            ∷ (record { available = false; admitted = 0; used = 0; acm = true } ∷ [])))

change_priority_if-Decided_example :
    Returns
      (change_priority_if true (init_default_qos_map unset_ranges) 10 6 192 1500 categories)
      (Decided (init_default_qos_map unset_ranges) 10 6 192 1500 categories)
change_priority_if-Decided_example =
    change_priority_if-Decided (init_default_qos_map unset_ranges) 10 6 192 1500 categories refl
      (refl, (refl, (refl, (refl, tt))))

-- The frame of voice goes as one of video.
as_video :
    (change_priority_if true (init_default_qos_map unset_ranges) 10 6 192 1500 categories >>= λ r.
    some r.tid)
    ≡ some 4
unfolding change_priority_if downgrade map_priority_to_edca_ac map_edca_ac_to_priority remap
    init_default_qos_map find_exception find_range charge
as_video = refl

abbrev start : Wmm
start = record { acs = []; ts_info = replicate 16 no_ts; timer = false }

abbrev needs_voice : List Ac
needs_voice = reset_ac ∷ (reset_ac ∷ (reset_ac ∷ (record reset_ac { acm = true } ∷ [])))

-- A stream of voice that 100 units of 32 us were admitted for
abbrev with_voice : Wmm
with_voice = record {
  acs =
      reset_ac
      ∷ (reset_ac
          ∷ (reset_ac ∷ (record { available = true; admitted = 3200; used = 0; acm = true } ∷ [])));
  ts_info =
      no_ts ∷ (record { exist = true; ac = 3; up = 6; admitted_time = 100 } ∷ replicate 14 no_ts);
  timer = true;
}

Admitted-IsAdmission_example : IsAdmission with_voice
unfolding wmm_ac_init update_wmmac_ts_info update_admitted_time admit
Admitted-IsAdmission_example = Admitted-IsAdmission (
    admitted 1 100 true
      (stream 1 6 3 true 100 (
        required {w = wmm_ac_init start} needs_voice (initial start)
          (refl, refl, refl, (refl, refl, refl, (refl, refl, refl, (refl, refl, refl, tt))))))
      refl)

abbrev wmm_element : Element
wmm_element = record { id = 221; body = 0 ∷ (80 ∷ (242 ∷ (2 ∷ (1 ∷ (1 ∷ []))))) }

abbrev other_vendor : Element
other_vendor = record { id = 221; body = 0 ∷ (16 ∷ (24 ∷ (2 ∷ []))) }

abbrev ssid : Element
ssid = record { id = 0; body = 97 ∷ (98 ∷ []) }

get_wmm_ie-encode_example :
    get_wmm_ie 221 20722 (encode (ssid ∷ (wmm_element ∷ []))) ≡ some (some 6)
unfolding wmm_place says_wmm
get_wmm_ie-encode_example =
    get_wmm_ie-encode 221 20722 (ssid ∷ (wmm_element ∷ []))
      ((λ e. absurd (omega (arith, e))), ((λ e. omega arith), tt))

get_wmm_ie-short_example :
    get_wmm_ie 221 20722 (encode (ssid ∷ []) ++ (221 ∷ (2 ∷ (0 ∷ (80 ∷ []))))) ≡ none
get_wmm_ie-short_example =
    get_wmm_ie-short 221 20722 (ssid ∷ []) (0 ∷ (80 ∷ [])) ((λ e. absurd (omega (arith, e))), tt)
      (omega arith)
