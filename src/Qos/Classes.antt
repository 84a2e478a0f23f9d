-- ===== src/Qos/Classes.antt =====
-- The queue and the TID of a frame, from qos.c.
use w132d_linux_mainline.Prelude.{
  ℕ, ◌*◌, ◌/◌, ◌%◌, ◌≤◌, ◌≡◌, ◌≢◌, refl, ◌∙◌, sym, ap, Bool, true, false, ◌||◌, List, none, some,
  arith, ◌==◌, if◌then◌else◌, if_cases, if_true, if_false, bind_some, bind_none, Option-cases, inl,
  inr, subst, Bool-cases,
}
use w132d_linux_mainline.Qos.{
  be16, ip_tos46, tos_priority, Prio, pkt_get_prio, tid_map_to_qosindex, TidQos, get_tid_qosindex,
  qos_index_2_tid,
}

abbrev Class : ℕ → ℕ → Type 0
Class q tid = (q ≤ 3) × (qos_index_2_tid q ≡ tid)

tos_priority-Class : (tos : ℕ) → Class (tid_map_to_qosindex (tos_priority tos)) (tos_priority tos)
unfolding tid_map_to_qosindex tos_priority qos_index_2_tid
tos_priority-Class tos =
    let P = λ (p : ℕ). Class (tid_map_to_qosindex p) p in
    let tc : ℕ = tos / 32 * 32 in
    let high : ℕ = if tc == 128 || tc == 160 then 4 else 6 in
    let low : ℕ = if tc == 32 || tc == 64 then 1 else high in
    if_cases P (tc == 0 || tc == 96) 0 low (λ e. (omega arith, refl))
      (λ e.
        if_cases P (tc == 32 || tc == 64) 1 high (λ e. (omega arith, refl))
          (λ e.
            if_cases P (tc == 128 || tc == 160) 4 6 (λ e. (omega arith, refl))
              (λ e. (omega arith, refl))))

tid_map_bound : (tid : ℕ) → tid_map_to_qosindex tid ≤ 3
unfolding tid_map_to_qosindex
tid_map_bound tid = ground arith

-- The queue is one of the four and the TID has three bits, and without a tag the TID is the one of
-- the queue.
pub record IsClassified (frame : List ℕ) (r : TidQos) : Type 0 where
  pub queue : r.qos_index ≤ 3
  pub tid : r.tid ≤ 7
  pub of_queue : be16 frame 12 ≢ some 33024 → qos_index_2_tid r.qos_index ≡ r.tid

tos_priority_bound : (tos : ℕ) → tos_priority tos ≤ 7
unfolding tos_priority
tos_priority_bound tos = ground arith

abbrev tid_qos : Prio → TidQos
tid_qos p = record { qos_index = tid_map_to_qosindex p.priority; tid = p.priority; tos = p.tos }

abbrev Classified : List ℕ → Prio → Type 0
Classified frame p = IsClassified frame (tid_qos p)

prio-Classified : (frame : List ℕ) (p : Prio) → pkt_get_prio frame 0 ≡ some p → Classified frame p
unfolding pkt_get_prio
prio-Classified frame p e = elim (Option-cases (be16 frame 12)) [
  | inl short ↦ let clash : none ≡ some p = sym (bind_none _ short) ∙ e in absurd (cc)
  | inr (t, type) ↦ elim (Bool-cases (t == 33024)) [
    | inl tagged ↦ elim (Option-cases (be16 frame 14)) [
      | inl short ↦
          let clash : none ≡ some p =
            sym (bind_some _ type ∙ if_true _ _ tagged ∙ bind_none _ short) ∙ e in
          absurd (cc)
      | inr (tag, here) ↦
          let path : some p ≡ some (record { priority = tag / 8192 % 8; tos = 0 }) =
            sym e ∙ bind_some _ type ∙ if_true _ _ tagged ∙ bind_some _ here in
          let is_p : record { priority = tag / 8192 % 8; tos = 0 } ≡ p = cc in
          let type' : be16 frame 12 ≡ some 33024 = type ∙ ap some (ground (arith, tagged)) in
          subst (Classified frame) is_p (record {
            queue = tid_map_bound (tag / 8192 % 8);
            tid = omega arith;
            of_queue = λ other. absurd (other type');
          })
    ]
    | inr untagged ↦ elim (Option-cases (ip_tos46 frame 14)) [
      | inl short ↦
          let clash : none ≡ some p =
            sym (bind_some _ type ∙ if_false _ _ untagged ∙ bind_none _ short) ∙ e in
          absurd (cc)
      | inr (tos, here) ↦
          let path : some p ≡ some (record { priority = tos_priority tos; tos = tos }) =
            sym e ∙ bind_some _ type ∙ if_false _ _ untagged ∙ bind_some _ here in
          let is_p : record { priority = tos_priority tos; tos = tos } ≡ p = cc in
          subst (Classified frame) is_p (record {
            queue = tid_map_bound (tos_priority tos);
            tid = tos_priority_bound tos;
            of_queue = λ other. (tos_priority-Class tos).1;
          })
    ]
  ]
]

-- A frame that can be read goes to one of the four queues with a TID of three bits, and the TID of a
-- frame without a tag of 802.1Q is the one of its queue.
pub get_tid_qosindex-IsClassified :
    (enabled : Bool) (frame : List ℕ) (r : TidQos)
    → get_tid_qosindex enabled frame ≡ some r
    → IsClassified frame r
unfolding get_tid_qosindex qos_index_2_tid
get_tid_qosindex-IsClassified false frame r e =
    let is_r : record { qos_index = 2; tid = 0; tos = 0 } ≡ r = cc in
    subst (IsClassified frame) is_r
      (record { queue = omega arith; tid = omega arith; of_queue = λ other. refl })
get_tid_qosindex-IsClassified true frame r e = elim (Option-cases (pkt_get_prio frame 0)) [
  | inl short ↦ let clash : none ≡ some r = sym (bind_none _ short) ∙ e in absurd (cc)
  | inr (p, here) ↦
      let path : some r ≡ some (tid_qos p) = sym e ∙ bind_some _ here in
      let is_r : tid_qos p ≡ r = cc in
      subst (IsClassified frame) is_r (prio-Classified frame p here)
]
