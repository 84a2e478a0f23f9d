-- ===== src/Queues/Merge.antt =====
-- How many frames sprdwl_tx_eachmode_data of tx_msg.c takes from the lists.
use w132d_linux_mainline.Prelude.{
  ℕ, suc, ◌+◌, ◌-◌, ◌≤◌, ◌≡◌, refl, ◌∙◌, sym, List, [], ◌∷◌, arith, leb, ◌==◌, if◌then◌else◌,
  if_cases, if_true, if_false, length, length-append, subst,
}
use w132d_linux_mainline.Queues.{
  PeerList, Moved, none_of, merge_all_peers, merge_peers, Ratios, min, fp_num, sum_of, total_of,
  Merged, none_of_all, then_rest, merge_all, merge_some, merge_lists,
}
use w132d_linux_mainline.Queues.Share.{AtMostHundred, fp_num-Assigned}
use w132d_linux_mainline.Queues.Taken.{
  FitsAll, RunAll, run_none_all, run_then, Takes, none_of-Takes, merge_all_peers-Takes,
  merge_peers-Takes,
}

record TakesAll (n : ℕ) (qs : List (List PeerList)) (m : Merged) : Type 0 where
  sent : length m.sent ≡ n
  taken : m.taken ≡ n
  run : RunAll qs m

then_rest-TakesAll :
    (n k : ℕ) {ps : List PeerList} {qs : List (List PeerList)} (first : Moved) (rest : Merged)
    → Takes n ps first
    → TakesAll k qs rest
    → TakesAll (n + k) (ps ∷ qs) (then_rest first rest)
then_rest-TakesAll n k first rest t r =
    let a = length-append first.sent rest.sent in
    record {
      sent = omega (arith, a, t.sent, r.sent);
      taken = omega (arith, t.taken, r.taken);
      run = run_then t.run r.run;
    }

none_of_all-TakesAll : (qs : List (List PeerList)) → TakesAll 0 qs (none_of_all qs)
none_of_all-TakesAll qs = record { sent = refl; taken = refl; run = run_none_all qs }

merge_all-TakesAll :
    (nss : List (List ℕ)) (qs : List (List PeerList))
    → FitsAll nss qs
    → TakesAll (total_of nss) qs (merge_all nss qs)
unfolding merge_all total_of
merge_all-TakesAll [] [] h = none_of_all-TakesAll []
merge_all-TakesAll [] (ps ∷ qs) h = elim h [ ]
merge_all-TakesAll (ns ∷ nss) [] h = elim h [ ]
merge_all-TakesAll (ns ∷ nss) (ps ∷ qs) (h, hs) =
    then_rest-TakesAll (sum_of ns) (total_of nss) (merge_all_peers ns ps) (merge_all nss qs)
      (merge_all_peers-Takes ns ps h) (merge_all-TakesAll nss qs hs)

merge_some-TakesAll :
    (r : Ratios) (i send total : ℕ) (nss : List (List ℕ)) (qs : List (List PeerList))
    → AtMostHundred r
    → total ≡ total_of nss
    → send ≤ total
    → FitsAll nss qs
    → TakesAll send qs (merge_some r i send total nss qs)
unfolding merge_some total_of
merge_some-TakesAll r i send total [] [] ok e le h =
    let z : 0 ≡ send = omega (arith, e, le) in
    subst (λ k. TakesAll k [] (none_of_all [])) z (none_of_all-TakesAll [])
merge_some-TakesAll r i send total [] (ps ∷ qs) ok e le h = elim h [ ]
merge_some-TakesAll r i send total (ns ∷ nss) [] ok e le h = elim h [ ]
merge_some-TakesAll r i send total (ns ∷ nss) (ps ∷ qs) ok e le (h, hs) =
    let q = sum_of ns in
    let fp = if q == 0 then 0 else fp_num r i send total q in
    let rest = merge_some r (suc i) (send - fp) (total - q) nss qs in
    let e' : total - q ≡ total_of nss = omega (arith, e) in
    if_cases (TakesAll send (ps ∷ qs)) (q == 0) (then_rest (none_of ps) rest)
      (if send == 0 then none_of_all (ps ∷ qs) else then_rest (merge_peers fp q ns ps) rest)
      (λ idle.
        let q_0 : q ≡ 0 = ground (arith, idle) in
        let fp_0 : fp ≡ 0 = if_true 0 (fp_num r i send total q) idle in
        let ih =
          merge_some-TakesAll r (suc i) (send - fp) (total - q) nss qs ok e'
            (omega (arith, q_0, fp_0, le)) hs in
        let k : 0 + (send - fp) ≡ send = omega (arith, fp_0) in
        subst (λ k. TakesAll k (ps ∷ qs) (then_rest (none_of ps) rest)) k
          (then_rest-TakesAll 0 (send - fp) (none_of ps) rest (none_of-Takes ps) ih))
      (λ busy.
        if_cases (TakesAll send (ps ∷ qs)) (send == 0) (none_of_all (ps ∷ qs))
          (then_rest (merge_peers fp q ns ps) rest)
          (λ none_left.
            let z : 0 ≡ send = ground (arith, none_left) in
            subst (λ k. TakesAll k (ps ∷ qs) (none_of_all (ps ∷ qs))) z
              (none_of_all-TakesAll (ps ∷ qs)))
          (λ some_left.
            let g =
              fp_num-Assigned r i send total q ok (ground (arith, busy)) (omega (arith, e)) le in
            let fp_g : fp ≡ fp_num r i send total q = if_false 0 (fp_num r i send total q) busy in
            let of_queue = g.of_queue in
            let of_credits = g.of_credits in
            let others = g.rest in
            let ih =
              merge_some-TakesAll r (suc i) (send - fp) (total - q) nss qs ok e'
                (omega (arith, fp_g, of_credits, others)) hs in
            let k : fp + (send - fp) ≡ send = omega (arith, fp_g, of_credits) in
            subst (λ k. TakesAll k (ps ∷ qs) (then_rest (merge_peers fp q ns ps) rest)) k
              (then_rest-TakesAll fp (send - fp) (merge_peers fp q ns ps) rest
                (merge_peers-Takes fp q ns ps refl (omega (arith, fp_g, of_queue)) h) ih)))

-- As many as there are credits, or all.
pub merge_lists-exact :
    (r : Ratios) (send_num : ℕ) (nss : List (List ℕ)) (qs : List (List PeerList))
    → AtMostHundred r
    → FitsAll nss qs
    → (length (merge_lists r send_num nss qs).sent ≡ min send_num (total_of nss))
      × ((merge_lists r send_num nss qs).taken ≡ min send_num (total_of nss))
unfolding merge_lists
merge_lists-exact r send nss qs ok h =
    let total = total_of nss in
    if_cases (λ m. (length m.sent ≡ min send total) × (m.taken ≡ min send total)) (leb total send)
      (merge_all nss qs) (merge_some r 0 send total nss qs)
      (λ enough.
        let t = merge_all-TakesAll nss qs h in
        let e : min send total ≡ total = ground (arith, enough) in
        (t.sent ∙ sym e, t.taken ∙ sym e))
      (λ short.
        let t = merge_some-TakesAll r 0 send total nss qs ok refl (ground (arith, short)) h in
        let e : min send total ≡ send = ground (arith, short) in (t.sent ∙ sym e, t.taken ∙ sym e))

pub merge_lists-RunAll :
    (r : Ratios) (send_num : ℕ) (nss : List (List ℕ)) (qs : List (List PeerList))
    → AtMostHundred r
    → FitsAll nss qs
    → RunAll qs (merge_lists r send_num nss qs)
unfolding merge_lists
merge_lists-RunAll r send nss qs ok h =
    let total = total_of nss in
    if_cases (RunAll qs) (leb total send) (merge_all nss qs) (merge_some r 0 send total nss qs)
      (λ enough. (merge_all-TakesAll nss qs h).run)
      (λ short. (merge_some-TakesAll r 0 send total nss qs ok refl (ground (arith, short)) h).run)
