-- ===== src/Queues/Order.antt =====
-- That sprdwl_tx_eachmode_data of tx_msg.c takes the frames from the front of the lists, and that the
-- counters tell how many are left.
use w132d_linux_mainline.Prelude.{
  ℕ, ◌-◌, ◌≤◌, ◌≡◌, refl, ◌∙◌, sym, ap, List, [], ◌∷◌, ◌++◌, arith, if_true, length, take, drop,
}
use w132d_linux_mainline.Prelude.Memory.{length-drop, take-append-drop}
use w132d_linux_mainline.Queues.{
  Buf, PeerList, cut, Moved, without, Merged, Ratios, min, total_of, merge_lists,
}
use w132d_linux_mainline.Queues.Share.{AtMostHundred}
use w132d_linux_mainline.Queues.Taken.{
  FitsAll, Run, run_none, run_pass, run_add, RunAll, run_none_all, run_then,
}
use w132d_linux_mainline.Queues.Merge.{merge_lists-exact, merge_lists-RunAll}

-- The counter of a list is its length, and its square is an `int`.
pub record IsCounted (p : PeerList) : Type 0 where
  pub l_num : p.l_num ≡ length p.head_list
  pub int : length p.head_list ≤ 46340

abbrev pub AllCounted : List PeerList → Type 0
AllCounted [] = Unit
AllCounted (p ∷ ps) = IsCounted p × AllCounted ps

abbrev pub QueuesCounted : List (List PeerList) → Type 0
QueuesCounted [] = Unit
QueuesCounted (ps ∷ qs) = AllCounted ps × QueuesCounted qs

-- Of each list a first part was sent, in its order, and the rest is left.
abbrev pub FromFront : List PeerList → List Buf → List PeerList → Type 0
FromFront [] sent [] = sent ≡ []
FromFront [] sent (p' ∷ ps') = ⊥
FromFront (p ∷ ps) sent [] = ⊥
FromFront (p ∷ ps) sent (p' ∷ ps') =
    (first : List Buf) × (later : List Buf) × (sent ≡ first ++ later)
    × (p.head_list ≡ first ++ p'.head_list)
    × FromFront ps later ps'

abbrev pub FromFronts : List (List PeerList) → List Buf → List (List PeerList) → Type 0
FromFronts [] sent [] = sent ≡ []
FromFronts [] sent (ps' ∷ qs') = ⊥
FromFronts (ps ∷ qs) sent [] = ⊥
FromFronts (ps ∷ qs) sent (ps' ∷ qs') =
    (first : List Buf) × (later : List Buf) × (sent ≡ first ++ later)
    × FromFront ps first ps'
    × FromFronts qs later qs'

cut-take : (n : ℕ) (l : List Buf) → n ≤ length l → cut n l ≡ (take n l, drop n l)
unfolding cut
cut-take n l h = if_true (take n l, drop n l) ([], l) (ground (arith, h))

front_none : (ps : List PeerList) → FromFront ps [] ps
front_none [] = refl
front_none (p ∷ ps) = ([], [], refl, refl, front_none ps)

fronts_none : (qs : List (List PeerList)) → FromFronts qs [] qs
fronts_none [] = refl
fronts_none (ps ∷ qs) = ([], [], refl, front_none ps, fronts_none qs)

without-IsCounted :
    (n : ℕ) (p : PeerList) → n ≤ length p.head_list → IsCounted p → IsCounted (without n p)
without-IsCounted n p h c =
    let e : (cut n p.head_list).1 ≡ drop n p.head_list =
      ap (λ (r : List Buf × List Buf). r.1) (cut-take n p.head_list h) in
    let l : length (cut n p.head_list).1 ≡ length p.head_list - n =
      ap length e ∙ length-drop n p.head_list in
    record { l_num = omega (arith, l, c.l_num, c.int, h); int = omega (arith, l, c.int) }

run_front : {ps : List PeerList} {m : Moved} → Run ps m → FromFront ps m.sent m.peers
run_front (run_none ps) = front_none ps
run_front (run_pass p {m = m} r) = ([], m.sent, refl, refl, run_front r)
run_front (run_add n p {m = m} h r) =
    let e = cut-take n p.head_list h in
    let parts = ap (λ (r : List Buf × List Buf). r.0 ++ r.1) e in
    ((cut n p.head_list).0, m.sent, refl, sym (parts ∙ take-append-drop n p.head_list), run_front r)

run_counted : {ps : List PeerList} {m : Moved} → Run ps m → AllCounted ps → AllCounted m.peers
run_counted (run_none ps) c = c
run_counted (run_pass p r) (c, cs) = (c, run_counted r cs)
run_counted (run_add n p h r) (c, cs) = (without-IsCounted n p h c, run_counted r cs)

pub runs_front :
    {qs : List (List PeerList)} {m : Merged} → RunAll qs m → FromFronts qs m.sent m.queues
runs_front (run_none_all qs) = fronts_none qs
runs_front (run_then {first = first} {rest = rest} r rs) =
    (first.sent, rest.sent, refl, run_front r, runs_front rs)

pub runs_counted :
    {qs : List (List PeerList)} {m : Merged}
    → RunAll qs m
    → QueuesCounted qs
    → QueuesCounted m.queues
runs_counted (run_none_all qs) c = c
runs_counted (run_then r rs) (c, cs) = (run_counted r c, runs_counted rs cs)

-- What is sent, what the counter of the mode is decreased by, and what is left in the lists.
pub record IsMerged (send_num : ℕ) (nss : List (List ℕ)) (qs : List (List PeerList)) (m : Merged)
    : Type 0 where
  pub sent : length m.sent ≡ min send_num (total_of nss)
  pub taken : m.taken ≡ min send_num (total_of nss)
  pub front : FromFronts qs m.sent m.queues

-- Of the frames that wait in the lists of a mode, exactly as many are put on the list to be sent as
-- there are credits, or all of them if they are no more, and the counter of the mode is decreased by
-- that many. The list to be sent is made of a first part of each list, category after category and
-- peer after peer, each in its order, and the rest of each list stays. The conditions: the numbers
-- that were read off the lists are of frames that are there, and no ratio is above 100.
pub merge_lists-IsMerged :
    (r : Ratios) (send_num : ℕ) (nss : List (List ℕ)) (qs : List (List PeerList))
    → AtMostHundred r
    → FitsAll nss qs
    → IsMerged send_num nss qs (merge_lists r send_num nss qs)
merge_lists-IsMerged r send nss qs ok h =
    let exact = merge_lists-exact r send nss qs ok h in
    record {
      sent = exact.0;
      taken = exact.1;
      front = runs_front (merge_lists-RunAll r send nss qs ok h);
    }
