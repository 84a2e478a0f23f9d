-- ===== src/Queues/Taken.antt =====
-- What sprdwl_tx_eachmode_data of tx_msg.c takes from the lists of one access category.
use w132d_linux_mainline.Prelude.{
  ℕ, ◌+◌, ◌-◌, ◌≤◌, ◌<◌, ◌≡◌, refl, ◌∙◌, sym, ap, true, List, [], ◌∷◌, arith, leb, ◌==◌,
  if◌then◌else◌, if_cases, if_true, if_false, length, length-append, take, drop, subst,
}
use w132d_linux_mainline.Prelude.Memory.{length-take}
use w132d_linux_mainline.Queues.{
  Buf, PeerList, cut, Moved, add_xmit, pass, none_of, merge_all_peers, min_num, merge_peers, sum_of,
  Merged, none_of_all, then_rest,
}
use w132d_linux_mainline.Queues.Share.{min_num-Given}

-- The numbers were read off the lists before; since then frames may have been added.
abbrev pub Fits : List ℕ → List PeerList → Type 0
Fits [] [] = Unit
Fits [] (p ∷ ps) = ⊥
Fits (n ∷ ns) [] = ⊥
Fits (n ∷ ns) (p ∷ ps) = (n ≤ length p.head_list) × Fits ns ps

abbrev pub FitsAll : List (List ℕ) → List (List PeerList) → Type 0
FitsAll [] [] = Unit
FitsAll [] (ps ∷ qs) = ⊥
FitsAll (ns ∷ nss) [] = ⊥
FitsAll (ns ∷ nss) (ps ∷ qs) = Fits ns ps × FitsAll nss qs

-- From each list as many frames were taken as its counter was decreased by.
pub data Run : List PeerList → Moved → Type 0 where
  run_none : (ps : List PeerList) → Run ps (none_of ps)
  run_pass : (p : PeerList) {ps : List PeerList} {m : Moved} → Run ps m → Run (p ∷ ps) (pass p m)
  run_add :
      (n : ℕ) (p : PeerList) {ps : List PeerList} {m : Moved}
      → n ≤ length p.head_list
      → Run ps m
      → Run (p ∷ ps) (add_xmit n p m)

pub data RunAll : List (List PeerList) → Merged → Type 0 where
  run_none_all : (qs : List (List PeerList)) → RunAll qs (none_of_all qs)
  run_then :
      {ps : List PeerList} {qs : List (List PeerList)} {first : Moved} {rest : Merged}
      → Run ps first
      → RunAll qs rest
      → RunAll (ps ∷ qs) (then_rest first rest)

-- So many frames were taken in all, and the counter of the mode decreased by as many.
pub record Takes (n : ℕ) (ps : List PeerList) (m : Moved) : Type 0 where
  pub sent : length m.sent ≡ n
  pub taken : m.taken ≡ n
  pub run : Run ps m

pub length-cut : (n : ℕ) (l : List Buf) → n ≤ length l → length (cut n l).0 ≡ n
unfolding cut
length-cut n l h =
    let e : leb n (length l) ≡ true = ground (arith, h) in
    ap (λ (r : List Buf × List Buf). length r.0) (if_true (take n l, drop n l) ([], l) e)
    ∙ length-take n l h

add_xmit-Takes :
    (n k : ℕ) (p : PeerList) {ps : List PeerList} (rest : Moved)
    → n ≤ length p.head_list
    → Takes k ps rest
    → Takes (n + k) (p ∷ ps) (add_xmit n p rest)
add_xmit-Takes n k p rest h t =
    let a = length-cut n p.head_list h in
    let b = length-append (cut n p.head_list).0 rest.sent in
    record {
      sent = omega (arith, a, b, t.sent);
      taken = omega (arith, t.taken);
      run = run_add n p h t.run;
    }

pub none_of-Takes : (ps : List PeerList) → Takes 0 ps (none_of ps)
none_of-Takes ps = record { sent = refl; taken = refl; run = run_none ps }

pass-Takes :
    (n : ℕ) (p : PeerList) {ps : List PeerList} (rest : Moved)
    → Takes n ps rest
    → Takes n (p ∷ ps) (pass p rest)
pass-Takes n p rest t = record { sent = t.sent; taken = t.taken; run = run_pass p t.run }

pub merge_all_peers-Takes :
    (ns : List ℕ) (ps : List PeerList) → Fits ns ps → Takes (sum_of ns) ps (merge_all_peers ns ps)
unfolding merge_all_peers sum_of
merge_all_peers-Takes [] [] h = none_of-Takes []
merge_all_peers-Takes [] (p ∷ ps) h = elim h [ ]
merge_all_peers-Takes (n ∷ ns) [] h = elim h [ ]
merge_all_peers-Takes (n ∷ ns) (p ∷ ps) (h, hs) =
    let rest = merge_all_peers ns ps in
    let ih = merge_all_peers-Takes ns ps hs in
    if_cases (Takes (n + sum_of ns) (p ∷ ps)) (n == 0) (pass p rest) (add_xmit n p rest)
      (λ e.
        let z : n ≡ 0 = ground (arith, e) in
        let s : sum_of ns ≡ n + sum_of ns = omega (arith, z) in
        subst (λ k. Takes k (p ∷ ps) (pass p rest)) s (pass-Takes (sum_of ns) p rest ih))
      (λ e. add_xmit-Takes n (sum_of ns) p rest h ih)

-- An access category sends exactly what it was assigned.
pub merge_peers-Takes :
    (fp q : ℕ) (ns : List ℕ) (ps : List PeerList)
    → q ≡ sum_of ns
    → fp ≤ q
    → Fits ns ps
    → Takes fp ps (merge_peers fp q ns ps)
unfolding merge_peers sum_of
merge_peers-Takes fp q [] [] e le h =
    let z : 0 ≡ fp = omega (arith, e, le) in
    subst (λ k. Takes k [] (none_of [])) z (none_of-Takes [])
merge_peers-Takes fp q [] (p ∷ ps) e le h = elim h [ ]
merge_peers-Takes fp q (n ∷ ns) [] e le h = elim h [ ]
merge_peers-Takes fp q (n ∷ ns) (p ∷ ps) e le (h, hs) =
    let m = if n == 0 then 0 else min_num n fp q in
    let rest = merge_peers (fp - m) (q - n) ns ps in
    let q' : q - n ≡ sum_of ns = omega (arith, e) in
    if_cases (Takes fp (p ∷ ps)) (n == 0) (pass p rest)
      (if m == 0
        then none_of (p ∷ ps)
        else if fp - m == 0
        then add_xmit m p (none_of ps)
        else add_xmit m p rest)
      (λ none_here.
        let m_0 : m ≡ 0 = if_true 0 (min_num n fp q) none_here in
        let n_0 : n ≡ 0 = ground (arith, none_here) in
        let ih = merge_peers-Takes (fp - m) (q - n) ns ps q' (omega (arith, m_0, n_0, le)) hs in
        let k : fp - m ≡ fp = omega (arith, m_0) in
        pass-Takes fp p rest (subst (λ k. Takes k ps rest) k ih))
      (λ some_here.
        let some_n : 0 < n = ground (arith, some_here) in
        let g = min_num-Given n fp q some_n (omega (arith, e)) le in
        let m_g : m ≡ min_num n fp q = if_false 0 (min_num n fp q) some_here in
        let of_peer = g.of_peer in
        let of_left = g.of_left in
        let others = g.others in
        if_cases (Takes fp (p ∷ ps)) (m == 0) (none_of (p ∷ ps))
          (if fp - m == 0 then add_xmit m p (none_of ps) else add_xmit m p rest)
          (λ m_0.
            let z : 0 ≡ fp = sym (g.some_left (ground (arith, m_0, m_g))) in
            subst (λ k. Takes k (p ∷ ps) (none_of (p ∷ ps))) z (none_of-Takes (p ∷ ps)))
          (λ some_m.
            if_cases (Takes fp (p ∷ ps)) (fp - m == 0) (add_xmit m p (none_of ps))
              (add_xmit m p rest)
              (λ over.
                let z : m + 0 ≡ fp = ground (arith, over, m_g, of_left) in
                subst (λ k. Takes k (p ∷ ps) (add_xmit m p (none_of ps))) z
                  (add_xmit-Takes m 0 p (none_of ps) (omega (arith, h, m_g, of_peer))
                    (none_of-Takes ps)))
              (λ more.
                let ih =
                  merge_peers-Takes (fp - m) (q - n) ns ps q' (omega (arith, m_g, others, of_left))
                    hs in
                let z : m + (fp - m) ≡ fp = omega (arith, m_g, of_left) in
                subst (λ k. Takes k (p ∷ ps) (add_xmit m p rest)) z
                  (add_xmit-Takes m (fp - m) p rest (omega (arith, h, m_g, of_peer)) ih))))
