-- ===== src/Queues/Weight.antt =====
-- Weights of the frames in the transmit queues: with every weight kept, no frame is lost or doubled.
use w132d_linux_mainline.Prelude.{ℕ, ◌+◌, ◌≡◌, refl, ◌∙◌, ap, List, [], ◌∷◌, ◌++◌, arith, length}
use w132d_linux_mainline.Queues.{Buf, PeerList}
use w132d_linux_mainline.Queues.Order.{FromFront, FromFronts}

unfoldable pub weigh : (Buf → ℕ) → List Buf → ℕ
weigh f [] = 0
weigh f (b ∷ bs) = f b + weigh f bs

unfoldable pub weigh_peers : (Buf → ℕ) → List PeerList → ℕ
weigh_peers f [] = 0
weigh_peers f (p ∷ ps) = weigh f p.head_list + weigh_peers f ps

unfoldable pub weigh_queues : (Buf → ℕ) → List (List PeerList) → ℕ
weigh_queues f [] = 0
weigh_queues f (ps ∷ qs) = weigh_peers f ps + weigh_queues f qs

abbrev pub each_one : Buf → ℕ
each_one b = 1

pub weigh-append :
    (f : Buf → ℕ) (l more : List Buf) → weigh f (l ++ more) ≡ weigh f l + weigh f more
unfolding weigh
weigh-append f [] more = omega arith
weigh-append f (b ∷ l) more = omega (arith, weigh-append f l more)

pub weigh-each_one : (l : List Buf) → weigh each_one l ≡ length l
unfolding weigh
weigh-each_one [] = refl
weigh-each_one (b ∷ l) = omega (arith, weigh-each_one l)

pub weigh_split :
    (f : Buf → ℕ) (l first later : List Buf)
    → l ≡ first ++ later
    → weigh f l ≡ weigh f first + weigh f later
weigh_split f l first later e = ap (weigh f) e ∙ weigh-append f first later

front_weight :
    (f : Buf → ℕ) (ps : List PeerList) (sent : List Buf) (ps' : List PeerList)
    → FromFront ps sent ps'
    → weigh_peers f ps ≡ weigh f sent + weigh_peers f ps'
unfolding weigh_peers weigh
front_weight f [] sent [] e = let a : weigh f sent ≡ 0 = ap (weigh f) e in omega (arith, a)
front_weight f [] sent (p' ∷ ps') e = elim e [ ]
front_weight f (p ∷ ps) sent [] e = elim e [ ]
front_weight f (p ∷ ps) sent (p' ∷ ps') (first, later, parts, here, rest) =
    let a = weigh_split f sent first later parts in
    let b = weigh_split f p.head_list first p'.head_list here in
    let c = front_weight f ps later ps' rest in omega (arith, a, b, c)

pub fronts_weight :
    (f : Buf → ℕ) (qs : List (List PeerList)) (sent : List Buf) (qs' : List (List PeerList))
    → FromFronts qs sent qs'
    → weigh_queues f qs ≡ weigh f sent + weigh_queues f qs'
unfolding weigh_queues weigh
fronts_weight f [] sent [] e = let a : weigh f sent ≡ 0 = ap (weigh f) e in omega (arith, a)
fronts_weight f [] sent (ps' ∷ qs') e = elim e [ ]
fronts_weight f (ps ∷ qs) sent [] e = elim e [ ]
fronts_weight f (ps ∷ qs) sent (ps' ∷ qs') (first, later, parts, here, rest) =
    let a = weigh_split f sent first later parts in
    let b = front_weight f ps first ps' here in
    let c = fronts_weight f qs later qs' rest in omega (arith, a, b, c)
