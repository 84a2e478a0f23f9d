-- ===== src/Credit/Colours.antt =====
-- sprdwl_fc_set_clor_bit of tx_msg.c: the colours of the frames of one transfer.
use w132d_linux_mainline.Prelude.{
  ℕ, zero, suc, ◌+◌, ◌≤◌, ◌<◌, ◌≡◌, refl, ◌∙◌, ap, true, false, List, [], ◌∷◌, ◌++◌, map, arith,
  leb, if_true, if_false, replicate,
}
use w132d_linux_mainline.Credit.{Colour, Hardware, colour_from, fc_set_clor_bit}
use w132d_linux_mainline.Credit.Grant.{granted}

leb-true : {m n : ℕ} → m ≤ n → leb m n ≡ true
leb-true h = ground (arith, h)

leb-false : {m n : ℕ} → n < m → leb m n ≡ false
leb-false h = ground (arith, h)

-- The numbers of `n` frames, from `a + 1` on.
abbrev pub frames_from : ℕ → ℕ → List ℕ
frames_from a zero = []
frames_from a (suc n) = suc a ∷ frames_from (suc a) n

-- Each colour as often as its number says, in the order of the colours.
abbrev pub spread : ℕ → List Colour → List ℕ
spread i [] = []
spread i (c ∷ cs) = replicate c.color_num i ++ spread (suc i) cs

map_same :
    (f g : ℕ → ℕ) (a n : ℕ)
    → ((k : ℕ) → a < k → f k ≡ g k)
    → map f (frames_from a n) ≡ map g (frames_from a n)
map_same f g a zero k = refl
map_same f g a (suc n) k =
    ap (λ x. x ∷ map f (frames_from (suc a) n)) (k (suc a) (omega arith))
    ∙ ap (λ xs. g (suc a) ∷ xs) (map_same f g (suc a) n (λ j l. k j (omega (arith, l))))

-- The frames of a first colour get it, and the others are as they were.
map_frames :
    (f g : ℕ → ℕ) (v a m n b t : ℕ)
    → b ≡ a + m
    → t ≡ m + n
    → ((k : ℕ) → a < k → k ≤ b → f k ≡ v)
    → ((k : ℕ) → b < k → f k ≡ g k)
    → map f (frames_from a t) ≡ replicate m v ++ map g (frames_from b n)
map_frames f g v a zero n b t at all h k =
    let start : a ≡ b = omega (arith, at) in
    let count : t ≡ n = omega (arith, all) in
    ap (λ j. map f (frames_from a j)) count
    ∙ ap (λ j. map f (frames_from j n)) start
    ∙ map_same f g b n k
map_frames f g v a (suc m) n b t at all h k =
    let count : t ≡ suc (m + n) = omega (arith, all) in
    ap (λ j. map f (frames_from a j)) count
    ∙ ap (λ x. x ∷ map f (frames_from (suc a) (m + n)))
        (h (suc a) (omega arith) (omega (arith, at)))
    ∙ ap (λ xs. v ∷ xs)
        (map_frames f g v (suc a) m n b (m + n) (omega (arith, at)) refl
          (λ j l u. h j (omega (arith, l)) u) k)

colour_from-spread :
    (i a : ℕ) (cs : List Colour)
    → map (colour_from i a cs) (frames_from a (granted cs)) ≡ spread i cs
unfolding colour_from granted
colour_from-spread i a [] = refl
colour_from-spread i a (c ∷ cs) =
    map_frames (colour_from i a (c ∷ cs)) (colour_from (suc i) (a + c.color_num) cs) i a c.color_num
      (granted cs) (a + c.color_num) (granted (c ∷ cs)) refl refl
      (λ k l u. if_true _ _ (leb-true u)) (λ k l. if_false _ _ (leb-false l))
    ∙ ap (λ xs. replicate c.color_num i ++ xs) (colour_from-spread (suc i) (a + c.color_num) cs)

-- With credits in use, the frames of a transfer, counted from one, get the colours in order: each
-- colour exactly as many frames as `color_num` charges it for.
pub set_clor_bit-spread :
    (hw : Hardware) (cs : List Colour)
    → hw.no_credit ≡ false
    → map (fc_set_clor_bit hw cs) (frames_from 0 (granted cs)) ≡ spread 0 cs
unfolding fc_set_clor_bit
set_clor_bit-spread hw cs credit =
    map_same (fc_set_clor_bit hw cs) (colour_from 0 0 cs) 0 (granted cs)
      (λ k l. if_false _ _ credit)
    ∙ colour_from-spread 0 0 cs
