-- ===== src/Checksum/Tests.antt =====
-- A buffer of seven bytes at an odd address.
use w132d_linux_mainline.Prelude.{ℕ, ◌≡◌, refl, List, [], ◌∷◌, arith}
use w132d_linux_mainline.Checksum.{
  from32to16, add_words, fold_words, add_half, add_byte, csum_even, do_csum,
}
use w132d_linux_mainline.Checksum.Sum.{words_sum}
use w132d_linux_mainline.Checksum.Address.{ones_sum, do_csum-ones_sum}

abbrev seven : List ℕ
seven = 255 ∷ (254 ∷ (1 ∷ (2 ∷ (200 ∷ (255 ∷ (9 ∷ []))))))

at_three : do_csum 3 seven ≡ 211
unfolding do_csum csum_even from32to16 add_words fold_words add_half add_byte
at_three = refl

do_csum-ones_sum_example : do_csum 3 seven ≡ ones_sum (words_sum seven)
do_csum-ones_sum_example = do_csum-ones_sum 3 seven (
  omega arith,
  (omega arith, (omega arith, (omega arith, (omega arith, (omega arith, (omega arith, tt)))))),
)
