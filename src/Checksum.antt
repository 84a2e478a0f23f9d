-- ===== src/Checksum.antt =====
-- `do_csum` of unisocwifi/tx_msg.c: the sum of the 16-bit words of a buffer, with their carries.
pub mod Sum
pub mod Address
mod Tests
use w132d_linux_mainline.Prelude.{
  ℕ, zero, suc, ◌+◌, ◌-◌, ◌*◌, ◌/◌, ◌%◌, ◌^◌, Bool, true, false, ◌&&◌, List, [], ◌∷◌, ltb, leb,
  ◌==◌, if◌then◌else◌, length,
}

-- Two or four bytes, read as a little-endian word
abbrev pub half : ℕ → ℕ → ℕ
half a b = a + 256 * b

abbrev pub word : ℕ → ℕ → ℕ → ℕ → ℕ
word a b c d = a + 256 * b + 65536 * c + 16777216 * d

unfoldable pub from32to16 : ℕ → ℕ
from32to16 x =
    let y = (x % 2 ^ 16 + x / 2 ^ 16) % 2 ^ 32 in ((y % 2 ^ 16 + y / 2 ^ 16) % 2 ^ 32) % 2 ^ 16

-- The loop over words, with the carry added behind it: the sum, and the bytes that are left.
unfoldable pub add_words : ℕ → ℕ → List ℕ → ℕ × List ℕ
add_words result carry (a ∷ b ∷ c ∷ d ∷ bs) =
    let w = word a b c d in
    let next = ((result + carry) % 2 ^ 32 + w) % 2 ^ 32 in
    add_words next (if ltb next w then 1 else 0) bs
add_words result carry bs = ((result + carry) % 2 ^ 32, bs)

-- The words, folded to 17 bits; none are read where there are fewer than four bytes.
unfoldable pub fold_words : ℕ → List ℕ → ℕ × List ℕ
fold_words result bs =
    let sum = add_words result 0 bs in
    if ltb (length bs) 4 then (result, bs) else ((sum.0 % 2 ^ 16 + sum.0 / 2 ^ 16) % 2 ^ 32, sum.1)

unfoldable pub add_half : ℕ × List ℕ → ℕ × List ℕ
add_half (result, a ∷ b ∷ bs) = ((result + half a b) % 2 ^ 32, bs)
add_half (result, bs) = (result, bs)

-- The last byte, if the number of bytes is odd.
unfoldable pub add_byte : ℕ × List ℕ → ℕ
add_byte (result, a ∷ bs) = (result + a) % 2 ^ 32
add_byte (result, []) = result

-- From an even address on: a half first, if the address is not a multiple of four.
unfoldable pub csum_even : ℕ → ℕ → List ℕ → ℕ
csum_even address result bs =
    let start = if address % 4 == 0 then (result, bs) else add_half (result, bs) in
    from32to16 (add_byte (add_half (fold_words start.0 start.1)))

abbrev pub swap : ℕ → ℕ
swap x = (x / 256) % 256 + (x % 256) * 256

-- `do_csum` of the bytes at an address, on a little-endian processor
unfoldable pub do_csum : ℕ → List ℕ → ℕ
do_csum address [] = 0
do_csum address (b ∷ bs) =
    if address % 2 == 1
    then swap (csum_even (address + 1) (b * 256) bs)
    else csum_even address 0 (b ∷ bs)
