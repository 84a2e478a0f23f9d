-- ===== src/Seqno.antt =====
-- The 12-bit sequence numbers of rx_msg.h: SEQNO_ADD, SEQNO_SUB, seqno_leq and seqno_geq.
pub mod Order
use w132d_linux_mainline.Prelude.{ℕ, ◌+◌, ◌-◌, ◌%◌, Bool, ◌&&◌, ◌||◌, ltb, leb}

-- `SEQNO_MASK + 1`: `& SEQNO_MASK` is `% seqno_mod`.
abbrev pub seqno_mod : ℕ
seqno_mod = 0x1000

abbrev pub max_seqno_by_two : ℕ
max_seqno_by_two = 2048

abbrev pub seqno_add : ℕ → ℕ → ℕ
seqno_add a b = (a + b) % seqno_mod

-- The operands are 16 bits wide, and 2^16 is a multiple of `seqno_mod`.
abbrev pub seqno_sub : ℕ → ℕ → ℕ
seqno_sub a b = (a + 0x10000 - b) % seqno_mod

unfoldable pub seqno_leq : ℕ → ℕ → Bool
seqno_leq seq1 seq2 =
    leb seq1 seq2 && ltb (seq2 - seq1) max_seqno_by_two
    || ltb seq2 seq1 && leb max_seqno_by_two (seq1 - seq2)

unfoldable pub seqno_geq : ℕ → ℕ → Bool
unfolding seqno_leq
seqno_geq seq1 seq2 = seqno_leq seq2 seq1
