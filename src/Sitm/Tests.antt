-- ===== src/Sitm/Tests.antt =====
-- Runs of sitm.c on concrete bytes; the fifo is a list.
use w132d_linux_mainline.Prelude.Memory.{write_bytes}
use w132d_linux_mainline.Prelude.{
  ℕ, zero, suc, ◌≤◌, ◌≡◌, refl, List, [], ◌∷◌, Option, none, some, arith, length, replicate, take,
  drop, ◌>>=◌,
}
use w132d_linux_mainline.Sitm.{
  buffer_size, brand_new, Receive, preamble_size, acl_length, start_packet, end_preamble,
  receive_preamble, tail_of, finish, receive_body, receive_byte, complete, leaves, round,
  parse_frame,
}
use w132d_linux_mainline.Sitm.Overflow.{feed, acl_data_overflow}

abbrev out_of_list : List ℕ → ℕ → List ℕ × List ℕ
out_of_list s n = (take n s, drop n s)

abbrev initial : Receive
initial = record {
  state = brand_new;
  bytes_remaining = 0;
  type = 0;
  preamble = replicate 5 0;
  index = 0;
  buffer = replicate buffer_size 0;
}

-- The packets that are cut out of a list of bytes.
packets : List ℕ → Option (List (List ℕ))
unfolding parse_frame round receive_byte receive_body complete leaves finish tail_of
    receive_preamble end_preamble start_packet acl_length write_bytes preamble_size
packets s = parse_frame out_of_list (suc (length s)) initial s >>= λ (frames, r, s'). some frames

-- An event of two bytes, a byte that starts nothing, and a command with no parameters, filled up.
cut :
    packets (4 ∷ 14 ∷ 2 ∷ 8 ∷ 9 ∷ 77 ∷ 1 ∷ 3 ∷ 12 ∷ 0 ∷ [])
    ≡ some ((4 ∷ 14 ∷ 2 ∷ 8 ∷ 9 ∷ []) ∷ (1 ∷ 3 ∷ 12 ∷ 0 ∷ 0 ∷ 0 ∷ 0 ∷ 0 ∷ []) ∷ [])
unfolding packets
cut = refl

take-le : (n : ℕ) (s : List ℕ) → length (take n s) ≤ n
take-le zero s = omega arith
take-le (suc n) [] = omega arith
take-le (suc n) (x ∷ s) = omega (arith, take-le n s)

-- ACL data of 1026 bytes: its length is 2 and 4 * 256.
acl_data_overflow_example :
    feed out_of_list
      (2 ∷ (0 ∷ (0 ∷ (2 ∷ (4 ∷ (1 ∷ []))))))
      (record initial { state = brand_new; buffer = replicate 1030 0 })
      (replicate 1025 1)
    ≡ none
acl_data_overflow_example =
    acl_data_overflow out_of_list 0 0 2 4 1 (replicate 1030 0) initial (replicate 1025 1)
      (omega arith) (omega arith) (omega arith) (omega arith) refl
