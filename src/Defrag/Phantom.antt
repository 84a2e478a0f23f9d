-- ===== src/Defrag/Phantom.antt =====
-- A fragment without a first one, in the list as it is after `sprdwl_defrag_init`.
use w132d_linux_mainline.Prelude.{
  ℕ, ◌+◌, ◌-◌, ◌<◌, ◌≡◌, ◌∙◌, ap, true, false, ◌&&◌, not, List, [], ◌∷◌, Option, none, some, arith,
  ◌==◌, length, take, ◌^◌, ◌%◌, if_false, bind_some, bind_none,
}
use w132d_linux_mainline.Prelude.Memory.{
  length-take, write_bytes, read_bytes, read_bytes_lem, write_bytes_past,
}
use w132d_linux_mainline.Defrag.{
  Skb, eth_len, frag_len, total_len, zero_node, defrag_init, assemble, add_frag, fill_frame,
  place_frag, is_owner, get_defrag_node, defrag_single_data_process, defrag_data_process,
}
use w132d_linux_mainline.Defrag.Series.{owner_at_head, find_next}
use w132d_linux_mainline.Defrag.Reassembly.{Fits, frag_len_lem}

fill_frame_overflow :
    (len : ℕ) (s : Skb) (fs : List Skb) (memory : List ℕ)
    → Fits s
    → length memory < s.desc.msdu_offset + s.desc.msdu_len
    → fill_frame len s fs memory ≡ none
unfolding fill_frame
fill_frame_overflow len s fs memory h short =
    let n = s.desc.msdu_offset + s.desc.msdu_len in
    let t : total_len s.desc ≡ n = omega arith in
    let read : read_bytes s.data_bytes 0 (total_len s.desc) ≡ some (take n s.data_bytes) =
      ap (λ k. read_bytes s.data_bytes 0 k) t ∙ read_bytes_lem s.data_bytes 0 n (omega arith) in
    let size = length-take n s.data_bytes h.held in
    let past : write_bytes memory 0 (take n s.data_bytes) ≡ none =
      write_bytes_past memory 0 (take n s.data_bytes) (omega (arith, size, short)) (omega arith) in
    rw read (bind_none _ past)

-- Right after the initialisation, a second fragment of sequence number 0 from station 0 with
-- TID 0, for which no first fragment came, is taken as the end of a frame; its copy runs past the
-- new skb, where the kernel gives less memory than the fragment with its descriptor is long. The
-- conditions: the fragment fits its skb, it is the last one, and the kernel gives memory.
pub defrag_init-phantom :
    (alloc : ℕ → Option (List ℕ)) (s : Skb) (memory : List ℕ)
    → Fits s
    → s.desc.sta_lut_index ≡ 0
    → s.desc.tid ≡ 0
    → s.desc.seq_num ≡ 0
    → s.desc.frag_num ≡ 1
    → s.desc.more_frag_bit ≡ false
    → alloc (s.desc.msdu_len - eth_len s.desc) ≡ some memory
    → length memory < s.desc.msdu_offset + s.desc.msdu_len
    → defrag_data_process alloc s (defrag_init 3).1 ≡ none
unfolding defrag_data_process defrag_single_data_process get_defrag_node place_frag add_frag
    assemble defrag_init is_owner
defrag_init-phantom alloc s memory h sta tid seq frag last got short =
    let not_alone : (s.desc.frag_num == 0 && not s.desc.more_frag_bit) ≡ false =
      ground (arith, frag, last) in
    let not_first : (s.desc.frag_num == 0) ≡ false = ground (arith, frag) in
    let mine : is_owner s.desc zero_node ≡ true = ground (arith, sta, tid) in
    let o = owner_at_head s.desc zero_node (zero_node ∷ (zero_node ∷ [])) mine in
    let follows : (0 == s.desc.seq_num && 0 + 1 == s.desc.frag_num) ≡ true =
      ground (arith, seq, frag) in
    let found = find_next s.desc (defrag_init 3).1 _ o follows in
    let len : (0 + frag_len s.desc) % 2 ^ 32 ≡ s.desc.msdu_len - eth_len s.desc =
      omega (arith, frag_len_lem s h) in
    let full = fill_frame_overflow (s.desc.msdu_len - eth_len s.desc) s [] memory h short in
    let none_left : assemble alloc ((0 + frag_len s.desc) % 2 ^ 32) (s ∷ []) ≡ none =
      ap (λ k. assemble alloc k (s ∷ [])) len ∙ (rw (got, assemble) (bind_none _ full)) in
    if_false _ _ not_alone
    ∙ bind_some (place_frag alloc s)
        (if_false _ _ not_first ∙ ap (λ r. some (r, (defrag_init 3).1)) found)
    ∙ if_false _ _ last
    ∙ bind_none _ none_left
