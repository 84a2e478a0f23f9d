-- ===== src/Defrag/Reassembly.antt =====
-- The fragments of one frame, in order, come out as the frame.
use w132d_linux_mainline.Prelude.{
  ℕ, ◌+◌, ◌-◌, ◌%◌, ◌^◌, ◌≤◌, ◌<◌, ◌≡◌, refl, ◌∙◌, sym, ap, List, [], ◌∷◌, ◌++◌, some, arith,
  length, take, drop, length-append,
}
use mathlib.Core.List.{append_assoc}
use w132d_linux_mainline.Prelude.Memory.{
  read_bytes, read_bytes_lem, write_bytes-append, length-take, length-drop,
}
use w132d_linux_mainline.Defrag.{
  Skb, eth_len, frag_len, frag_offset, total_len, with_len, append_frags, fill_frame,
}

-- What a fragment behind the first one adds to the frame.
abbrev pub payload : Skb → List ℕ
payload s = take (s.desc.msdu_len - eth_len s.desc) (drop (frag_offset s.desc) s.data_bytes)

unfoldable pub payloads : List Skb → List ℕ
payloads [] = []
payloads (s ∷ ss) = payload s ++ payloads ss

-- The frame: all of the first fragment, from its descriptor on, and the payloads of the others.
abbrev pub whole : Skb → List Skb → List ℕ
whole f fs = take (f.desc.msdu_offset + f.desc.msdu_len) f.data_bytes ++ payloads fs

-- The fragment has its header, and the memory of its skb holds all of it.
pub record Fits (s : Skb) : Type 0 where
  pub header : eth_len s.desc ≤ s.desc.msdu_len
  pub held : s.desc.msdu_offset + s.desc.msdu_len ≤ length s.data_bytes
  pub small : s.desc.msdu_offset + s.desc.msdu_len < 2 ^ 16

abbrev pub AllFit : List Skb → Type 0
AllFit [] = Unit
AllFit (s ∷ ss) = Fits s × AllFit ss

pub frag_len_lem : (s : Skb) → Fits s → frag_len s.desc ≡ s.desc.msdu_len - eth_len s.desc
unfolding frag_len
frag_len_lem s h = omega arith

pub length-payload : (s : Skb) → Fits s → length (payload s) ≡ s.desc.msdu_len - eth_len s.desc
length-payload s h =
    length-take (s.desc.msdu_len - eth_len s.desc) (drop (frag_offset s.desc) s.data_bytes)
      (omega (arith, length-drop (frag_offset s.desc) s.data_bytes))

-- One fragment is copied.
copy_frag :
    (pre old : List ℕ) (s : Skb) (ss : List Skb)
    → Fits s
    → length pre + length (payload s) < 2 ^ 16
    → length (payload s) ≤ length old
    → append_frags (pre ++ old) (length pre) (s ∷ ss)
      ≡ append_frags
          ((pre ++ payload s) ++ drop (length (payload s)) old)
          (length (pre ++ payload s))
          ss
unfolding append_frags
copy_frag pre old s ss h small room =
    let len = frag_len_lem s h in
    let n = length-payload s h in
    let read : read_bytes s.data_bytes (frag_offset s.desc) (frag_len s.desc) ≡ some (payload s) =
      ap (λ k. read_bytes s.data_bytes (frag_offset s.desc) k) len
      ∙ read_bytes_lem s.data_bytes (frag_offset s.desc) (s.desc.msdu_len - eth_len s.desc)
          (omega arith) in
    let write =
      write_bytes-append pre old (payload s) (length pre) refl room
      ∙ ap some (sym (append_assoc pre (payload s) (drop (length (payload s)) old))) in
    let next : (length pre + frag_len s.desc) % 2 ^ 16 ≡ length (pre ++ payload s) =
      omega (arith, len, n, length-append pre (payload s)) in
    rw read (rw write (rw next refl))

-- The loop over the fragments copies their payloads one behind the other.
append_frags_lem :
    (pre old : List ℕ) (ss : List Skb)
    → AllFit ss
    → length pre + length (payloads ss) < 2 ^ 16
    → length (payloads ss) ≤ length old
    → (left : List ℕ) × (append_frags (pre ++ old) (length pre) ss
        ≡ some (pre ++ (payloads ss ++ left)))
unfolding append_frags payloads
append_frags_lem pre old [] h small room = (old, refl)
append_frags_lem pre old (s ∷ ss) (h, hs) small room =
    let both = length-append (payload s) (payloads ss) in
    let more = length-append pre (payload s) in
    let (left, e) =
      append_frags_lem (pre ++ payload s) (drop (length (payload s)) old) ss hs
        (omega (arith, both, more, small))
        (omega (arith, both, room, length-drop (length (payload s)) old)) in
    (
      left,
      copy_frag pre old s ss h (omega (arith, both, small)) (omega (arith, both, room))
          ∙ e
          ∙ ap some (
              append_assoc pre (payload s) (payloads ss ++ left)
              ∙ ap (λ z. pre ++ z) (sym (append_assoc (payload s) (payloads ss) left))),
    )

-- The frame is filled in when the memory has room for it.
pub fill_frame_lem :
    (len : ℕ) (f : Skb) (fs : List Skb) (memory : List ℕ)
    → Fits f
    → AllFit fs
    → length (whole f fs) < 2 ^ 16
    → length (whole f fs) ≤ length memory
    → (left : List ℕ) × (fill_frame len f fs memory
        ≡ some (record { desc = with_len len f.desc; data_bytes = whole f fs ++ left }))
unfolding fill_frame
fill_frame_lem len f fs memory h hs small room =
    let n = f.desc.msdu_offset + f.desc.msdu_len in
    let head = take n f.data_bytes in
    let size : length head ≡ n = length-take n f.data_bytes h.held in
    let all = length-append head (payloads fs) in
    let t : total_len f.desc ≡ n = omega arith in
    let read : read_bytes f.data_bytes 0 (total_len f.desc) ≡ some head =
      ap (λ k. read_bytes f.data_bytes 0 k) t ∙ read_bytes_lem f.data_bytes 0 n (omega arith) in
    let write = write_bytes-append [] memory head 0 refl (omega (arith, all, room)) in
    let (left, e) =
      append_frags_lem head (drop (length head) memory) fs hs (omega (arith, all, small))
        (omega (arith, all, room, length-drop (length head) memory)) in
    let rest : append_frags (head ++ drop (length head) memory) (total_len f.desc) fs
        ≡ some (head ++ (payloads fs ++ left)) =
      ap (λ k. append_frags (head ++ drop (length head) memory) k fs) (t ∙ sym size) ∙ e in
    (left, rw read (rw write (rw rest (rw (append_assoc head (payloads fs) left) refl))))
