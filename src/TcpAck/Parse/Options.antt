-- ===== src/TcpAck/Parse/Options.antt =====
-- The loop over the TCP options: what it finds in a proper header, and where it does not end.
use w132d_linux_mainline.Prelude.{
  ℕ, zero, suc, ◌+◌, ◌-◌, ◌^◌, ◌%◌, ◌<◌, ◌≤◌, ◌≡◌, ◌≢◌, ◌∙◌, ap, some, ◌&&◌, ◌||◌, List, [], ◌∷◌,
  arith, ltb, ◌==◌, if◌then◌else◌,
}
use w132d_linux_mainline.TcpAck.Parse.{Memory, read_option, read_options}

-- Proper options from `ptr` on, `len` bytes of them: padding, and options that fit, each given by
-- its kind and the byte after its size.
pub data Proper (buf : Memory) : ℕ → ℕ → List (ℕ × ℕ) → Type 0 where
  done : {ptr len : ℕ} → len ≡ 0 → Proper buf ptr len []
  nop :
      {ptr len : ℕ} {opts : List (ℕ × ℕ)}
      → 0 < len
      → buf ptr ≡ 1
      → Proper buf (ptr + 1) (len - 1) opts
      → Proper buf ptr len opts
  option :
      {ptr len : ℕ} {opts : List (ℕ × ℕ)}
      → 1 < buf ptr
      → 2 ≤ buf (ptr + 1)
      → buf (ptr + 1) ≤ len
      → Proper buf (ptr + buf (ptr + 1)) (len - buf (ptr + 1)) opts
      → Proper buf ptr len ((buf ptr, buf (ptr + 2)) ∷ opts)

-- The verdict over a list of options: 2 as soon as one is neither a time stamp nor a window scale.
unfoldable pub drop_of : List (ℕ × ℕ) → ℕ → ℕ
drop_of [] drop = drop
drop_of ((kind, v) ∷ opts) drop = drop_of opts (if kind == 8 || kind == 3 then drop else 2)

-- The last window scale below 15 counts.
unfoldable pub scale_of : List (ℕ × ℕ) → ℕ → ℕ
scale_of [] s = s
scale_of ((kind, v) ∷ opts) s = scale_of opts (if kind == 3 && ltb v 15 then 2 ^ v % 2 ^ 16 else s)

read_option-kind :
    (buf : Memory) (ptr opcode drop s : ℕ)
    → read_option buf ptr opcode drop s ≡ (
      (if opcode == 8 || opcode == 3 then drop else 2),
      (if opcode == 3 && ltb (buf ptr) 15 then 2 ^ buf ptr % 2 ^ 16 else s),
    )
unfolding read_option
read_option-kind buf ptr opcode drop s = ground arith

-- Over proper options the loop ends in as many rounds as there are bytes, and one more, and its
-- verdict and its window scale are those of the list of options.
pub read_options-Proper :
    (fuel : ℕ) (buf : Memory) (ptr len drop s : ℕ) (opts : List (ℕ × ℕ))
    → Proper buf ptr len opts
    → len < fuel
    → drop ≢ 0
    → read_options fuel buf ptr len drop s ≡ some (drop_of opts drop, scale_of opts s)
unfolding read_options drop_of scale_of
read_options-Proper zero buf ptr len drop s opts p h d = absurd (omega arith)
read_options-Proper (suc fuel) buf ptr len drop s opts (done e) h d = ground arith
read_options-Proper (suc fuel) buf ptr len drop s opts (nop pos e p) h d =
    let rest = read_options-Proper fuel buf (ptr + 1) (len - 1) drop s opts p (omega arith) d in
    ground (arith, rest)
read_options-Proper (suc fuel) buf ptr len drop s _ (option {opts = o} k lo hi p) h d =
    let r = read_option buf (ptr + 2) (buf ptr) drop s in
    let kind = read_option-kind buf (ptr + 2) (buf ptr) drop s in
    let verdict : r.0 ≡ (if buf ptr == 8 || buf ptr == 3 then drop else 2) = ap (λ x. x.0) kind in
    let left : r.0 ≢ 0 = ground (arith, verdict, d) in
    let rest =
      read_options-Proper fuel buf (ptr + buf (ptr + 1)) (len - buf (ptr + 1)) r.0 r.1 o p
        (omega arith) left in
    let one_round : read_options (suc fuel) buf ptr len drop s
        ≡ some (drop_of o r.0, scale_of o r.1) =
      ground (arith, rest) in
    one_round ∙ ap (λ x. some (drop_of o x.0, scale_of o x.1)) kind

end_mark_round :
    (fuel : ℕ) (buf : Memory) (ptr len drop s : ℕ)
    → 0 < len
    → drop ≢ 0
    → buf ptr ≡ 0
    → read_options (suc fuel) buf ptr len drop s ≡ read_options fuel buf (ptr + 1) len drop s
unfolding read_options
end_mark_round fuel buf ptr len drop s h d z = ground (arith, z)

-- An end mark does not end the loop: over `n` bytes of 0 from `ptr` on, each round moves one byte
-- further and counts none of them, however few are left: after `n` rounds the loop stands at
-- `ptr + n`, with the same number of bytes left. The condition: one byte at least is left.
pub end_mark_overrun :
    (n fuel : ℕ) (buf : Memory) (ptr len drop s : ℕ)
    → 0 < len
    → drop ≢ 0
    → ((j : ℕ) → j < n → buf (ptr + j) ≡ 0)
    → read_options (n + fuel) buf ptr len drop s ≡ read_options fuel buf (ptr + n) len drop s
unfolding read_options
end_mark_overrun zero fuel buf ptr len drop s h d z =
    ap (λ f. read_options f buf ptr len drop s) (omega arith)
    ∙ ap (λ p. read_options fuel buf p len drop s) (omega arith)
end_mark_overrun (suc n) fuel buf ptr len drop s h d z =
    let rest =
      end_mark_overrun n fuel buf (ptr + 1) len drop s h d
        (λ j below. ap buf (omega arith) ∙ z (suc j) (omega arith)) in
    let here : ptr ≡ ptr + 0 = omega arith in
    let now : buf ptr ≡ 0 = ap buf here ∙ z 0 (omega arith) in
    let fuels : suc n + fuel ≡ suc (n + fuel) = omega arith in
    ap (λ f. read_options f buf ptr len drop s) fuels
    ∙ end_mark_round (n + fuel) buf ptr len drop s h d now
    ∙ rest
    ∙ ap (λ p. read_options fuel buf p len drop s) (omega arith)

-- The loop keeps a verdict that is not 0.
pub read_options-kept :
    (fuel : ℕ) (buf : Memory) (ptr len drop s : ℕ) (r : ℕ × ℕ)
    → drop ≢ 0
    → read_options fuel buf ptr len drop s ≡ some r
    → r.0 ≢ 0
unfolding read_options read_option
read_options-kept zero buf ptr len drop s r d e = ground arith
read_options-kept (suc fuel) buf ptr len drop s r d e =
    let at_end = read_options-kept fuel buf (ptr + 1) len drop s r d in
    let at_nop = read_options-kept fuel buf (ptr + 1) (len - 1) drop s r d in
    let at_bad = read_options-kept fuel buf (ptr + 2) len drop s r d in
    let o = read_option buf (ptr + 2) (buf ptr) drop s in
    let left : o.0 ≢ 0 = ground (arith, d) in
    let at_option =
      read_options-kept fuel buf (ptr + buf (ptr + 1)) (len - buf (ptr + 1)) o.0 o.1 r left in
    ground (arith, at_end, at_nop, at_bad, at_option, e, d, left)
