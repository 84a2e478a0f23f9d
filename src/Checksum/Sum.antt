-- ===== src/Checksum/Sum.antt =====
-- The loop of `do_csum` keeps the sum of the 16-bit words, up to carries.
use w132d_linux_mainline.Prelude.{
  ℕ, ◌+◌, ◌*◌, ◌/◌, ◌%◌, ◌^◌, ◌≤◌, ◌<◌, ◌≡◌, refl, ◌∙◌, List, [], ◌∷◌, arith, ltb, if◌then◌else◌,
  length, if_cases,
}
use w132d_linux_mainline.Checksum.{
  half, word, from32to16, add_words, fold_words, add_half, add_byte,
}

-- The sum of the little-endian words, an odd byte at the end by itself.
unfoldable pub words_sum : List ℕ → ℕ
words_sum [] = 0
words_sum (a ∷ []) = a
words_sum (a ∷ b ∷ bs) = half a b + words_sum bs

abbrev pub AllBytes : List ℕ → Type 0
AllBytes [] = Unit
AllBytes (b ∷ bs) = (b < 256) × AllBytes bs

-- `r` and the bytes `bs` that are left make up the sum `s`, up to carries; fewer than four are left.
pub record Left (s : ℕ) (r : ℕ × List ℕ) : Type 0 where
  pub bound : r.0 < 2 ^ 32
  pub same : (r.0 + words_sum r.1) % 65535 ≡ s % 65535
  pub none : r.0 + words_sum r.1 ≡ 0 → s ≡ 0
  pub none_back : s ≡ 0 → r.0 + words_sum r.1 ≡ 0
  pub short : length r.1 < 4
  pub bytes : AllBytes r.1

add_words-Left :
    (result carry : ℕ) (bs : List ℕ)
    → result + carry < 2 ^ 32
    → carry ≤ 1
    → AllBytes bs
    → Left (result + carry + words_sum bs) (add_words result carry bs)
unfolding add_words words_sum
add_words-Left result carry [] h k b = record {
  bound = omega arith;
  same = omega (arith, h);
  none = λ z. omega (arith, z, h);
  none_back = λ z. omega (arith, z, h);
  short = omega arith;
  bytes = tt;
}
add_words-Left result carry (a ∷ []) h k b = record {
  bound = omega arith;
  same = omega (arith, h);
  none = λ z. omega (arith, z, h);
  none_back = λ z. omega (arith, z, h);
  short = omega arith;
  bytes = b;
}
add_words-Left result carry (a ∷ b ∷ []) h k bytes = record {
  bound = omega arith;
  same = omega (arith, h);
  none = λ z. omega (arith, z, h);
  none_back = λ z. omega (arith, z, h);
  short = omega arith;
  bytes = bytes;
}
add_words-Left result carry (a ∷ b ∷ c ∷ []) h k bytes = record {
  bound = omega arith;
  same = omega (arith, h);
  none = λ z. omega (arith, z, h);
  none_back = λ z. omega (arith, z, h);
  short = omega arith;
  bytes = bytes;
}
add_words-Left result carry (a ∷ b ∷ c ∷ d ∷ bs) h k (ha, (hb, (hc, (hd, hs)))) =
    let w = word a b c d in
    let next = ((result + carry) % 2 ^ 32 + w) % 2 ^ 32 in
    let small : w < 2 ^ 32 = omega (arith, ha, hb, hc, hd) in
    let over : ℕ = if ltb next w then 1 else 0 in
    let carries : next + 2 ^ 32 * over ≡ result + carry + w = ground (arith, h, small) in
    let fits : next + over < 2 ^ 32 = ground (arith, h, small) in
    let rest = add_words-Left next over bs fits (ground arith) hs in
    record {
      bound = rest.bound;
      same = rest.same ∙ omega (arith, carries);
      none = λ z. omega (arith, rest.none z, carries);
      none_back = λ z. rest.none_back (omega (arith, z, carries));
      short = rest.short;
      bytes = rest.bytes;
    }

pub fold_words-Left :
    (result : ℕ) (bs : List ℕ)
    → result < 2 ^ 17
    → AllBytes bs
    → Left (result + words_sum bs) (fold_words result bs) × ((fold_words result bs).0 < 2 ^ 17)
unfolding fold_words
fold_words-Left result bs h b =
    let all = add_words-Left result 0 bs (omega (arith, h)) (omega arith) b in
    let sum = add_words result 0 bs in
    if_cases (λ (r : ℕ × List ℕ). Left (result + words_sum bs) r × (r.0 < 2 ^ 17))
      (ltb (length bs) 4) (result, bs) ((sum.0 % 2 ^ 16 + sum.0 / 2 ^ 16) % 2 ^ 32, sum.1)
      (λ few. (
        record {
          bound = omega (arith, h);
          same = refl;
          none = λ z. z;
          none_back = λ z. z;
          short = ground (arith, few);
          bytes = b;
        },
        h,
      ))
      (λ many. (
        record {
          bound = omega arith;
          same = (omega (arith, all.bound)) ∙ all.same ∙ (omega arith);
          none = λ z. omega (arith, all.none (omega (arith, z, all.bound)));
          none_back = λ z. omega (arith, all.none_back (omega (arith, z)), all.bound);
          short = all.short;
          bytes = all.bytes;
        },
        omega (arith, all.bound),
      ))

-- `x` is the sum `s` up to carries, and is zero only where it is.
pub record IsSum (s x : ℕ) : Type 0 where
  pub same : x % 65535 ≡ s % 65535
  pub none : x ≡ 0 → s ≡ 0
  pub none_back : s ≡ 0 → x ≡ 0

pub rest_lem :
    (s : ℕ) (r : ℕ × List ℕ)
    → Left s r
    → r.0 < 2 ^ 17
    → IsSum s (add_byte (add_half r)) × (add_byte (add_half r) < 2 ^ 18)
unfolding add_byte add_half words_sum
rest_lem s (x, []) h small = (
  record {
    same = (omega arith) ∙ h.same;
    none = λ z. h.none (omega (arith, z));
    none_back = λ z. omega (arith, h.none_back z);
  },
  omega (arith, small),
)
rest_lem s (x, a ∷ []) h small =
    let (b, u) = h.bytes in
    (
      record {
        same = (omega (arith, b, small)) ∙ h.same;
        none = λ z. h.none (omega (arith, z, b, small));
        none_back = λ z. omega (arith, h.none_back z);
      },
      omega (arith, small, b),
    )
rest_lem s (x, a ∷ c ∷ []) h small =
    let (b, (d, u)) = h.bytes in
    (
      record {
        same = (omega (arith, b, d, small)) ∙ h.same;
        none = λ z. h.none (omega (arith, z, b, d, small));
        none_back = λ z. omega (arith, h.none_back z);
      },
      omega (arith, small, b, d),
    )
rest_lem s (x, a ∷ c ∷ e ∷ []) h small =
    let (b, (d, (f, u))) = h.bytes in
    (
      record {
        same = (omega (arith, b, d, f, small)) ∙ h.same;
        none = λ z. h.none (omega (arith, z, b, d, f, small));
        none_back = λ z. omega (arith, h.none_back z);
      },
      omega (arith, small, b, d, f),
    )
rest_lem s (x, a ∷ c ∷ e ∷ g ∷ bs) h small = absurd (omega (arith, h.short))

pub from32to16-IsSum :
    (s x : ℕ) → IsSum s x → x < 2 ^ 32 → IsSum s (from32to16 x) × (from32to16 x < 2 ^ 16)
unfolding from32to16
from32to16-IsSum s x h small = (
  record {
    same = (omega (arith, small)) ∙ h.same;
    none = λ z. h.none (omega (arith, z, small));
    none_back = λ z. omega (arith, h.none_back z);
  },
  omega (arith, small),
)
