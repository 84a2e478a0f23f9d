-- ===== src/Queues/Share.antt =====
-- How sprdwl_tx_eachmode_data of tx_msg.c shares the credits out: the arithmetic.
use native.Mathlib.Nat.{
  div-le_of_le-mul, le-div_iff_mul-le, mul_comm, mul-add, add-mul, mul-le-mul_left,
}
use w132d_linux_mainline.Prelude.{
  ℕ, zero, suc, ◌+◌, ◌-◌, ◌*◌, ◌/◌, ◌≤◌, ◌<◌, ◌≡◌, ap, ◌&&◌, Option, none, some, arith, ltb, leb,
  if_cases, inl, inr, Bool-cases, subst,
}
use w132d_linux_mainline.Queues.{min, min_num, Ratios, ratio_of, first_share, fp_num}

share-le : (n fp q : ℕ) → fp ≤ q → 0 < q → n * fp / q ≤ n
share-le n fp q h some_q =
    let a : n * fp ≤ n * q = mul-le-mul_left n h in
    let b : n * q ≡ q * n = mul_comm n q in div-le_of_le-mul q (omega (arith, a, b))

-- With `x` frames more in two shares than in all, the shares' product is at least `x * q`.
shares-product : (x b fp : ℕ) → x ≤ fp → x * (fp + b) ≤ (b + x) * fp
shares-product x b fp h =
    let e = mul-add x fp b in
    let e' = add-mul b x fp in
    let m : b * x ≤ b * fp = mul-le-mul_left b h in
    let c = mul_comm b x in omega (arith, e, e', m, c)

-- A share leaves no more credits than frames.
share-left : (n fp q : ℕ) → n ≤ q → fp ≤ q → 0 < q → fp + n ≤ q + n * fp / q
share-left n fp q n_le fp_le some_q = elim (Bool-cases (leb (q - fp) n)) [
  | inl over ↦
      let x = n - (q - fp) in
      let b = q - fp in
      let p : x * (fp + b) ≤ (b + x) * fp = shares-product x b fp (ground (arith, over, n_le)) in
      let e : fp + b ≡ q = omega (arith, fp_le) in
      let e' : b + x ≡ n = ground (arith, over) in
      let p' : x * q ≤ n * fp =
        subst (λ k. x * k ≤ n * fp) e (subst (λ k. x * (fp + b) ≤ k * fp) e' p) in
      let d : x ≤ n * fp / q = (le-div_iff_mul-le some_q).1 p' in ground (arith, d, over, fp_le)
  | inr under ↦ ground (arith, under, fp_le)
]

-- What a peer is given: no more than it has, no more than is left, and something if anything is left.
pub record Given (n fp q m : ℕ) : Type 0 where
  pub of_peer : m ≤ n
  pub of_left : m ≤ fp
  pub others : fp + n ≤ q + m
  pub some_left : m ≡ 0 → fp ≡ 0

pub min_num-Given : (n fp q : ℕ) → 0 < n → n ≤ q → fp ≤ q → Given n fp q (min_num n fp q)
unfolding min_num
min_num-Given n fp q some_n n_le fp_le =
    let a = share-le n fp q fp_le (omega (arith, some_n, n_le)) in
    let b = share-left n fp q n_le fp_le (omega (arith, some_n, n_le)) in
    let r = n * fp / q in
    record {
      of_peer = ground (arith, a, some_n);
      of_left = ground arith;
      others = ground (arith, b, n_le, fp_le);
      some_left = λ e. ground (arith, e);
    }

-- What an access category is given: no more than it has, no more than there are credits, and so
-- much that no more credits remain than frames.
pub record Assigned (send total q fp : ℕ) : Type 0 where
  pub of_queue : fp ≤ q
  pub of_credits : fp ≤ send
  pub rest : send + q ≤ total + fp

pub record AtMostHundred (r : Ratios) : Type 0 where
  pub vo : r.vo_ratio ≤ 100
  pub vi : r.vi_ratio ≤ 100
  pub be : r.be_ratio ≤ 100

abbrev UpTo : Option ℕ → Type 0
UpTo none = Unit
UpTo (some k) = k ≤ 100

ratio_of-UpTo : (r : Ratios) (i : ℕ) → AtMostHundred r → UpTo (ratio_of r i)
unfolding ratio_of
ratio_of-UpTo r zero h = h.vo
ratio_of-UpTo r (suc zero) h = h.vi
ratio_of-UpTo r (suc (suc zero)) h = h.be
ratio_of-UpTo r (suc (suc (suc i))) h = tt

-- The share of a category before the rest is added: enough, when it is the only one left.
record Share (send total q fp : ℕ) : Type 0 where
  of_queue : fp ≤ q
  of_credits : fp ≤ send
  last : total ≡ q → fp ≡ send

portion-Share :
    (send total q : ℕ) → 0 < q → q ≤ total → send ≤ total → Share send total q (send * q / total)
portion-Share send total q some_q q_le send_le =
    let some_total : 0 < total = omega (arith, some_q, q_le) in
    let a = share-le send q total q_le some_total in
    let b = share-le q send total send_le some_total in
    let c = share-left q send total q_le send_le some_total in
    let e : send * q / total ≡ q * send / total = ap (λ k. k / total) (mul_comm send q) in
    record { of_queue = omega (arith, e, b); of_credits = a; last = λ t. omega (arith, e, a, c, t) }

first_share-Share :
    (o : Option ℕ) (send total q : ℕ)
    → UpTo o
    → 0 < q
    → q ≤ total
    → send ≤ total
    → Share send total q (first_share o send total q)
first_share-Share none send total q u some_q q_le send_le =
    portion-Share send total q some_q q_le send_le
first_share-Share (some k) send total q u some_q q_le send_le =
    if_cases (Share send total q) (ltb q total) (min (send * k / 100) q) (send * q / total)
      (λ less.
        let a : send * k / 100 ≤ send = share-le send k 100 u (omega arith) in
        record {
          of_queue = ground arith;
          of_credits = ground (arith, a);
          last = λ t. absurd (ground (arith, less, t));
        })
      (λ same. portion-Share send total q some_q q_le send_le)

pub fp_num-Assigned :
    (r : Ratios) (i send total q : ℕ)
    → AtMostHundred r
    → 0 < q
    → q ≤ total
    → send ≤ total
    → Assigned send total q (fp_num r i send total q)
unfolding fp_num
fp_num-Assigned r i send total q h some_q q_le send_le =
    let fp = first_share (ratio_of r i) send total q in
    let s =
      first_share-Share (ratio_of r i) send total q (ratio_of-UpTo r i h) some_q q_le send_le in
    let others = total - q in
    if_cases (Assigned send total q) (ltb others (send - fp) && ltb 0 others)
      (fp + (send - fp - others)) fp
      (λ more. record {
        of_queue = ground (arith, more, s.of_queue, s.of_credits, q_le, send_le);
        of_credits = ground (arith, more, s.of_credits);
        rest = ground (arith, more, s.of_credits, q_le);
      })
      (λ enough. elim (Bool-cases (ltb 0 others)) [
        | inl some_others ↦ record {
          of_queue = s.of_queue;
          of_credits = s.of_credits;
          rest = ground (arith, enough, some_others, s.of_credits, q_le);
        }
        | inr no_others ↦
            let t : total ≡ q = ground (arith, no_others, q_le) in
            let l = s.last t in
            record { of_queue = s.of_queue; of_credits = s.of_credits; rest = omega (arith, l, t) }
      ])
