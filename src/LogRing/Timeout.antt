-- ===== src/LogRing/Timeout.antt =====
-- `mdbg_ring_write_timeout` of bufring.c, while readers take bytes from the ring.
use w132d_linux_mainline.Prelude.{
  ℕ, zero, suc, ◌+◌, ◌/◌, ◌≤◌, ◌<◌, ◌≡◌, ◌⊎◌, inl, inr, ap, arith, refl, ◌∙◌, subst, true, List,
  leb, length, drop, if_cases, Returns,
}
use w132d_linux_mainline.Prelude.Memory.{drop-drop}
use w132d_linux_mainline.LogRing.{Ring, ring_free_space, wait_space, ring_write, ring_write_timeout}
use w132d_linux_mainline.LogRing.Storage.{Holds}
use w132d_linux_mainline.LogRing.Writing.{AtMost}
use w132d_linux_mainline.LogRing.Spec.{write, wrote, Step}
use w132d_linux_mainline.LogRing.Calls.{write-Does}

-- The ring holds what `q` leaves when some of its first bytes have been read.
abbrev pub Later : ℕ → List ℕ → Ring → Type 0
Later size q r = (t : ℕ) × Holds r (drop t q) × (r.size ≡ size)

-- In each round the readers take some of the first bytes, or none.
abbrev pub OnlyRead : (ℕ → Ring → Ring) → Type 0
OnlyRead others = (k : ℕ) (r : Ring) (q : List ℕ) → Holds r q → Later r.size q (others k r)

-- The ring after `j` rounds of the others, of `cnt` that are left.
unfoldable pub after_rounds : (ℕ → Ring → Ring) → ℕ → ℕ → Ring → Ring
after_rounds others cnt zero r = r
after_rounds others zero (suc j) r = r
after_rounds others (suc cnt) (suc j) r = after_rounds others cnt j (others cnt r)

-- The wait for more room than `n` bytes ends after `j` rounds: in each of those before there was
-- none, and then there is, or all the rounds are over.
pub record Waited (others : ℕ → Ring → Ring) (cnt n : ℕ) (r : Ring) (j : ℕ) : Type 0 where
  pub within : j ≤ cnt
  pub no_room : (i : ℕ) → i < j → ring_free_space (after_rounds others cnt i r) ≤ n
  pub ends : (n < ring_free_space (after_rounds others cnt j r)) ⊎ (j ≡ cnt)

-- The wait leaves what some rounds of the others leave.
abbrev Ended : (ℕ → Ring → Ring) → ℕ → ℕ → Ring → Ring → Type 0
Ended others cnt n r r' = (j : ℕ) × (r' ≡ after_rounds others cnt j r) × Waited others cnt n r j

no_room-suc :
    (others : ℕ → Ring → Ring) (cnt n : ℕ) (r : Ring) (j : ℕ)
    → ring_free_space r ≤ n
    → Waited others cnt n (others cnt r) j
    → (i : ℕ) → i < suc j
    → ring_free_space (after_rounds others (suc cnt) i r) ≤ n
unfolding after_rounds
no_room-suc others cnt n r j full w zero h = full
no_room-suc others cnt n r j full w (suc i) h = w.no_room i (omega (arith, h))

ends-suc :
    (others : ℕ → Ring → Ring) (cnt n : ℕ) (r : Ring) (j : ℕ)
    → (n < ring_free_space (after_rounds others cnt j (others cnt r))) ⊎ (j ≡ cnt)
    → (n < ring_free_space (after_rounds others (suc cnt) (suc j) r)) ⊎ (suc j ≡ suc cnt)
unfolding after_rounds
ends-suc others cnt n r j (inl room) = inl room
ends-suc others cnt n r j (inr last) = inr (ap suc last)

wait_space-Waited :
    (others : ℕ → Ring → Ring) (cnt n : ℕ) (r : Ring)
    → Ended others cnt n r (wait_space others cnt r n)
unfolding wait_space after_rounds
wait_space-Waited others zero n r = (
  0,
  refl,
  record { within = omega arith; no_room = λ i h. absurd (omega (arith, h)); ends = inr refl },
)
wait_space-Waited others (suc cnt) n r =
    let (j, same, w) = wait_space-Waited others cnt n (others cnt r) in
    if_cases (Ended others (suc cnt) n r) (leb (ring_free_space r) n) _ _
      (λ full. (
        suc j,
        same,
        record {
          within = omega (arith, w.within);
          no_room = no_room-suc others cnt n r j (ground (arith, full)) w;
          ends = ends-suc others cnt n r j w.ends;
        },
      ))
      (λ room. (
        0,
        refl,
        record {
          within = omega arith;
          no_room = λ i h. absurd (omega (arith, h));
          ends = inl (ground (arith, room));
        },
      ))

after_rounds-Later :
    (others : ℕ → Ring → Ring) (cnt j : ℕ) (r : Ring) (q : List ℕ)
    → OnlyRead others
    → Holds r q
    → Later r.size q (after_rounds others cnt j r)
unfolding after_rounds
after_rounds-Later others cnt zero r q o h = (0, h, refl)
after_rounds-Later others zero (suc j) r q o h = (0, h, refl)
after_rounds-Later others (suc cnt) (suc j) r q o h =
    let (t, h1, s1) = o cnt r q h in
    let (t', h2, s2) = after_rounds-Later others cnt j (others cnt r) (drop t q) o h1 in
    (t + t', subst (Holds _) (drop-drop t' t q) h2, s2 ∙ s1)

-- A write with a timeout on an open log, while others read, first waits: round by round while there
-- is not more room than the bytes need, until there is or the rounds of 20 ms are over. The ring
-- then holds what the readers left, some end of the old bytes, and the write is one to that queue:
-- afterwards the ring holds that end, and behind it what was written, if there was room. The
-- conditions: the ring holds a queue, the readers take first bytes only, and the kernel leaves no
-- more bytes than it was told to copy.
pub write_timeout-Step :
    (u : ℕ → ℕ → ℕ) (others : ℕ → Ring → Ring) (timeout : ℕ) (bs : List ℕ) (r : Ring) (q : List ℕ)
    → AtMost u
    → OnlyRead others
    → Holds r q
    → Returns (ring_write_timeout u others timeout true r bs) (λ (woken, (ret, r')).
      (j : ℕ) × (t : ℕ) × (q' : List ℕ) × Waited others (timeout / 20) (length bs) r j
      × Holds (after_rounds others (timeout / 20) j r) (drop t q)
      × Step r.size (write u bs) (drop t q) (wrote woken ret) q'
      × Holds r' q')
unfolding ring_write_timeout
write_timeout-Step u others timeout bs r q bounded o h =
    let (j, path, waited) = wait_space-Waited others (timeout / 20) (length bs) r in
    let (t, h', same) = after_rounds-Later others (timeout / 20) j r q o h in
    let later = after_rounds others (timeout / 20) j r in
    let (res, out, (q', step, h'', size)) = write-Does u bounded bs later (drop t q) h' in
    (
      res,
      ap (λ k. ring_write u true k bs) path ∙ out,
      (
        j,
        t,
        q',
        waited,
        h',
        subst (λ n. Step n (write u bs) (drop t q) (wrote res.0 res.1.0) q') same step,
        h'',
      ),
    )
