-- ===== src/LogRing/Refine.antt =====
-- The ring of bufring.c as a bounded queue of bytes: any calls, one after the other.
use w132d_linux_mainline.Prelude.{ℕ, refl, ◌∙◌, subst, List, [], ◌∷◌, bind_some, Returns}
use w132d_linux_mainline.LogRing.{Ring, ring_clear, ring_reset}
use w132d_linux_mainline.LogRing.Storage.{Holds, clear-Holds, reset-Holds}
use w132d_linux_mainline.LogRing.Writing.{AtMost}
use w132d_linux_mainline.LogRing.Spec.{
  Op, write, read, clear, reset, run_op, run, cleared, was_reset, Steps, nothing, next,
}
use w132d_linux_mainline.LogRing.Calls.{Does, write-Does, read-Does}

-- No copy of a write leaves more bytes than it was told to copy.
abbrev pub Bounded : Op → Type 0
Bounded (write u bs) = AtMost u
Bounded (read u n) = Unit
Bounded clear = Unit
Bounded reset = Unit

abbrev pub AllBounded : List Op → Type 0
AllBounded [] = Unit
AllBounded (op ∷ ops) = Bounded op × AllBounded ops

op-Does :
    (op : Op) (r : Ring) (q : List ℕ)
    → Bounded op
    → Holds r q
    → Returns (run_op op r) (Does r.size op q)
unfolding run_op ring_clear ring_reset
op-Does (write u bs) r q b h =
    let (res, out, d) = write-Does u b bs r q h in (_, bind_some _ out, d)
op-Does (read u n) r q b h = read-Does u n r q h
op-Does clear r q b h = (_, refl, ([], cleared, clear-Holds r q h, refl))
op-Does reset r q b h = (_, refl, ([], was_reset, reset-Holds r q h, refl))

-- Any calls of write, read, clear and reset on an open log are answered as by a queue of bytes
-- that has room for fewer bytes than the buffer: no call leaves the buffer, a write is appended
-- whole, discarded whole where there is no room, or undone where a copy fails; a read takes the
-- oldest bytes, in order; and the ring then holds what the queue does. The conditions: the ring
-- holds a queue at the start, and the kernel's copies leave no more than they were told to copy.
pub run-Steps :
    (ops : List Op) (r : Ring) (q : List ℕ)
    → AllBounded ops
    → Holds r q
    → Returns
        (run ops r)
        (λ (answers, r'). (q' : List ℕ) × Steps r.size ops q answers q' × Holds r' q')
unfolding run
run-Steps [] r q b h = (_, refl, (q, nothing, h))
run-Steps (op ∷ ops) r q (b, bs) h =
    let (first, out, (q1, step, h1, same)) = op-Does op r q b h in
    let (rest, outs, (q2, steps, h2)) = run-Steps ops first.1 q1 bs h1 in
    (
      (first.0 ∷ rest.0, rest.1),
      bind_some _ out ∙ bind_some _ outs,
      (q2, next step (subst (λ n. Steps n ops q1 rest.0 q2) same steps), h2),
    )
