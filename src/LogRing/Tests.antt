-- ===== src/LogRing/Tests.antt =====
-- Runs of bufring.c on a ring of eight bytes.
use w132d_linux_mainline.Prelude.{
  ℕ, ◌/◌, ◌<◌, ◌≡◌, refl, true, false, List, [], ◌∷◌, Option, none, some, inr, arith, drop, Returns,
  ◌>>=◌,
}
use w132d_linux_mainline.LogRing.{
  Ring, len, ring_free_space, ring_readable_len, ring_over_loop, ring_clear, ring_reset, arrived,
  write_parts, write_straight, write_freely, ring_write, read_parts, read_straight, read_len,
  ring_read, ring_write_timeout, ring_write_ext,
}
use w132d_linux_mainline.Prelude.Memory.{write_bytes, read_bytes}
use w132d_linux_mainline.LogRing.Storage.{Holds, split}
use w132d_linux_mainline.LogRing.Spec.{
  Op, write, read, clear, reset, Answer, wrote, got, done, run_op, run, Step, Steps,
}
use w132d_linux_mainline.LogRing.Refine.{run-Steps}
use w132d_linux_mainline.LogRing.Timeout.{Waited, after_rounds, write_timeout-Step}
use w132d_linux_mainline.LogRing.Extend.{write_ext-past_end, write_ext-empties}
use w132d_linux_mainline.LogRing.Alloc.{Struct, ring_alloc, ring_alloc-frees_plock}

abbrev around : Ring
around = record {
  size = 8;
  pbuff = 3 ∷ (4 ∷ (0 ∷ (0 ∷ (0 ∷ (0 ∷ (1 ∷ (2 ∷ [])))))));
  rp = 6;
  wp = 2;
  p_order_flag = true;
}

abbrev four : List ℕ
four = 1 ∷ (2 ∷ (3 ∷ (4 ∷ [])))

around-Holds : Holds around four
around-Holds =
    split (1 ∷ (2 ∷ [])) (3 ∷ (4 ∷ [])) (0 ∷ (0 ∷ (0 ∷ (0 ∷ [])))) refl refl refl refl (omega arith)
      (omega arith) refl

abbrev in_kernel : ℕ → ℕ → ℕ
in_kernel o n = 0

abbrev calls : List Op
calls =
    write in_kernel (5 ∷ (6 ∷ []))
    ∷ (read in_kernel 3
        ∷ (write in_kernel (7 ∷ (8 ∷ (9 ∷ (10 ∷ (11 ∷ [])))))
            ∷ (write in_kernel (7 ∷ (8 ∷ (9 ∷ [])))
                ∷ (read in_kernel 9 ∷ (read in_kernel 1 ∷ (clear ∷ (reset ∷ [])))))))

-- What a run answers.
answers : Option (List Answer)
unfolding run run_op ring_write ring_read write_freely read_len write_parts write_straight
    read_parts read_straight ring_over_loop ring_free_space ring_readable_len ring_clear ring_reset
    arrived write_bytes read_bytes
answers = run calls around >>= λ r. some r.0

a_run :
    answers
    ≡ some (
        wrote false (len 2)
        ∷ (got (len 3) (1 ∷ (2 ∷ (3 ∷ [])))
            ∷ (wrote true (len 5)
                ∷ (wrote false (len 3)
                    ∷ (got (len 6) (4 ∷ (5 ∷ (6 ∷ (7 ∷ (8 ∷ (9 ∷ []))))))
                        ∷ (got (len 0) [] ∷ (done ∷ (done ∷ []))))))))
unfolding answers
a_run = refl

run-Steps_example :
    Returns
      (run calls around)
      (λ (answers', r'). (q' : List ℕ) × Steps 8 calls four answers' q' × Holds r' q')
run-Steps_example =
    run-Steps calls around four
      (
        (λ o n. omega arith),
        (tt, ((λ o n. omega arith), ((λ o n. omega arith), (tt, (tt, (tt, (tt, tt))))))),
      )
      around-Holds

write_timeout-Step_example :
    Returns (ring_write_timeout in_kernel (λ k r. r) 40 true around (5 ∷ [])) (λ (woken, (ret, r')).
      (j : ℕ) × (t : ℕ) × (q' : List ℕ) × Waited (λ k r. r) (40 / 20) 1 around j
      × Holds (after_rounds (λ k r. r) (40 / 20) j around) (drop t four)
      × Step 8 (write in_kernel (5 ∷ [])) (drop t four) (wrote woken ret) q'
      × Holds r' q')
write_timeout-Step_example =
    write_timeout-Step in_kernel (λ k r. r) 40 (5 ∷ []) around four (λ o n. omega arith)
      (λ k r q h. (0, h, refl)) around-Holds

abbrev ahead : Ring
ahead = record around { rp = 1; wp = 5 }

write_ext-past_end_example : ring_write_ext ahead 4 ≡ (some 5, record ahead { wp = 9 })
write_ext-past_end_example = write_ext-past_end ahead (omega arith) (omega arith) (omega arith)

abbrev near : Ring
near = record around { rp = 4; wp = 2 }

write_ext-empties_example :
    (0 < ring_readable_len near)
    × ((ring_write_ext near (ring_free_space near)).0 ≡ some 2)
    × (ring_readable_len (ring_write_ext near (ring_free_space near)).1 ≡ 0)
write_ext-empties_example = write_ext-empties near (omega arith) (omega arith)

abbrev struct_found : Struct
struct_found = record { address = 16; pbuff = some 77; plock = some 99 }

ring_alloc-frees_plock_example :
    ring_alloc 4096 (some struct_found) none (some 3) ≡ inr (99 ∷ (16 ∷ []))
ring_alloc-frees_plock_example =
    ring_alloc-frees_plock 4096 99 struct_found (some 3) (omega arith) refl
