-- ===== src/LogRing/Alloc.antt =====
-- `mdbg_ring_alloc` and `mdbg_ring_destroy` of bufring.c: which memory is given back.
use w132d_linux_mainline.Prelude.{
  ℕ, ◌*◌, ◌≤◌, ◌≡◌, refl, ◌∙◌, ap, false, List, [], ◌∷◌, ◌++◌, Option, none, some, inl, inr, ◌⊎◌,
  arith, ltb, if◌then◌else◌, length-replicate, replicate, if_false,
}
use w132d_linux_mainline.LogRing.{Ring}
use w132d_linux_mainline.LogRing.Storage.{Holds, flat}

abbrev pub min_size : ℕ
min_size = 1024 * 4

-- The struct in the memory of `kmalloc`, with its two pointers to memory; a pointer is an address.
pub record Struct : Type 0 where
  pub address : ℕ
  pub pbuff : Option ℕ
  pub plock : Option ℕ

unfoldable pub kfree : Option ℕ → List ℕ
kfree none = []
kfree (some p) = p ∷ []

-- `mdbg_ring_destroy`: the addresses that are given to `kfree`, in order.
unfoldable pub ring_destroy : Option Struct → List ℕ
ring_destroy none = []
ring_destroy (some s) = kfree s.pbuff ++ kfree s.plock ++ (s.address ∷ [])

unfoldable pub new_ring : ℕ → Ring
new_ring size = record {
  size = size;
  pbuff = replicate size 0;
  rp = 0;
  wp = 0;
  p_order_flag = false;
}

-- `mdbg_ring_alloc`, where the three calls of `kmalloc` give `struct_at`, with what its memory held
-- before, `buff_at` and `lock_at`: the ring, or the addresses that are freed when it fails.
unfoldable pub ring_alloc : ℕ → Option Struct → Option ℕ → Option ℕ → Ring ⊎ List ℕ
ring_alloc size struct_at buff_at lock_at =
    if ltb size min_size then inr (ring_destroy none) else elim struct_at [
      | none ↦ inr (ring_destroy none)
      | some s ↦ elim buff_at [
        | none ↦ inr (ring_destroy (some (record s { pbuff = none })))
        | some b ↦ elim lock_at [
          | none ↦ inr (ring_destroy (some (record s { pbuff = some b; plock = none })))
          | some l ↦ inl (new_ring size)
        ]
      ]
    ]

-- A ring that is made holds no bytes, and one is made when the size is at least 4096 and the kernel
-- has memory.
pub ring_alloc-Holds :
    (size b l : ℕ) (s : Struct)
    → min_size ≤ size
    → (r : Ring) × (ring_alloc size (some s) (some b) (some l) ≡ inl r)
      × Holds r []
      × (r.size ≡ size)
unfolding ring_alloc new_ring
ring_alloc-Holds size b l s big =
    let n = length-replicate {A = ℕ} size 0 in
    let big_enough : ltb size min_size ≡ false = ground (arith, big) in
    (
      new_ring size,
      if_false _ _ big_enough,
      flat [] (replicate size 0) (omega (arith, n)) refl refl refl (omega (arith, n, big)),
      refl,
    )

-- When there is no memory for the buffer, what the memory of the struct held before in the place
-- of `plock` is given to `kfree`, if it is not 0.
pub ring_alloc-frees_plock :
    (size p : ℕ) (s : Struct) (lock_at : Option ℕ)
    → min_size ≤ size
    → s.plock ≡ some p
    → ring_alloc size (some s) none lock_at ≡ inr (p ∷ (s.address ∷ []))
unfolding ring_alloc ring_destroy kfree
ring_alloc-frees_plock size p s lock_at big garbage =
    let big_enough : ltb size min_size ≡ false = ground (arith, big) in
    if_false _ _ big_enough ∙ ap (λ g. inr (kfree g ++ (s.address ∷ []))) garbage
