-- ===== src/MsgList/Owned.antt =====
-- Every buffer of msg.c is in one place, and what `ref` counts.
use w132d_linux_mainline.Prelude.{
  ℕ, ◌+◌, ◌*◌, ◌≤◌, ◌<◌, ◌≡◌, List, [], ◌∷◌, Option, none, some, length, count,
}
use w132d_linux_mainline.MsgList.{MsgList, msg_exit_val, buffers, list_del}
use w132d_linux_mainline.MsgList.Steps.{Pool}

-- Each buffer of the pool stands exactly once among the free ones, the queued ones and those that
-- clients hold or have handed over; `ref`, with what was taken off it, counts all but the free ones,
-- and those that were returned without it.
pub record IsOwned (num : ℕ) (p : Pool) : Type 0 where
  pub once :
      (a : ℕ)
      → count a p.list.freelist + count a p.list.busylist + count a p.held + count a p.to_free
        ≡ count a (buffers 0 num)
  pub refs :
      p.list.ref + p.taken_off
      ≡ length p.list.busylist
        + length p.held
        + length p.to_free
        + p.returned
        + p.closes * msg_exit_val
  pub handed : p.taken_off ≤ p.returned + length p.to_free

-- What comes out of the pool stood at the head of the free list.
abbrev Taken : MsgList → Option ℕ × MsgList → Type 0
Taken l (none, l') = l' ≡ l
Taken l (some b, l') =
    (bs : List ℕ) × (l.freelist ≡ b ∷ bs) × (l' ≡ record l { freelist = bs; ref = l.ref + 1 })

abbrev Got : MsgList → Option ℕ × MsgList → Type 0
Got l (none, l') = l' ≡ l
Got l (some b, l') = (0 < count b l.busylist) × (l' ≡ record l { busylist = list_del b l.busylist })

abbrev OwnedIf : ℕ → Option MsgList → Type 0
OwnedIf num none = Unit
OwnedIf num (some l) =
    IsOwned num
      (record { list = l; held = []; to_free = []; closes = 0; taken_off = 0; returned = 0 })
