-- ===== src/MsgList.antt =====
-- unisocwifi/msg.c: the pool of message buffers, and the queue of those that are in use.
pub mod Steps
pub mod Counts
pub mod Owned
mod Tests
use w132d_linux_mainline.Prelude.{
  ℕ, zero, suc, ◌+◌, ◌-◌, ◌^◌, Bool, true, false, List, [], ◌∷◌, ◌++◌, Option, none, some, ltb, leb,
  ◌==◌, if◌then◌else◌,
}

-- `struct sprdwl_msg_list`; a buffer is a number, and `tran_data` its field of that name.
pub record MsgList : Type 0 where
  pub freelist : List ℕ
  pub busylist : List ℕ
  pub tran_data : ℕ → ℕ
  pub maxnum : ℕ
  pub ref : ℕ

-- `SPRDWL_MSG_EXIT_VAL`
abbrev pub msg_exit_val : ℕ
msg_exit_val = 2 ^ 15

-- The buffers `i`, `i + 1` and so on, as the loop of sprdwl_msg_init puts them into the list.
unfoldable pub buffers : ℕ → ℕ → List ℕ
buffers i zero = []
buffers i (suc n) = i ∷ buffers (suc i) n

-- `sprdwl_msg_init`, where `got` calls of kzalloc succeed before one fails, if one does; on -ENOMEM,
-- the result `none`, all that was made is freed.
unfoldable pub msg_init : ℕ → ℕ → Option MsgList
msg_init got num =
    if ltb got num
    then none
    else some (record {
      freelist = buffers 0 num;
      busylist = [];
      tran_data = λ b. 0;
      maxnum = num;
      ref = 0;
    })

-- `list_del`
unfoldable pub list_del : ℕ → List ℕ → List ℕ
list_del b [] = []
list_del b (x ∷ xs) = if x == b then xs else x ∷ list_del b xs

abbrev pub first_entry : List ℕ → Option ℕ
first_entry [] = none
first_entry (x ∷ xs) = some x

unfoldable pub last_entry : List ℕ → Option ℕ
last_entry [] = none
last_entry (x ∷ xs) = let rest = last_entry xs in elim rest [ none ↦ some x | some y ↦ some y ]

abbrev pub take_first : MsgList → List ℕ → Option ℕ × MsgList
take_first l [] = (none, l)
take_first l (b ∷ bs) = (some b, record l { freelist = bs; ref = l.ref + 1 })

-- `sprdwl_alloc_msg_buf`: `ref` is counted up and, where nothing comes out, down again.
unfoldable pub alloc_msg_buf : MsgList → Option ℕ × MsgList
alloc_msg_buf l = if leb msg_exit_val (l.ref + 1) then (none, l) else take_first l l.freelist

unfoldable pub free_msg_buf : ℕ → MsgList → MsgList
free_msg_buf b l = record l { freelist = l.freelist ++ (b ∷ []); ref = l.ref - 1 }

unfoldable pub queue_msg_buf : ℕ → MsgList → MsgList
queue_msg_buf b l = record l { busylist = l.busylist ++ (b ∷ []) }

unfoldable pub peek_msg_buf : MsgList → Option ℕ
peek_msg_buf l = first_entry l.busylist

unfoldable pub dequeue_msg_buf : ℕ → MsgList → MsgList
dequeue_msg_buf b l = free_msg_buf b (record l { busylist = list_del b l.busylist })

-- The first buffer with the data.
unfoldable pub with_data : (ℕ → ℕ) → ℕ → List ℕ → Option ℕ
with_data tran_data v [] = none
with_data tran_data v (b ∷ bs) =
    let rest = with_data tran_data v bs in if v == tran_data b then some b else rest

-- `sprdwl_get_msgbuf_by_data`
unfoldable pub get_msgbuf_by_data : ℕ → MsgList → Option ℕ × MsgList
get_msgbuf_by_data v l = elim (with_data l.tran_data v l.busylist) [
  | none ↦ (none, l)
  | some b ↦ (some b, record l { busylist = list_del b l.busylist })
]

unfoldable pub get_tail_msg_buf : MsgList → Option ℕ
get_tail_msg_buf l = last_entry l.busylist

-- `sprdwl_msg_deinit` up to its wait, which ends after three seconds or when no buffer is out.
unfoldable pub close_msg : MsgList → MsgList
close_msg l = record l { ref = l.ref + msg_exit_val }

-- `sprdwl_msg_deinit` behind its wait: the buffers that are given to kfree.
unfoldable pub deinit_freed : MsgList → List ℕ
deinit_freed l = l.freelist

-- A client stores the data of a buffer.
unfoldable pub store_data : ℕ → ℕ → MsgList → MsgList
store_data b v l = record l { tran_data = λ c. if c == b then v else l.tran_data c }
