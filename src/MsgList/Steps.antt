-- ===== src/MsgList/Steps.antt =====
-- What the clients of msg.c do, in any order: its calls, and what
-- tx_msg.c does to a pool itself where the bus is SDIO. (On PCIe `sprdwl_dequeue_data_buf` returns a
-- buffer by `sprdwl_free_msg_buf`.)
use w132d_linux_mainline.Prelude.{
  ℕ, ◌+◌, ◌-◌, ◌<◌, ◌≤◌, ◌++◌, ◌≡◌, List, [], ◌∷◌, none, some, count, length,
}
use w132d_linux_mainline.MsgList.{
  MsgList, msg_init, list_del, alloc_msg_buf, free_msg_buf, queue_msg_buf, dequeue_msg_buf,
  get_msgbuf_by_data, close_msg, store_data,
}

-- The list, the buffers that are in the hands of clients, those on the list `to_free_list` of an
-- `xmit_msg_list`, how often the pool was closed, how many messages `sprdwl_handle_tx_return` took off
-- `ref`, and how many buffers `sprdwl_dequeue_data_list` returned to the free list.
pub record Pool : Type 0 where
  pub list : MsgList
  pub held : List ℕ
  pub to_free : List ℕ
  pub closes : ℕ
  pub taken_off : ℕ
  pub returned : ℕ

-- `atomic_sub(send_num, &list->ref)` of `sprdwl_handle_tx_return`
unfoldable pub take_off : ℕ → MsgList → MsgList
take_off n l = record l { ref = l.ref - n }

-- A round of `sprdwl_dequeue_data_list`: the buffer returns to the free list, and `ref` stays.
unfoldable pub return_buf : ℕ → MsgList → MsgList
return_buf b l = record l { freelist = l.freelist ++ (b ∷ []) }

-- A client frees and queues what it holds, and takes out of the queue what is there. What is taken
-- off `ref` are messages that were handed over to be sent, before or after they are returned, and
-- not those that are taken back where the bus fails.
pub data Step : Pool → Pool → Type 0 where
  alloc_some :
      {l l' : MsgList} {h : List ℕ} {f : List ℕ} {c s z : ℕ} (b : ℕ)
      → alloc_msg_buf l ≡ (some b, l')
      → Step
          (record { list = l; held = h; to_free = f; closes = c; taken_off = s; returned = z })
          (record { list = l'; held = b ∷ h; to_free = f; closes = c; taken_off = s; returned = z })
  alloc_none :
      {l l' : MsgList} {h : List ℕ} {f : List ℕ} {c s z : ℕ}
      → alloc_msg_buf l ≡ (none, l')
      → Step
          (record { list = l; held = h; to_free = f; closes = c; taken_off = s; returned = z })
          (record { list = l'; held = h; to_free = f; closes = c; taken_off = s; returned = z })
  free :
      {l : MsgList} {h : List ℕ} {f : List ℕ} {c s z : ℕ} (b : ℕ)
      → 0 < count b h
      → Step
          (record { list = l; held = h; to_free = f; closes = c; taken_off = s; returned = z })
          (record {
            list = free_msg_buf b l;
            held = list_del b h;
            to_free = f;
            closes = c;
            taken_off = s;
            returned = z;
          })
  queue :
      {l : MsgList} {h : List ℕ} {f : List ℕ} {c s z : ℕ} (b : ℕ)
      → 0 < count b h
      → Step
          (record { list = l; held = h; to_free = f; closes = c; taken_off = s; returned = z })
          (record {
            list = queue_msg_buf b l;
            held = list_del b h;
            to_free = f;
            closes = c;
            taken_off = s;
            returned = z;
          })
  dequeue :
      {l : MsgList} {h : List ℕ} {f : List ℕ} {c s z : ℕ} (b : ℕ)
      → 0 < count b l.busylist
      → Step
          (record { list = l; held = h; to_free = f; closes = c; taken_off = s; returned = z })
          (record {
            list = dequeue_msg_buf b l;
            held = h;
            to_free = f;
            closes = c;
            taken_off = s;
            returned = z;
          })
  by_data :
      {l l' : MsgList} {h : List ℕ} {f : List ℕ} {c s z : ℕ} (v b : ℕ)
      → get_msgbuf_by_data v l ≡ (some b, l')
      → Step
          (record { list = l; held = h; to_free = f; closes = c; taken_off = s; returned = z })
          (record { list = l'; held = b ∷ h; to_free = f; closes = c; taken_off = s; returned = z })
  store :
      {l : MsgList} {h : List ℕ} {f : List ℕ} {c s z : ℕ} (b v : ℕ)
      → 0 < count b h
      → Step
          (record { list = l; held = h; to_free = f; closes = c; taken_off = s; returned = z })
          (record {
            list = store_data b v l;
            held = h;
            to_free = f;
            closes = c;
            taken_off = s;
            returned = z;
          })
  close :
      {l : MsgList} {h : List ℕ} {f : List ℕ} {c s z : ℕ}
      → Step
          (record { list = l; held = h; to_free = f; closes = c; taken_off = s; returned = z })
          (record {
            list = close_msg l;
            held = h;
            to_free = f;
            closes = c + 1;
            taken_off = s;
            returned = z;
          })
  handed_over :
      {l : MsgList} {h f : List ℕ} {c s z : ℕ} (b : ℕ)
      → 0 < count b h
      → Step
          (record { list = l; held = h; to_free = f; closes = c; taken_off = s; returned = z })
          (record {
            list = l;
            held = list_del b h;
            to_free = b ∷ f;
            closes = c;
            taken_off = s;
            returned = z;
          })
  taken_back :
      {l : MsgList} {h f : List ℕ} {c s z : ℕ} (b : ℕ)
      → 0 < count b f
      → s < z + length f
      → Step
          (record { list = l; held = h; to_free = f; closes = c; taken_off = s; returned = z })
          (record {
            list = l;
            held = b ∷ h;
            to_free = list_del b f;
            closes = c;
            taken_off = s;
            returned = z;
          })
  sent :
      {l : MsgList} {h : List ℕ} {f : List ℕ} {c s z : ℕ} (n : ℕ)
      → s + n ≤ z + length f
      → Step
          (record { list = l; held = h; to_free = f; closes = c; taken_off = s; returned = z })
          (record {
            list = take_off n l;
            held = h;
            to_free = f;
            closes = c;
            taken_off = s + n;
            returned = z;
          })
  gave_back :
      {l : MsgList} {h : List ℕ} {f : List ℕ} {c s z : ℕ} (b : ℕ)
      → 0 < count b f
      → Step
          (record { list = l; held = h; to_free = f; closes = c; taken_off = s; returned = z })
          (record {
            list = return_buf b l;
            held = h;
            to_free = list_del b f;
            closes = c;
            taken_off = s;
            returned = z + 1;
          })

pub data Reachable (num : ℕ) : Pool → Type 0 where
  start :
      {l : MsgList} (got : ℕ)
      → msg_init got num ≡ some l
      → Reachable num
          (record { list = l; held = []; to_free = []; closes = 0; taken_off = 0; returned = 0 })
  after : {p p' : Pool} → Reachable num p → Step p p' → Reachable num p'
