-- ===== src/MsgList/Tests.antt =====
-- A pool of three buffers.
use w132d_linux_mainline.Prelude.{[], ◌∷◌}
use w132d_linux_mainline.MsgList.{MsgList}

abbrev three : MsgList
three = record {
  freelist = 0 ∷ (1 ∷ (2 ∷ []));
  busylist = [];
  tran_data = λ b. 0;
  maxnum = 3;
  ref = 0;
}

abbrev one_out : MsgList
one_out = record three { freelist = 1 ∷ (2 ∷ []); ref = 1 }

abbrev queued : MsgList
queued = record one_out { busylist = 0 ∷ [] }

abbrev back : MsgList
back = record three { freelist = 1 ∷ (2 ∷ (0 ∷ [])) }

abbrev closing : MsgList
closing = record back { ref = 32768 }
