-- ===== src/Defrag/Tests.antt =====
-- Concrete fragments of unisocwifi/defrag.c.
use w132d_linux_mainline.Prelude.{
  ℕ, ◌≡◌, refl, true, false, List, [], ◌∷◌, Option, none, some, arith, replicate, Returns,
}
use w132d_linux_mainline.Seqno.{seqno_leq}
use w132d_linux_mainline.Defrag.{
  FragDesc, Skb, Entry, eth_len, defrag_init, defrag_data_process, zero_node,
}
use w132d_linux_mainline.Defrag.Reassembly.{payloads, Fits}
use w132d_linux_mainline.Defrag.Frames.{AllOlder}
use w132d_linux_mainline.Defrag.Deliver.{
  IsTail, last_one, further, defrag_all, IsWhole, defrag_all-whole,
}
use w132d_linux_mainline.Defrag.Phantom.{defrag_init-phantom}

abbrev first_desc : FragDesc
first_desc = record {
  sta_lut_index = 0;
  tid = 0;
  seq_num = 5;
  frag_num = 0;
  more_frag_bit = true;
  snap_hdr_present = true;
  msdu_offset = 2;
  msdu_len = 16;
}

abbrev first : Skb
first = record { desc = first_desc; data_bytes = replicate 18 1 }

abbrev second : Skb
second = record {
  desc = record first_desc { frag_num = 1; msdu_len = 17 };
  data_bytes = replicate 19 2;
}

abbrev third : Skb
third = record {
  desc = record first_desc { frag_num = 2; more_frag_bit = false; msdu_len = 15 };
  data_bytes = replicate 17 3;
}

abbrev memory : List ℕ
memory = replicate 32 0

abbrev gives_memory : ℕ → Option (List ℕ)
gives_memory n = some memory

abbrev started : Entry
started = record { nodes = zero_node ∷ (zero_node ∷ (zero_node ∷ [])); freed = [] }

abbrev rest : List Skb
rest = second ∷ (third ∷ [])

first-Fits : Fits first
unfolding eth_len
first-Fits = record { header = omega arith; held = omega arith; small = omega arith }

rest-IsTail : IsTail first 1 rest
unfolding eth_len
rest-IsTail =
    further
      (record {
        same_station = refl;
        same_tid = refl;
        same_seq = refl;
        number = refl;
        fits = record { header = omega arith; held = omega arith; small = omega arith };
      })
      refl
      (last_one
        (record {
          same_station = refl;
          same_tid = refl;
          same_seq = refl;
          number = refl;
          fits = record { header = omega arith; held = omega arith; small = omega arith };
        })
        refl)

started-AllOlder : AllOlder first_desc started.nodes
unfolding seqno_leq
started-AllOlder = ((λ h. refl), ((λ h. refl), ((λ h. refl), tt)))

defrag_all-whole_example :
    Returns (defrag_all gives_memory (first ∷ rest) started) (IsWhole first rest)
unfolding payloads eth_len
defrag_all-whole_example =
    defrag_all-whole gives_memory first rest started memory refl refl rest-IsTail first-Fits (cc)
      started-AllOlder (omega arith) refl (omega arith)

abbrev lone : Skb
lone = record {
  desc = record first_desc { seq_num = 0; frag_num = 1; more_frag_bit = false; msdu_len = 40 };
  data_bytes = replicate 42 3;
}

lone-Fits : Fits lone
unfolding eth_len
lone-Fits = record { header = omega arith; held = omega arith; small = omega arith }

defrag_init-phantom_example : defrag_data_process gives_memory lone (defrag_init 3).1 ≡ none
defrag_init-phantom_example =
    defrag_init-phantom gives_memory lone memory lone-Fits refl refl refl refl refl refl
      (omega arith)
