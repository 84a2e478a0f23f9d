-- ===== src/Reorder/Replay.antt =====
-- The replay detection: a session accepts packet numbers in increasing order only.
use Prim.Native.Nat.{max}
use w132d_linux_mainline.Prelude.{ℕ, ◌+◌, ◌*◌, ◌^◌, ◌<◌, ◌≡◌, ◌≢◌, ◌↔◌, true, false, arith}
use w132d_linux_mainline.Reorder.Types.{PktDesc, NodeDesc}
use w132d_linux_mainline.Reorder.Buffer.{has_pn, replay_detection}

-- The packet number of 48 bits that the two halves make.
abbrev pub packet_number : ℕ → ℕ → ℕ
packet_number pn_h pn_l = pn_h * 2 ^ 32 + pn_l

-- With a cipher that has packet numbers and no reset pending, a packet passes exactly if its number
-- is larger than the last one that passed, and the session then holds the larger of the two. So no
-- number passes twice.
pub replay_detection_lem :
    (p : PktDesc) (d : NodeDesc)
    → has_pn p.cipher_type ≡ true
    → d.reset_pn ≢ 1
    → p.pn_l < 2 ^ 32
    → d.pn_l < 2 ^ 32
    → (((replay_detection p d).0 ≡ true)
        ↔ (packet_number d.pn_h d.pn_l < packet_number p.pn_h p.pn_l))
      × (packet_number (replay_detection p d).1.pn_h (replay_detection p d).1.pn_l
          ≡ max (packet_number d.pn_h d.pn_l) (packet_number p.pn_h p.pn_l))
unfolding replay_detection
replay_detection_lem p d c r hp hd = ((λ h. ground arith, λ h. ground arith), ground arith)

-- After a reset of the packet number (a new key), a packet with a smaller number is still refused
-- if its low half is the larger one: the halves are compared one by one.
pub reset_pn_refused :
    (p : PktDesc) (d : NodeDesc)
    → has_pn p.cipher_type ≡ true
    → d.reset_pn ≡ 1
    → p.pn_h < d.pn_h
    → d.pn_l < p.pn_l
    → ((replay_detection p d).0 ≡ false) × ((replay_detection p d).1 ≡ d)
unfolding replay_detection
reset_pn_refused p d c r h l = ground arith
