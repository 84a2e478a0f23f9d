-- ===== src/Reorder/Recover.antt =====
-- The timeout after a loss: the search for the first complete packet ends, and the window moves.
use w132d_linux_mainline.Prelude.{
  ℕ, zero, suc, ◌+◌, ◌%◌, ◌^◌, ◌<◌, ◌≤◌, ◌≡◌, ◌⊎◌, inl, inr, refl, subst, Option, none, some, Bool,
  true, false, ◌&&◌, not, List, [], ◌∷◌, arith, Returns, Returns-bind, Returns_mono, Bool-cases,
  ◌==◌, if◌then◌else◌, ltb, ◌++◌,
}
use w132d_linux_mainline.Seqno.{seqno_mod, seqno_add, seqno_sub, seqno_leq}
use w132d_linux_mainline.Reorder.Types.{Pkt, NodeDesc, Output, Node}
use w132d_linux_mainline.Reorder.Buffer.{slot}
use w132d_linux_mainline.Reorder.Process.{mod_reorder_timer, timer_pending}
use w132d_linux_mainline.Reorder.Account.{Fits, slot_total}
use w132d_linux_mainline.Reorder.Window.{Framed, Done, move_window-Done}
use w132d_linux_mainline.Reorder.Table.{Table, send_delba, find_peer, Peer, delba, max_timeout_cnt}
use w132d_linux_mainline.Reorder.Lookup.{Has, IsLinked}
use w132d_linux_mainline.Reorder.Events.{store-IsLinked, output-IsLinked}
use w132d_linux_mainline.Reorder.Timeout.{
  first_seqno_from, get_first_seqno_in_buff, count_timeout, expire, queue_rx_work,
  ba_reorder_timeout,
}

-- The packet of a sequence number has not all its MSDUs, or is missing.
abbrev pub Incomplete : NodeDesc → ℕ → Type 0
Incomplete d s = (p : Pkt) × (slot d s ≡ some p) × (p.desc.last ≡ false)

abbrev pub Complete : NodeDesc → ℕ → Type 0
Complete d s = (p : Pkt) × (slot d s ≡ some p) × (p.desc.last ≡ true)

-- `s` is the first number from `start` on that is complete or past the tail.
pub record FirstFrom (d : NodeDesc) (start s : ℕ) : Type 0 where
  pub steps : ℕ
  pub reached : s ≡ seqno_add start steps
  pub passed : (j : ℕ) → j < steps → Incomplete d (seqno_add start j)
  pub stops : (seqno_leq s d.win_tail ≡ false) ⊎ Complete d s

FirstFrom-here :
    (d : NodeDesc) (s : ℕ)
    → s < seqno_mod
    → (seqno_leq s d.win_tail ≡ false) ⊎ Complete d s
    → FirstFrom d s s
FirstFrom-here d s h e = record {
  steps = 0;
  reached = omega arith;
  passed = λ j lt. absurd (omega arith);
  stops = e;
}

FirstFrom-next :
    (d : NodeDesc) (start s : ℕ)
    → start < seqno_mod
    → Incomplete d start
    → FirstFrom d (seqno_add start 1) s
    → FirstFrom d start s
FirstFrom-next d start s h i f = record {
  steps = suc f.steps;
  reached = omega (arith, f.reached);
  passed = skipped;
  stops = f.stops;
}
  where
    skipped : (j : ℕ) → j < suc f.steps → Incomplete d (seqno_add start j)
    skipped zero lt = subst (Incomplete d) (omega arith) i
    skipped (suc j) lt = subst (Incomplete d) (omega arith) (f.passed j (omega arith))

-- How many rounds are left: one more than the distance to the tail, and one to see that it is passed.
fuel_left :
    (a t fuel : ℕ)
    → a < seqno_mod
    → t < seqno_mod
    → seqno_leq a t ≡ true
    → seqno_sub t a + 2 ≤ suc fuel
    → (1 ≤ fuel) × (seqno_leq (seqno_add a 1) t ≡ true → seqno_sub t (seqno_add a 1) + 2 ≤ fuel)
unfolding seqno_leq
fuel_left a t fuel ha ht h f = (omega arith, λ g. ground arith)

leq_bound : (a t : ℕ) → a < seqno_mod → t < seqno_mod → seqno_leq a t ≡ true → seqno_sub t a ≤ 2048
unfolding seqno_leq
leq_bound a t ha ht h = ground arith

first_seqno_from-FirstFrom :
    (fuel : ℕ) (d : NodeDesc) (s : ℕ)
    → Fits d
    → s < seqno_mod
    → d.win_tail < seqno_mod
    → 1 ≤ fuel
    → (seqno_leq s d.win_tail ≡ true → seqno_sub d.win_tail s + 2 ≤ fuel)
    → Returns (first_seqno_from fuel d s) (FirstFrom d s)
unfolding first_seqno_from
first_seqno_from-FirstFrom zero d s f h ht p m = absurd (omega arith)
first_seqno_from-FirstFrom (suc fuel) d s f h ht p m = elim (Bool-cases (seqno_leq s d.win_tail)) [
  | inr e ↦ rw (e, first_seqno_from) (_, refl, FirstFrom-here d s h (inl e))
  | inl e ↦
      rw (e, first_seqno_from)
        (Returns-bind _ (λ p. slot d s ≡ some p) _ (let (p, at) = slot_total d s f in (p, at, at))
          (λ p at. elim (Bool-cases p.desc.last) [
            | inl l ↦ rw l (_, refl, FirstFrom-here d s h (inr (p, at, l)))
            | inr l ↦ rw l (
                let (g, g') = fuel_left s d.win_tail fuel h ht e (m e) in
                Returns_mono
                  (first_seqno_from-FirstFrom fuel d (seqno_add s 1) f (omega arith) ht g g')
                  (λ r o. FirstFrom-next d s r h (p, at, l) o))
          ]))
]

-- The search for the first complete packet ends, stays inside the buffer, and skips none: every
-- number before its result has no complete packet, and the result has one or is past the tail.
pub get_first_seqno_in_buff-FirstFrom :
    (d : NodeDesc) → Framed d → Returns (get_first_seqno_in_buff d) (FirstFrom d d.win_start)
unfolding get_first_seqno_in_buff
get_first_seqno_in_buff-FirstFrom d w =
    first_seqno_from-FirstFrom 2050 d d.win_start w.fits w.start_lt w.tail_lt (omega arith)
      (λ e. omega (arith, leq_bound d.win_start d.win_tail w.start_lt w.tail_lt e))

-- What the locked part of the callback keeps.
pub record Expired (q : Output) (n : Node) (out : Output × Node × Bool) : Type 0 where
  pub buffer : Done [] q n.rx_ba out.0 out.1.rx_ba
  pub same_station : out.1.sta_lut_index ≡ n.sta_lut_index
  pub same_tid : out.1.tid ≡ n.tid
  pub given_up : out.2 ≡ true → out.1.active ≡ false

count_timeout-mod :
    (hz jiffies : ℕ) (q q' : Output) (n : Node) (d' : NodeDesc)
    → Done [] q n.rx_ba q' d'
    → Expired q n (
        let (give_up, n') = count_timeout (record n { rx_ba = d' }) in
        (q', mod_reorder_timer hz jiffies n', give_up))
unfolding count_timeout mod_reorder_timer
count_timeout-mod hz jiffies q q' n d' o =
    elim (Bool-cases (ltb max_timeout_cnt ((n.timeout_cnt + 1) % 2 ^ 8))) [
      | inl e ↦ rw e (
          armed true (record n { active = false; timeout_cnt = 0; rx_ba = d' }) o refl refl
            (λ h. refl))
      | inr e ↦ rw e (
          armed false (record n { timeout_cnt = (n.timeout_cnt + 1) % 2 ^ 8; rx_ba = d' }) o refl
            refl (λ h. cc))
    ]
  where
    armed :
        (b : Bool) (m : Node)
        → Done [] q n.rx_ba q' m.rx_ba
        → m.sta_lut_index ≡ n.sta_lut_index
        → m.tid ≡ n.tid
        → (b ≡ true → m.active ≡ false)
        → Expired q n (q', mod_reorder_timer hz jiffies m, b)
    armed b m o s t a = elim (Bool-cases (m.rx_ba.buff_cnt == 0)) [
      | inl e ↦ rw e (record { buffer = o; same_station = s; same_tid = t; given_up = a })
      | inr e ↦ rw e (record { buffer = o; same_station = s; same_tid = t; given_up = a })
    ]

-- The timeout of a session: it ends, follows no bad pointer, loses and doubles no skb, keeps the
-- size of the window, and makes the session inactive when it gives it up.
pub expire-Expired :
    (hz jiffies : ℕ) (q : Output) (n : Node)
    → Framed n.rx_ba
    → Returns (expire hz jiffies q n) (Expired q n)
unfolding expire
expire-Expired hz jiffies q n w =
    elim (Bool-cases (n.active && not (n.rx_ba.buff_cnt == 0) && not (timer_pending n))) [
      | inr e ↦ rw e (
        _,
        refl,
        record {
          buffer = record {
            skbs = record { same_skbs = λ a. omega arith; same_size = refl; same_mask = refl };
            framed = w;
            size = refl;
          };
          same_station = refl;
          same_tid = refl;
          given_up = λ h. cc;
        },
      )
      | inl e ↦ rw e (
          Returns-bind _ _ _ (get_first_seqno_in_buff-FirstFrom n.rx_ba w) (λ s f.
            Returns-bind _ _ _ (move_window-Done q n.rx_ba s w.fits w.tail_lt)
              (λ (q', d') o. (_, refl, count_timeout-mod hz jiffies q q' n d' o))))
    ]

queued-IsLinked :
    (t : Table) (xs : List ℕ)
    → IsLinked t
    → IsLinked (elim xs [ [] ↦ t | s ∷ r ↦ record t { rx_work = true } ])
queued-IsLinked t [] l = l
queued-IsLinked t (s ∷ r) l = record {
  linked = l.linked;
  distinct = l.distinct;
  single = l.single;
  current = l.current;
}

told-IsLinked :
    (t : Table) (tid : ℕ) (x : Option Peer)
    → IsLinked t
    → IsLinked
        (elim x [ none ↦ t | some y ↦ record t { cmds = t.cmds ++ delba tid y.da y.ctx_id ∷ [] } ])
told-IsLinked t tid none l = l
told-IsLinked t tid (some y) l = record {
  linked = l.linked;
  distinct = l.distinct;
  single = l.single;
  current = l.current;
}

finish-IsLinked :
    (t : Table) (b : Bool) (lut tid : ℕ)
    → IsLinked t
    → IsLinked (queue_rx_work (if b then send_delba t tid lut else t))
unfolding queue_rx_work send_delba
finish-IsLinked t true lut tid l =
    queued-IsLinked _ _ (told-IsLinked t tid (find_peer t.peers lut) l)
finish-IsLinked t false lut tid l = queued-IsLinked t _ l

-- The callback of the timer of a node in the table: it ends, follows no null or freed pointer,
-- stays inside the buffer, and the table stays linked.
pub ba_reorder_timeout-IsLinked :
    (hz jiffies : ℕ) (t : Table) (tid p : ℕ)
    → IsLinked t
    → Has p (t.hlist tid)
    → Returns (ba_reorder_timeout hz jiffies t p) IsLinked
unfolding ba_reorder_timeout
ba_reorder_timeout-IsLinked hz jiffies t tid p l h =
    let (n, e, s) = l.linked tid p h in
    Returns-bind _ (λ n. (t.heap p ≡ some n) × Framed n.rx_ba) _ (n, e, (e, s.1))
      (λ n en.
        Returns-bind _ _ _ (expire-Expired hz jiffies t.output n en.1) (λ (q', n', give_up) o. (
          _,
          refl,
          finish-IsLinked _ give_up n.sta_lut_index n.tid (
              output-IsLinked _ q'
                (store-IsLinked t p n n' l en.0 o.same_tid o.same_station o.buffer.framed)),
        )))
