-- ===== src/Qos/Admission.antt =====
-- The admission control of qos.c: an access category is available exactly while time is left to it.
use w132d_linux_mainline.Prelude.{
  ℕ, zero, suc, ◌*◌, ◌≡◌, refl, ◌∙◌, sym, ap, Bool, true, false, ◌&&◌, ◌||◌, List, [], ◌∷◌, none,
  some, arith, ltb, if_cases, bind_some, bind_none, Option-cases, inl, inr, get_elem?, set,
  replicate, length, subst, get_elem?_total, length-set,
}
use w132d_linux_mainline.Qos.{
  Ac, Wmm, reset_ac, wmm_ac_init, reset_wmmac_parameters, update_wmmac_ts_info,
  remove_wmmac_ts_info, reset_ts_from, reset_wmmac_ts_info, admit, update_admitted_time, restart,
  update_wmmac_edcaftime_timeout,
}
use w132d_linux_mainline.Qos.Mapping.{QosMapSet, Changed, change_priority_if}
use w132d_linux_mainline.Qos.Choice.{
  HasTime, AllHaveTime, time_of, set-AllHaveTime, change_priority_if-Decided,
}

admit-HasTime :
    (medium_time : ℕ) (increase : Bool) (a : Ac) → HasTime (admit medium_time increase a)
unfolding admit
admit-HasTime medium_time true a = refl
admit-HasTime medium_time false a = refl

restart-HasTime : (a : Ac) → HasTime a → HasTime (restart a)
restart-HasTime a h =
    if_cases HasTime (ltb 0 a.admitted) (record a { used = 0; available = true }) a (λ e. sym e)
      (λ e. h)

-- The parameters of the network say which categories need admission.
abbrev pub Requires : List Ac → List Ac → Type 0
Requires [] [] = Unit
Requires [] (b ∷ bs) = ⊥
Requires (a ∷ acs) [] = ⊥
Requires (a ∷ acs) (b ∷ bs) =
    (b.available ≡ a.available) × (b.admitted ≡ a.admitted) × (b.used ≡ a.used) × Requires acs bs

-- Four categories, each available exactly while it has time left.
pub record IsAdmission (w : Wmm) : Type 0 where
  pub four : length w.acs ≡ 4
  pub times : AllHaveTime w.acs

-- What is done to the admission control, from the start on.
pub data Admitted : Wmm → Type 0 where
  initial : (w : Wmm) → Admitted (wmm_ac_init w)
  reset : {w : Wmm} → Admitted w → Admitted (reset_wmmac_parameters w)
  required :
      {w : Wmm} (acs : List Ac)
      → Admitted w
      → Requires w.acs acs
      → Admitted (record w { acs = acs })
  stream :
      {w : Wmm} (tsid up ac : ℕ) (status : Bool) (admitted_time : ℕ)
      → Admitted w
      → Admitted (update_wmmac_ts_info tsid up ac status admitted_time w)
  removed : {w : Wmm} (tsid : ℕ) → Admitted w → Admitted (remove_wmmac_ts_info tsid w)
  all_removed : {w : Wmm} → Admitted w → Admitted (reset_wmmac_ts_info w)
  admitted :
      {w w' : Wmm} (tsid medium_time : ℕ) (increase : Bool)
      → Admitted w
      → update_admitted_time tsid medium_time increase w ≡ some w'
      → Admitted w'
  second : {w w' : Wmm} → Admitted w → update_wmmac_edcaftime_timeout w ≡ some w' → Admitted w'
  sent :
      {w : Wmm} (m : QosMapSet) (ratio tid tos len : ℕ) (r : Changed)
      → Admitted w
      → change_priority_if true m ratio tid tos len w.acs ≡ some r
      → Admitted (record w { acs = r.acs })

requires_lem :
    (acs bs : List Ac)
    → Requires acs bs
    → AllHaveTime acs
    → (length bs ≡ length acs) × AllHaveTime bs
requires_lem [] [] r h = (refl, tt)
requires_lem [] (b ∷ bs) r h = elim r [ ]
requires_lem (a ∷ acs) [] r h = elim r [ ]
requires_lem (a ∷ acs) (b ∷ bs) (e, f, g, r) (h, hs) =
    let (l, rest) = requires_lem acs bs r hs in
    let lf : ltb a.used b.admitted ≡ ltb a.used a.admitted = ap (λ n. ltb a.used n) f in
    let lg : ltb b.used b.admitted ≡ ltb a.used b.admitted = ap (λ n. ltb n b.admitted) g in
    (ap suc l, (e ∙ h ∙ sym (lg ∙ lf), rest))

update_lem :
    (tsid n : ℕ) (increase : Bool) (w w' : Wmm)
    → IsAdmission w
    → update_admitted_time tsid n increase w ≡ some w'
    → IsAdmission w'
unfolding update_admitted_time
update_lem tsid n increase w w' h e = elim (Option-cases (get_elem? w.ts_info tsid)) [
  | inl out ↦ let clash : none ≡ some w' = sym (bind_none _ out) ∙ e in absurd (cc)
  | inr (t, here) ↦ elim (Option-cases (get_elem? w.acs t.ac)) [
    | inl out ↦
        let clash : none ≡ some w' = sym (bind_some _ here ∙ bind_none _ out) ∙ e in absurd (cc)
    | inr (a, ac) ↦
        let made : Wmm = record w {
          acs = set w.acs t.ac (admit n increase a);
          timer = increase || (w.timer && ltb (n * 32) a.admitted);
        } in
        let path : some w' ≡ some made = sym e ∙ bind_some _ here ∙ bind_some _ ac in
        let is_made : made ≡ w' = cc in
        subst IsAdmission is_made (record {
          four = length-set w.acs t.ac (admit n increase a) ∙ h.four;
          times =
              set-AllHaveTime w.acs t.ac (admit n increase a) h.times (admit-HasTime n increase a);
        })
  ]
]

second_lem :
    (w w' : Wmm) → IsAdmission w → update_wmmac_edcaftime_timeout w ≡ some w' → IsAdmission w'
unfolding update_wmmac_edcaftime_timeout
second_lem w w' h e =
    let four = h.four in
    let (vo, vo_here) = get_elem?_total w.acs 3 (omega (arith, four)) in
    let (vi, vi_here) = get_elem?_total w.acs 2 (omega (arith, four)) in
    let made : Wmm = record w {
      acs = set (set w.acs 3 (restart vo)) 2 (restart vi);
      timer = true;
    } in
    let path : some w' ≡ some made = sym e ∙ bind_some _ vo_here ∙ bind_some _ vi_here in
    let is_made : made ≡ w' = cc in
    subst IsAdmission is_made (record {
      four =
          length-set (set w.acs 3 (restart vo)) 2 (restart vi)
          ∙ length-set w.acs 3 (restart vo)
          ∙ four;
      times =
          set-AllHaveTime (set w.acs 3 (restart vo)) 2 (restart vi)
            (set-AllHaveTime w.acs 3 (restart vo) h.times
              (restart-HasTime vo (time_of w.acs 3 vo h.times vo_here)))
            (restart-HasTime vi (time_of w.acs 2 vi h.times vi_here));
    })

sent_lem :
    (m : QosMapSet) (ratio tid tos len : ℕ) (r : Changed) (w : Wmm)
    → IsAdmission w
    → change_priority_if true m ratio tid tos len w.acs ≡ some r
    → IsAdmission (record w { acs = r.acs })
sent_lem m ratio tid tos len r w h e =
    let (r', path, d) = change_priority_if-Decided m ratio tid tos len w.acs h.four h.times in
    let both : some r' ≡ some r = sym path ∙ e in
    let same : r' ≡ r = cc in
    subst (λ (r : Changed). IsAdmission (record w { acs = r.acs })) same
      (record { four = d.four ∙ h.four; times = d.times })

none_reset : AllHaveTime (replicate 4 reset_ac)
none_reset = (refl, (refl, (refl, (refl, tt))))

reset_IsAdmission : (w : Wmm) → IsAdmission (reset_wmmac_parameters w)
unfolding reset_wmmac_parameters
reset_IsAdmission w = record { four = refl; times = none_reset }

reset_ts_lem : (n tsid : ℕ) (w : Wmm) → IsAdmission w → IsAdmission (reset_ts_from n tsid w)
unfolding reset_ts_from remove_wmmac_ts_info
reset_ts_lem zero tsid w h = h
reset_ts_lem (suc n) tsid w h =
    reset_ts_lem n (suc tsid) (remove_wmmac_ts_info tsid w)
      (record { four = h.four; times = h.times })

-- Whatever was done since the start - streams that come and go, the timer of each second, frames that
-- are sent, a reset - there are four categories, and each is available exactly while it has used
-- less time than was admitted.
pub Admitted-IsAdmission : {w : Wmm} → Admitted w → IsAdmission w
unfolding wmm_ac_init update_wmmac_ts_info remove_wmmac_ts_info reset_wmmac_ts_info
Admitted-IsAdmission (initial w) = record { four = refl; times = none_reset }
Admitted-IsAdmission (reset {w = w} a) = reset_IsAdmission w
Admitted-IsAdmission (required {w = w} acs a r) =
    let h = Admitted-IsAdmission a in
    let (l, t) = requires_lem w.acs acs r h.times in record { four = l ∙ h.four; times = t }
Admitted-IsAdmission (stream tsid up ac status admitted_time a) =
    let h = Admitted-IsAdmission a in record { four = h.four; times = h.times }
Admitted-IsAdmission (removed tsid a) =
    let h = Admitted-IsAdmission a in record { four = h.four; times = h.times }
Admitted-IsAdmission (all_removed {w = w} a) = reset_ts_lem 16 0 w (Admitted-IsAdmission a)
Admitted-IsAdmission (admitted {w = w} {w' = w'} tsid n increase a e) =
    update_lem tsid n increase w w' (Admitted-IsAdmission a) e
Admitted-IsAdmission (second {w = w} {w' = w'} a e) = second_lem w w' (Admitted-IsAdmission a) e
Admitted-IsAdmission (sent {w = w} m ratio tid tos len r a e) =
    sent_lem m ratio tid tos len r w (Admitted-IsAdmission a) e
