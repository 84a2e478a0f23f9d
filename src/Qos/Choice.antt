-- ===== src/Qos/Choice.antt =====
-- change_priority_if of qos.c: the access category that a frame takes, and why.
use w132d_linux_mainline.Prelude.{
  ℕ, zero, suc, ◌≤◌, ◌<◌, ◌≡◌, refl, ◌∙◌, sym, ap, true, not, List, [], ◌∷◌, Option, some, arith,
  ltb, ◌==◌, if◌then◌else◌, if_cases, bind_some, Returns, get_elem?, set, length, subst,
  get_elem?_total, length-set,
}
use w132d_linux_mainline.Qos.{Ac, map_priority_to_edca_ac}
use w132d_linux_mainline.Qos.Passed.{Choice, lowest, free, within, spent, Passed-same, lower-Choice}
use w132d_linux_mainline.Qos.Mapping.{
  QosMapSet, cost, charge, Chosen, refused, chosen, downgrade, Changed, after_choice,
  change_priority_if,
}

abbrev pub HasTime : Ac → Type 0
HasTime a = a.available ≡ ltb a.used a.admitted

abbrev pub AllHaveTime : List Ac → Type 0
AllHaveTime [] = Unit
AllHaveTime (a ∷ acs) = HasTime a × AllHaveTime acs

pub time_of :
    (acs : List Ac) (k : ℕ) (a : Ac) → AllHaveTime acs → get_elem? acs k ≡ some a → HasTime a
time_of [] k a h e = absurd (cc)
time_of (b ∷ acs) zero a h e = let same : b ≡ a = cc in subst HasTime same h.0
time_of (b ∷ acs) (suc k) a h e = time_of acs k a h.1 e

pub set-AllHaveTime :
    (acs : List Ac) (k : ℕ) (a : Ac) → AllHaveTime acs → HasTime a → AllHaveTime (set acs k a)
set-AllHaveTime [] k a h t = tt
set-AllHaveTime (b ∷ acs) zero a h t = (t, h.1)
set-AllHaveTime (b ∷ acs) (suc k) a h t = (h.0, set-AllHaveTime acs k a h.1 t)

charge-HasTime : (time : ℕ) (a : Ac) → HasTime (charge time a)
unfolding charge
charge-HasTime time a = refl

downgrade-Choice :
    (time top : ℕ) (acs : List Ac)
    → top < length acs
    → AllHaveTime acs
    → (c : Chosen) × (downgrade time top acs ≡ some c) × Choice time top acs c
unfolding downgrade
downgrade-Choice time zero acs h t = (chosen 0 acs, refl, lowest (Passed-same 0 acs))
downgrade-Choice time (suc k) acs h t =
    let (a, here) = get_elem?_total acs (suc k) h in
    let (c, below, choice) = downgrade-Choice time k acs (omega (arith, h)) t in
    let has = time_of acs (suc k) a t here in
    let first = Passed-same (suc k) acs in
    let P = λ (o : Option Chosen). (c : Chosen) × (o ≡ some c) × Choice time (suc k) acs c in
    let busy = if not (a.used == 0) then some refused else downgrade time k acs in
    let charged = set acs (suc k) (charge time a) in
    let limited = if a.available then some (chosen (suc k) charged) else busy in
    subst P (sym (bind_some _ here)) (
      if_cases P (not a.acm) (some (chosen (suc k) acs)) limited
        (λ e. (
          chosen (suc k) acs,
          refl,
          free (suc k) a (omega arith) (omega arith) first here (ground (arith, e)),
        ))
        (λ e.
          let acm : a.acm ≡ true = ground (arith, e) in
          if_cases P a.available (some (chosen (suc k) charged)) busy
            (λ yes. (
              chosen (suc k) charged,
              refl,
              within (suc k) a (omega arith) (omega arith) first here acm
                  (ground (arith, has, yes)),
            ))
            (λ no.
              let over : a.admitted ≤ a.used = ground (arith, has, no) in
              if_cases P (not (a.used == 0)) (some refused) (downgrade time k acs)
                (λ some_used. (
                  refused,
                  refl,
                  spent (suc k) a (omega arith) (omega arith) first here acm over
                      (ground (arith, some_used)),
                ))
                (λ none_used. (
                  c,
                  below,
                  lower-Choice time k acs c a here (acm, over, ground (arith, none_used)) choice,
                )))))

-- The categories after a choice
abbrev pub acs_after : List Ac → Chosen → List Ac
acs_after acs refused = acs
acs_after acs (chosen ac acs') = acs'

Choice-AllHaveTime :
    (time top : ℕ) (acs : List Ac) (c : Chosen)
    → AllHaveTime acs
    → Choice time top acs c
    → AllHaveTime (acs_after acs c)
Choice-AllHaveTime time top acs _ h (lowest p) = h
Choice-AllHaveTime time top acs _ h (free k a pos le p e f) = h
Choice-AllHaveTime time top acs _ h (within k a pos le p e f l) =
    set-AllHaveTime acs k (charge time a) h (charge-HasTime time a)
Choice-AllHaveTime time top acs _ h (spent k a pos le p e f l n) = h

Choice-length :
    (time top : ℕ) (acs : List Ac) (c : Chosen)
    → Choice time top acs c
    → length (acs_after acs c) ≡ length acs
Choice-length time top acs _ (lowest p) = refl
Choice-length time top acs _ (free k a pos le p e f) = refl
Choice-length time top acs _ (within k a pos le p e f l) = length-set acs k (charge time a)
Choice-length time top acs _ (spent k a pos le p e f l n) = refl

edca_bound : (tid : ℕ) → map_priority_to_edca_ac tid ≤ 3
unfolding map_priority_to_edca_ac
edca_bound tid = ground arith

-- What `change_priority_if` does with a frame, and why.
pub record Decided (m : QosMapSet) (ratio tid tos len : ℕ) (acs : List Ac) (r : Changed)
    : Type 0 where
  pub choice : Chosen
  pub why : Choice (cost ratio len) (map_priority_to_edca_ac tid) acs choice
  pub result : r ≡ after_choice m tos tid acs choice
  pub times : AllHaveTime r.acs
  pub four : length r.acs ≡ length acs

after_choice-acs :
    (m : QosMapSet) (tos tid : ℕ) (acs : List Ac) (c : Chosen)
    → (after_choice m tos tid acs c).acs ≡ acs_after acs c
after_choice-acs m tos tid acs refused = refl
after_choice-acs m tos tid acs (chosen ac acs') = refl

-- With access categories that are available exactly while they have time left, a frame passes,
-- from the category of its TID down, those with admission control that have no time left and none
-- used. The first other one decides: without admission control, or with time left, which is then
-- charged, it is taken; with its time used up, the frame is refused. The lowest is taken where all
-- above it are passed. The categories stay available exactly while they have time left. The
-- condition besides: there are four categories.
pub change_priority_if-Decided :
    (m : QosMapSet) (ratio tid tos len : ℕ) (acs : List Ac)
    → length acs ≡ 4
    → AllHaveTime acs
    → Returns (change_priority_if true m ratio tid tos len acs) (Decided m ratio tid tos len acs)
unfolding change_priority_if
change_priority_if-Decided m ratio tid tos len acs four h =
    let top = map_priority_to_edca_ac tid in
    let (c, path, why) =
      downgrade-Choice (cost ratio len) top acs (omega (arith, four, edca_bound tid)) h in
    (
      after_choice m tos tid acs c,
      bind_some _ path,
      record {
        choice = c;
        why = why;
        result = refl;
        times =
            subst AllHaveTime (sym (after_choice-acs m tos tid acs c))
              (Choice-AllHaveTime (cost ratio len) top acs c h why);
        four =
            ap length (after_choice-acs m tos tid acs c)
            ∙ Choice-length (cost ratio len) top acs c why;
      },
    )
