-- ===== src/Credit/Flows.antt =====
-- That the search for a colour and the grant of frames in tx_msg.c move no credits.
use w132d_linux_mainline.Prelude.{
  ℕ, suc, ◌+◌, ◌-◌, ◌%◌, ◌^◌, ◌<◌, ◌≡◌, refl, ◌∙◌, sym, ap, Bool, true, false, ◌&&◌, ◌||◌, not,
  List, [], ◌∷◌, map, leb, ◌==◌, if◌then◌else◌, if_cases, subst,
}
use w132d_linux_mainline.Credit.{
  Colour, Hardware, mode_none, is_negative, has_mode, flow_of_mode, set_color_num, free_closed,
  assign, fc_find_color_per_mode, is_shared, shared_from, fc_get_shared_num, no_num, Granted,
  frames, enomem, sum, positive, grant, at_most_hundred, fc_get_send_num,
}
use w132d_linux_mainline.Credit.Spend.{credits, AllWords}

abbrev pub flows : List Colour → List ℕ
flows [] = []
flows (c ∷ cs) = c.flow ∷ flows cs

-- The same credits, colour by colour
abbrev pub SameFlows : List Colour → List Colour → Type 0
SameFlows cs cs' = flows cs' ≡ flows cs

flows-map :
    (f : Colour → Colour)
    → ((c : Colour) → (f c).flow ≡ c.flow)
    → (cs : List Colour) → SameFlows cs (map f cs)
flows-map f h [] = refl
flows-map f h (c ∷ cs) =
    ap (λ n. n ∷ flows (map f cs)) (h c) ∙ ap (λ l. c.flow ∷ l) (flows-map f h cs)

flows-free : (closed : ℕ → Bool) (c : Colour) → (free_closed closed c).flow ≡ c.flow
flows-free closed c =
    if_cases (λ d. d.flow ≡ c.flow) (not (c.mode == mode_none) && closed c.mode)
      (record c { mode = mode_none }) c (λ e. refl) (λ e. refl)

flows-assign : (i mode : ℕ) (cs : List Colour) → SameFlows cs (assign i mode cs)
unfolding assign
flows-assign i mode [] = refl
flows-assign i mode (c ∷ cs) =
    if_cases (SameFlows (c ∷ cs)) (c.mode == mode_none)
      (record c { mode = mode; color_bit = i } ∷ cs) (c ∷ assign (suc i) mode cs) (λ e. refl)
      (λ e. ap (λ l. c.flow ∷ l) (flows-assign (suc i) mode cs))

flows-set : (mode n : ℕ) (cs : List Colour) → SameFlows cs (set_color_num mode n cs)
unfolding set_color_num
flows-set mode n [] = refl
flows-set mode n (c ∷ cs) =
    if_cases (SameFlows (c ∷ cs)) (c.mode == mode) (record c { color_num = n % 256 } ∷ cs)
      (c ∷ set_color_num mode n cs) (λ e. refl) (λ e. ap (λ l. c.flow ∷ l) (flows-set mode n cs))

flows-shared : (num s : ℕ) (cs : List Colour) → SameFlows cs (shared_from num s cs).1
unfolding shared_from
flows-shared num s [] = refl
flows-shared num s (c ∷ cs) =
    let s' = if is_shared c then s + c.flow else s in
    let rest = shared_from num s' cs in
    let ih = ap (λ l. c.flow ∷ l) (flows-shared num s' cs) in
    if_cases (λ (r : ℕ × List Colour). SameFlows (c ∷ cs) r.1) (is_shared c)
      (if leb (num - s) c.flow
        then (num, record c { color_num = (num - s) % 256 } ∷ cs)
        else (rest.0, record c { color_num = c.flow % 256 } ∷ rest.1))
      (rest.0, c ∷ rest.1)
      (λ e.
        if_cases (λ (r : ℕ × List Colour). SameFlows (c ∷ cs) r.1) (leb (num - s) c.flow)
          (num, record c { color_num = (num - s) % 256 } ∷ cs)
          (rest.0, record c { color_num = c.flow % 256 } ∷ rest.1) (λ f. refl) (λ f. ih))
      (λ e. ih)

flows-find :
    (closed : ℕ → Bool) (mode : ℕ) (cs : List Colour)
    → SameFlows cs (fc_find_color_per_mode closed mode cs).1
unfolding fc_find_color_per_mode
flows-find closed mode cs =
    let freed = map (free_closed closed) cs in
    let f : SameFlows cs freed = flows-map (free_closed closed) (flows-free closed) cs in
    if_cases (λ (r : Bool × List Colour). SameFlows cs r.1) (has_mode mode cs) (true, cs)
      (if has_mode mode_none freed then (true, assign 0 mode freed) else (false, freed)) (λ e. refl)
      (λ e.
        if_cases (λ (r : Bool × List Colour). SameFlows cs r.1) (has_mode mode_none freed)
          (true, assign 0 mode freed) (false, freed) (λ g. flows-assign 0 mode freed ∙ f) (λ g. f))

flows-grant : (mode n : ℕ) (cs : List Colour) → SameFlows cs (grant mode n cs).1
unfolding grant fc_get_shared_num
flows-grant mode n cs =
    let own = flow_of_mode mode cs in
    let wanted = (n + 2 ^ 32 - own) % 256 in
    let shared = fc_get_shared_num wanted cs in
    if_cases (λ (r : Granted × List Colour). SameFlows cs r.1) (not (is_negative own) && leb n own)
      (frames n, set_color_num mode n cs)
      (positive ((own + shared.0) % 2 ^ 32), set_color_num mode own shared.1)
      (λ e. flows-set mode n cs) (λ e. flows-set mode own shared.1 ∙ flows-shared wanted 0 cs)

pub flows-get_send_num :
    (hw : Hardware) (closed : ℕ → Bool) (mode data_num : ℕ) (cs : List Colour)
    → SameFlows cs (fc_get_send_num hw closed mode data_num cs).1
unfolding fc_get_send_num
flows-get_send_num hw closed mode data_num cs =
    let found = fc_find_color_per_mode closed mode (map no_num cs) in
    let P = λ (r : Granted × List Colour). SameFlows cs r.1 in
    let a : SameFlows cs found.1 =
      flows-find closed mode (map no_num cs) ∙ flows-map no_num (λ c. refl) cs in
    let hundred = at_most_hundred data_num in
    let granted = if found.0 then grant mode hundred found.1 else (enomem, found.1) in
    let free = if hw.no_credit then (frames hundred, cs) else granted in
    let pcie = if hw.pcie then (frames data_num, cs) else free in
    if_cases P (data_num == 0 || mode == mode_none) (frames 0, cs) pcie (λ e. refl)
      (λ e.
        if_cases P hw.pcie (frames data_num, cs) free (λ e. refl)
          (λ e.
            if_cases P hw.no_credit (frames hundred, cs) granted (λ e. refl)
              (λ e.
                if_cases P found.0 (grant mode hundred found.1) (enomem, found.1)
                  (λ e. flows-grant mode hundred found.1 ∙ a) (λ e. a))))

sum-flows : (cs : List Colour) → sum (flows cs) ≡ credits cs
unfolding sum credits
sum-flows [] = refl
sum-flows (c ∷ cs) = ap (λ k. c.flow + k) (sum-flows cs)

pub credits_same : (cs cs' : List Colour) → SameFlows cs cs' → credits cs' ≡ credits cs
credits_same cs cs' e = sym (sum-flows cs') ∙ ap sum e ∙ sum-flows cs

abbrev Words : List ℕ → Type 0
Words [] = Unit
Words (n ∷ ns) = (n < 2 ^ 32) × Words ns

flows-Words : (cs : List Colour) → AllWords cs → Words (flows cs)
flows-Words [] w = tt
flows-Words (c ∷ cs) (w, ws) = (w, flows-Words cs ws)

Words-flows : (cs : List Colour) → Words (flows cs) → AllWords cs
Words-flows [] w = tt
Words-flows (c ∷ cs) (w, ws) = (w, Words-flows cs ws)

pub AllWords-same : (cs cs' : List Colour) → SameFlows cs cs' → AllWords cs → AllWords cs'
AllWords-same cs cs' e w = Words-flows cs' (subst Words (sym e) (flows-Words cs w))
