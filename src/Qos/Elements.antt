-- ===== src/Qos/Elements.antt =====
-- get_wmm_ie of qos.c: the search of the WMM element among the information elements of a frame.
use w132d_linux_mainline.Prelude.{
  ℕ, zero, suc, ◌+◌, ◌*◌, ◌≤◌, ◌<◌, ◌≡◌, ◌≢◌, refl, ◌∙◌, sym, ap, Bool, true, false, ◌&&◌, List, [],
  ◌∷◌, ◌++◌, Option, none, some, arith, ltb, ◌==◌, if◌then◌else◌, ◌>>=◌, if_true, if_false,
  get_elem?, drop, length, bind_some, bind_none, Bool-cases, inl, inr, length-append,
}
use mathlib.Core.List.{append_assoc}
use w132d_linux_mainline.Prelude.Memory.{drop-length-append}

-- Whether the bytes after the length are those of `oui` and WMM_OUI_TYPE; `none` is a read past the
-- end. The last byte is read only where the others are right.
unfoldable pub is_wmm : ℕ → List ℕ → Option Bool
is_wmm oui body = get_elem? body 0 >>= λ b0. get_elem? body 1 >>= λ b1. get_elem? body 2 >>= λ b2.
    if b0 * 65536 + b1 * 256 + b2 == oui
    then (get_elem? body 3 >>= λ b3. some (b3 == 2))
    else some false

-- The loop of `get_wmm_ie` at `pos`, with the bytes from there to `end`: where the element found has
-- its OUI, or none.
unfoldable pub wmm_from : ℕ → ℕ → ℕ → ℕ → List ℕ → Option (Option ℕ)
wmm_from zero ie oui pos bytes = some none
wmm_from (suc fuel) ie oui pos [] = some none
wmm_from (suc fuel) ie oui pos (id ∷ []) = some none
wmm_from (suc fuel) ie oui pos (id ∷ (len ∷ body)) =
    let rest = wmm_from fuel ie oui (pos + 2 + len) (drop len body) in
    if ltb (length body) len
    then some none
    else if id == ie
    then (is_wmm oui body >>= λ found. some (if found then some (pos + 2) else none))
    else rest

-- `get_wmm_ie`; each round takes two bytes or more.
unfoldable pub get_wmm_ie : ℕ → ℕ → List ℕ → Option (Option ℕ)
get_wmm_ie ie oui res = wmm_from (suc (length res)) ie oui 0 res

-- An information element
pub record Element : Type 0 where
  pub id : ℕ
  pub body : List ℕ

unfoldable pub encode : List Element → List ℕ
encode [] = []
encode (e ∷ es) = e.id ∷ (length e.body ∷ (e.body ++ encode es))

-- The first three bytes of an element are the OUI, and the fourth says WMM.
unfoldable pub says_wmm : ℕ → List ℕ → Bool
says_wmm oui (b0 ∷ (b1 ∷ (b2 ∷ (b3 ∷ more)))) = b0 * 65536 + b1 * 256 + b2 == oui && b3 == 2
says_wmm oui bytes = false

-- Where the first element of the identifier has its body, if that is the one of WMM.
unfoldable pub wmm_place : ℕ → ℕ → ℕ → List Element → Option ℕ
wmm_place ie oui pos [] = none
wmm_place ie oui pos (e ∷ es) =
    let later = wmm_place ie oui (pos + 2 + length e.body) es in
    if e.id == ie then (if says_wmm oui e.body then some (pos + 2) else none) else later

-- The elements of the identifier have an OUI and its type.
abbrev pub HaveOui : ℕ → List Element → Type 0
HaveOui ie [] = Unit
HaveOui ie (e ∷ es) = (e.id ≡ ie → 4 ≤ length e.body) × HaveOui ie es

is_wmm_lem :
    (oui : ℕ) (body more : List ℕ)
    → 4 ≤ length body
    → is_wmm oui (body ++ more) ≡ some (says_wmm oui body)
unfolding is_wmm says_wmm
is_wmm_lem oui [] more h = absurd (omega arith)
is_wmm_lem oui (b0 ∷ []) more h = absurd (omega arith)
is_wmm_lem oui (b0 ∷ (b1 ∷ [])) more h = absurd (omega arith)
is_wmm_lem oui (b0 ∷ (b1 ∷ (b2 ∷ []))) more h = absurd (omega arith)
is_wmm_lem oui (b0 ∷ (b1 ∷ (b2 ∷ (b3 ∷ body)))) more h = ground arith

wmm_from_lem :
    (fuel ie oui pos : ℕ) (es : List Element)
    → length (encode es) < fuel
    → HaveOui ie es
    → wmm_from fuel ie oui pos (encode es) ≡ some (wmm_place ie oui pos es)
unfolding wmm_from encode wmm_place
wmm_from_lem zero ie oui pos es enough h = absurd (omega (arith, enough))
wmm_from_lem (suc fuel) ie oui pos [] enough h = refl
wmm_from_lem (suc fuel) ie oui pos (e ∷ es) enough (h, hs) =
    let l = length-append e.body (encode es) in
    let ih = wmm_from_lem fuel ie oui (pos + 2 + length e.body) es (omega (arith, enough, l)) hs in
    let fits : ltb (length (e.body ++ encode es)) (length e.body) ≡ false = ground (arith, l) in
    let rest : wmm_from fuel ie oui (pos + 2 + length e.body)
          (drop (length e.body) (e.body ++ encode es))
        ≡ some (wmm_place ie oui (pos + 2 + length e.body) es) =
      ap (wmm_from fuel ie oui (pos + 2 + length e.body)) (drop-length-append e.body (encode es))
      ∙ ih in
    if_false _ _ fits ∙ (elim (Bool-cases (e.id == ie)) [
      | inl here ↦
          let long : 4 ≤ length e.body = h (ground (arith, here)) in
          if_true _ _ here
          ∙ bind_some _ (is_wmm_lem oui e.body (encode es) long)
          ∙ ap some (sym (if_true _ _ here))
      | inr other ↦ if_false _ _ other ∙ rest ∙ ap some (sym (if_false _ _ other))
    ])

-- In any sequence of elements the first one of the identifier is found, and its place is given if it
-- is the one of WMM. The condition: each element of the identifier has at least four bytes.
pub get_wmm_ie-encode :
    (ie oui : ℕ) (es : List Element)
    → HaveOui ie es
    → get_wmm_ie ie oui (encode es) ≡ some (wmm_place ie oui 0 es)
unfolding get_wmm_ie
get_wmm_ie-encode ie oui es h = wmm_from_lem (suc (length (encode es))) ie oui 0 es (omega arith) h

short_faults : (oui : ℕ) (body : List ℕ) → length body < 3 → is_wmm oui body ≡ none
unfolding is_wmm
short_faults oui [] h = refl
short_faults oui (b0 ∷ []) h = refl
short_faults oui (b0 ∷ (b1 ∷ [])) h = refl
short_faults oui (b0 ∷ (b1 ∷ (b2 ∷ body))) h = absurd (omega (arith, h))

abbrev pub NoneOf : ℕ → List Element → Type 0
NoneOf ie [] = Unit
NoneOf ie (e ∷ es) = (e.id ≢ ie) × NoneOf ie es

short_from :
    (fuel ie oui pos : ℕ) (es : List Element) (body : List ℕ)
    → length (encode es) < fuel
    → NoneOf ie es
    → length body < 3
    → wmm_from fuel ie oui pos (encode es ++ (ie ∷ (length body ∷ body))) ≡ none
unfolding wmm_from encode
short_from zero ie oui pos es body enough h short = absurd (omega (arith, enough))
short_from (suc fuel) ie oui pos [] body enough h short =
    let fits : ltb (length body) (length body) ≡ false = ground arith in
    let here : (ie == ie) ≡ true = ground arith in
    if_false _ _ fits ∙ if_true _ _ here ∙ bind_none _ (short_faults oui body short)
short_from (suc fuel) ie oui pos (e ∷ es) body enough (h, hs) short =
    let end = ie ∷ (length body ∷ body) in
    let more = encode es ++ end in
    let joined : (e.body ++ encode es) ++ end ≡ e.body ++ more =
      append_assoc e.body (encode es) end in
    let l = length-append e.body (encode es) in
    let l' = length-append e.body more in
    let ih =
      short_from fuel ie oui (pos + 2 + length e.body) es body (omega (arith, enough, l)) hs
        short in
    let fits : ltb (length (e.body ++ more)) (length e.body) ≡ false = ground (arith, l') in
    let other : (e.id == ie) ≡ false = ground (arith, h) in
    let rest : wmm_from fuel ie oui (pos + 2 + length e.body)
          (drop (length e.body) (e.body ++ more))
        ≡ none =
      ap (wmm_from fuel ie oui (pos + 2 + length e.body)) (drop-length-append e.body more) ∙ ih in
    ap (λ bs. wmm_from (suc fuel) ie oui pos (e.id ∷ (length e.body ∷ bs))) joined
    ∙ if_false _ _ fits
    ∙ if_false _ _ other
    ∙ rest

-- After any elements of other identifiers, a last element of the identifier that has fewer than
-- three bytes is read past the end.
pub get_wmm_ie-short :
    (ie oui : ℕ) (es : List Element) (body : List ℕ)
    → NoneOf ie es
    → length body < 3
    → get_wmm_ie ie oui (encode es ++ (ie ∷ (length body ∷ body))) ≡ none
unfolding get_wmm_ie
get_wmm_ie-short ie oui es body h short =
    let l = length-append (encode es) (ie ∷ (length body ∷ body)) in
    short_from (suc (length (encode es ++ (ie ∷ (length body ∷ body))))) ie oui 0 es body
      (omega (arith, l)) h short
