-- ===== src/Sitm/Overflow.antt =====
-- The reading of ACL data in sitm.c, whose length is not compared with the buffer.
use w132d_linux_mainline.Prelude.{
  ℕ, ◌+◌, ◌-◌, ◌*◌, ◌^◌, ◌≤◌, ◌<◌, ◌≡◌, refl, ◌∙◌, sym, ap, Bool, true, false, List, [], ◌∷◌, ◌++◌,
  Option, none, some, ◌>>=◌, ◌==◌, if◌then◌else◌, bind_some, bind_none, Option-cases, inl, inr,
  arith, length,
}
use w132d_linux_mainline.Prelude.Memory.{write_bytes, write_bytes-append}
use w132d_linux_mainline.Sitm.{
  brand_new, preamble_bytes, body, finished, Receive, preamble_size, acl_length, start_packet,
  end_preamble, receive_preamble, receive_body, receive_byte, complete, leaves, round,
}
use w132d_linux_mainline.Sitm.Bounds.{receive_body_overflow}

-- Rounds of the loop of `parse_frame` on given bytes, and the state after them
unfoldable pub feed :
    {S : Type 0} → (S → ℕ → List ℕ × S) → List ℕ → Receive → S → Option (Receive × S)
feed kfifo_out [] r s = some (r, s)
feed kfifo_out (byte ∷ bytes) r s =
    round kfifo_out byte r s >>= λ (on, frames, r', s'). feed kfifo_out bytes r' s'

-- The state at the body of ACL data, its preamble read
abbrev at_body : ℕ → ℕ → ℕ → ℕ → List ℕ → Receive → Receive
at_body h0 h1 low high buf r = record r {
  state = body;
  bytes_remaining = high * 2 ^ 8 + low;
  type = 2;
  preamble = 2 ∷ (h0 ∷ (h1 ∷ (low ∷ (high ∷ []))));
  index = 5;
  buffer = 2 ∷ (h0 ∷ (h1 ∷ (low ∷ (high ∷ buf))));
}

-- The state after all bytes of the preamble but the end of it
abbrev preamble_read : ℕ → ℕ → ℕ → ℕ → List ℕ → Receive → Receive
preamble_read h0 h1 low high buf r = record r {
  state = preamble_bytes;
  bytes_remaining = 0;
  type = 2;
  preamble = 2 ∷ (h0 ∷ (h1 ∷ (low ∷ (high ∷ []))));
  index = 5;
  buffer = buf;
}

-- The length of ACL data becomes that of the body, whatever it is, if it is not 0.
end_preamble_acl :
    (h0 h1 low high b0 b1 b2 b3 b4 : ℕ) (buf : List ℕ) (r : Receive)
    → ((high * 2 ^ 8 + low) == 0) ≡ false
    → end_preamble high (preamble_read h0 h1 low high (b0 ∷ (b1 ∷ (b2 ∷ (b3 ∷ (b4 ∷ buf))))) r)
      ≡ some (at_body h0 h1 low high buf r)
unfolding end_preamble acl_length
end_preamble_acl h0 h1 low high b0 b1 b2 b3 b4 buf r pos =
    let header = 2 ∷ (h0 ∷ (h1 ∷ (low ∷ (high ∷ [])))) in
    let old = b0 ∷ (b1 ∷ (b2 ∷ (b3 ∷ (b4 ∷ buf)))) in
    bind_some _ (write_bytes-append [] old header 0 refl (omega arith))
    ∙ ap
        (λ (b : Bool).
          some (record (at_body h0 h1 low high buf r) { state = if b then finished else body }))
        pos

-- From any state that waits for a packet, the type and the preamble of ACL data lead to its body.
acl_preamble :
    {S : Type 0} (kfifo_out : S → ℕ → List ℕ × S) (h0 h1 low high b0 b1 b2 b3 b4 : ℕ) (buf : List ℕ)
    (r : Receive) (s : S)
    → ((high * 2 ^ 8 + low) == 0) ≡ false
    → feed kfifo_out
        (2 ∷ (h0 ∷ (h1 ∷ (low ∷ (high ∷ [])))))
        (record r { state = brand_new; buffer = b0 ∷ (b1 ∷ (b2 ∷ (b3 ∷ (b4 ∷ buf)))) })
        s
      ≡ some (at_body h0 h1 low high buf r, s)
unfolding feed round receive_byte start_packet receive_preamble preamble_size complete leaves
    write_bytes
acl_preamble {S = S} kfifo_out h0 h1 low high b0 b1 b2 b3 b4 buf r s pos =
    let last : Option Receive → Option (Bool × List (List ℕ) × Receive × S) = λ o.
      (o >>= λ r'. some (r', s)) >>= λ (r', s').
      if leaves kfifo_out preamble_bytes r'.state
      then some (false, [], r', s')
      else (complete kfifo_out r'.state r' >>= λ (frames, r''). some (true, frames, r'', s')) in
    ap (λ (o : Option Receive). last o >>= λ (on, frames, r', s'). some (r', s'))
      (end_preamble_acl h0 h1 low high b0 b1 b2 b3 b4 buf r pos)

feed-append :
    {S : Type 0} (kfifo_out : S → ℕ → List ℕ × S) (bs cs : List ℕ) (r : Receive) (s : S)
    → feed kfifo_out (bs ++ cs) r s
      ≡ (feed kfifo_out bs r s >>= λ (r', s'). feed kfifo_out cs r' s')
unfolding feed
feed-append kfifo_out [] cs r s = refl
feed-append kfifo_out (b ∷ bs) cs r s = elim (Option-cases (round kfifo_out b r s)) [
  | inl e ↦ bind_none _ e ∙ sym (bind_none _ (bind_none _ e))
  | inr ((on, frames, r', s'), e) ↦
      bind_some _ e
      ∙ feed-append kfifo_out bs cs r' s'
      ∙ sym (ap (λ o. o >>= λ (q, t). feed kfifo_out cs q t) (bind_some _ e))
]

-- A body byte that faults ends the rounds.
body_byte :
    {S : Type 0} (kfifo_out : S → ℕ → List ℕ × S) (byte h0 h1 low high : ℕ) (buf : List ℕ)
    (r : Receive) (s : S)
    → receive_body kfifo_out byte (at_body h0 h1 low high buf r) s ≡ none
    → feed kfifo_out (byte ∷ []) (at_body h0 h1 low high buf r) s ≡ none
unfolding feed round receive_byte
body_byte kfifo_out byte h0 h1 low high buf r s e = bind_none _ (bind_none _ e)

-- From any state that waits for a packet, the bytes of ACL data are read: its type, its preamble, and
-- the first byte of its body. When the fifo has the rest of a body that is longer than the buffer,
-- less the five bytes before it, the read writes past the end of the buffer: nothing has compared
-- the length in the preamble with the buffer. The bytes are below 256, and the buffer has five.
pub acl_data_overflow :
    {S : Type 0} (kfifo_out : S → ℕ → List ℕ × S) (h0 h1 low high byte : ℕ) (buf : List ℕ)
    (r : Receive) (s : S)
    → low < 2 ^ 8
    → high < 2 ^ 8
    → 5 ≤ length buf
    → length buf < 5 + (high * 2 ^ 8 + low)
    → length (kfifo_out s (high * 2 ^ 8 + low - 1)).0 ≡ high * 2 ^ 8 + low - 1
    → feed kfifo_out
        (2 ∷ (h0 ∷ (h1 ∷ (low ∷ (high ∷ (byte ∷ []))))))
        (record r { state = brand_new; buffer = buf })
        s
      ≡ none
acl_data_overflow kfifo_out h0 h1 low high byte (b0 ∷ (b1 ∷ (b2 ∷ (b3 ∷ (b4 ∷ buf))))) r s lo hi
      five big full =
    let some_body : ((high * 2 ^ 8 + low) == 0) ≡ false = ground (arith, big) in
    feed-append kfifo_out (2 ∷ (h0 ∷ (h1 ∷ (low ∷ (high ∷ []))))) (byte ∷ []) _ s
    ∙ bind_some _ (acl_preamble kfifo_out h0 h1 low high b0 b1 b2 b3 b4 buf r s some_body)
    ∙ body_byte kfifo_out byte h0 h1 low high buf r s (
        receive_body_overflow kfifo_out byte (at_body h0 h1 low high buf r) s (omega (arith, big))
          (omega (arith, lo, hi)) (omega (arith, big)) full)
acl_data_overflow kfifo_out h0 h1 low high byte [] r s lo hi five big full =
    absurd (omega (arith, five))
acl_data_overflow kfifo_out h0 h1 low high byte (b0 ∷ []) r s lo hi five big full =
    absurd (omega (arith, five))
acl_data_overflow kfifo_out h0 h1 low high byte (b0 ∷ (b1 ∷ [])) r s lo hi five big full =
    absurd (omega (arith, five))
acl_data_overflow kfifo_out h0 h1 low high byte (b0 ∷ (b1 ∷ (b2 ∷ []))) r s lo hi five big full =
    absurd (omega (arith, five))
acl_data_overflow kfifo_out h0 h1 low high byte (b0 ∷ (b1 ∷ (b2 ∷ (b3 ∷ [])))) r s lo hi five big
      full =
    absurd (omega (arith, five))
