-- ===== src/ImProxy/Messages/Silent.antt =====
-- What is not done before the input method has connected, and while it is not active.
use fbterm.Prelude.{◌⊎◌, inl, ◌≡◌, ◌≢◌, refl, ◌∙◌, false, List, [], ◌∷◌, arith}
use fbterm.ImProxy.Messages.{
  ImProxy, Message, MsgWaitState, waiting_message, got_message, message_type, note_arrival,
  take_message, take_messages,
}

-- None of the messages is of the type `Connect`.
unfoldable pub NoConnect : List Message → Type 0
NoConnect [] = Unit
NoConnect (m ∷ ms) = (message_type m ≢ 0) × NoConnect ms

-- Nothing is sent, drawn or changed, but that a message that is waited for may have been got.
pub record Ignores (p u : ImProxy) : Type 0 where
  pub sent : u.sent ≡ p.sent
  pub windows : u.windows ≡ p.windows
  pub connected : u.connected ≡ p.connected
  pub active : u.active ≡ p.active
  pub raw_input : u.raw_input ≡ p.raw_input
  pub msg_wait_type : u.msg_wait_type ≡ p.msg_wait_type
  pub waits :
      (u.msg_wait_state ≡ p.msg_wait_state)
      ⊎ ((p.msg_wait_state ≡ waiting_message) × (u.msg_wait_state ≡ got_message))

-- What was got is not waited for again.
waits_trans :
    {a b c : MsgWaitState}
    → (b ≡ a) ⊎ ((a ≡ waiting_message) × (b ≡ got_message))
    → (c ≡ b) ⊎ ((b ≡ waiting_message) × (c ≡ got_message))
    → (c ≡ a) ⊎ ((a ≡ waiting_message) × (c ≡ got_message))
waits_trans k r = ground (arith, k, r)

take_message-Ignores :
    (m : Message) (p : ImProxy)
    → message_type m ≢ 0
    → p.connected ≡ false
    → Ignores p (take_message m p)
unfolding take_message note_arrival
take_message-Ignores m p h c = ground (arith, h, c)

-- Before the input method has connected, its messages of other types are ignored.
pub take_messages-Ignores :
    (ms : List Message) (p : ImProxy)
    → NoConnect ms
    → p.connected ≡ false
    → Ignores p (take_messages ms p)
unfolding take_messages NoConnect
take_messages-Ignores [] p h c = record {
  sent = refl;
  windows = refl;
  connected = refl;
  active = refl;
  raw_input = refl;
  msg_wait_type = refl;
  waits = inl refl;
}
take_messages-Ignores (m ∷ ms) p (h, hs) c =
    let k = take_message-Ignores m p h c in
    let r = take_messages-Ignores ms (take_message m p) hs (k.connected ∙ c) in
    record {
      sent = r.sent ∙ k.sent;
      windows = r.windows ∙ k.windows;
      connected = r.connected ∙ k.connected;
      active = r.active ∙ k.active;
      raw_input = r.raw_input ∙ k.raw_input;
      msg_wait_type = r.msg_wait_type ∙ k.msg_wait_type;
      waits = waits_trans k.waits r.waits;
    }
