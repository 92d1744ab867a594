-- ===== src/ImProxy/Messages.antt =====
-- src/improxy.cpp: the messages between the program and the input method.
pub mod Frames
pub mod Silent
use fbterm.Prelude.{
  ℕ, zero, suc, ◌+◌, ◌-◌, ◌*◌, ◌%◌, Bool, true, false, not, ◌&&◌, ◌||◌, List, [], ◌∷◌, ltb, leb,
  ◌==◌, if◌then◌else◌, Store,
}
use fbterm.Screen.Rotate.{Rect}
use fbterm.ImProxy.Windows.{Windows, Drawing, set_im_win, take_drawing}

-- What is sent to the input method, and what is asked of the shell and of the keyboard.
pub data Sent : Type 0 where
  active deactive show_ui hide_ui info ack_win ack_ping disconnect : Sent
  cursor_position : (x y : ℕ) → Sent
  term_mode : (crlf appkey curo : Bool) → Sent
  send_key : List ℕ → Sent
  im_input : List ℕ → Sent
  set_raw_mode : Bool → Sent
  -- `waitImMessage`, which ends after two seconds at most
  wait_ack : Sent
  scroll_enabled : Sent

-- What arrives. `put_text` holds the bytes behind the header, `whole` says that the message has the
-- length of the structure.
pub data Message : Type 0 where
  connect : (raw : Bool) → Message
  put_text : (texts : List ℕ) → Message
  set_win : (whole : Bool) → (winid : ℕ) → (rect : Rect) → Message
  fill_or_text : Drawing → Message
  ping : Message
  other : (type : ℕ) → Message

-- `MessageType`; `DrawText` is `FillRect` and one.
abbrev pub message_type : Message → ℕ
message_type (connect raw) = 0
message_type (put_text texts) = 5
message_type (set_win whole winid rect) = 6
message_type (fill_or_text (Drawing.fill_rect rect color len)) = 14
message_type (fill_or_text (Drawing.draw_text x y fc bc len text)) = 15
message_type ping = 16
message_type (other type) = type

pub data MsgWaitState : Type 0 where
  no_message_to_wait waiting_message got_message : MsgWaitState

abbrev pub is_waiting : MsgWaitState → Bool
is_waiting waiting_message = true
is_waiting _ = false

pub record ImProxy : Type 0 where
  pub connected : Bool
  pub active : Bool
  pub raw_input : Bool
  pub msg_wait_state : MsgWaitState
  pub msg_wait_type : ℕ
  pub windows : Windows
  -- newest first
  pub sent : List Sent

abbrev pub send : Sent → ImProxy → ImProxy
send m p = record p { sent = m ∷ p.sent }

-- A message's place in the bytes that were read.
pub record Frame : Type 0 where
  pub start : ℕ
  pub len : ℕ

-- The loop of `readyRead`: the messages in the `left` bytes from `start` on. `len_of` reads the field
-- `len` of a message.
unfoldable pub frames : ℕ → (Store ℕ → ℕ) → ℕ → ℕ → Store ℕ → List Frame
frames zero len_of start left buf = []
frames (suc n) len_of start left buf =
    let len = len_of (λ i. buf (start + i)) in
    let rest = frames n len_of (start + len) (left - len) buf in
    if left == 0 || len == 0 || ltb left len then [] else record { start = start; len = len } ∷ rest

-- `if (mMsgWaitState == WaitingMessage && ...) mMsgWaitState = GotMessage;`
unfoldable pub note_arrival : ℕ → ImProxy → ImProxy
note_arrival type p =
    if is_waiting p.msg_wait_state && p.msg_wait_type == type
    then record p { msg_wait_state = got_message }
    else p

abbrev pub is_nil {ℓ} : {A : Type ℓ} → List A → Bool
is_nil [] = true
is_nil (x ∷ xs) = false

-- The `switch` of `readyRead`.
unfoldable pub act_on : Message → ImProxy → ImProxy
act_on (connect raw) p = send info (record p { connected = true; raw_input = raw })
act_on (put_text texts) p = if is_nil texts then p else send (im_input texts) p
act_on (set_win whole winid rect) p =
    send ack_win (if whole then record p { windows = set_im_win winid rect p.windows } else p)
act_on (fill_or_text m) p = record p { windows = take_drawing m p.windows }
act_on ping p = send ack_ping p
act_on (other type) p = p

-- A round of the loop of `readyRead`.
unfoldable pub take_message : Message → ImProxy → ImProxy
take_message m p =
    let q = note_arrival (message_type m) p in
    if not q.connected && not (message_type m == 0) then q else act_on m q

unfoldable pub take_messages : List Message → ImProxy → ImProxy
take_messages [] p = p
take_messages (m ∷ ms) p = take_messages ms (take_message m p)

-- `ImProxy::readyRead`; `message` reads a message from the bytes that begin with it.
unfoldable pub ready_read :
    (Store ℕ → ℕ) → (Store ℕ → ℕ → Message) → Store ℕ → ℕ → ImProxy → ImProxy
ready_read len_of message buf len p = take_messages (read (frames len len_of 0 len buf)) p
  where
    read : List Frame → List Message
    read [] = []
    read (f ∷ fs) = message (λ i. buf (f.start + i)) f.len ∷ read fs

-- `ImProxy::toggleActive`
unfoldable pub toggle_active : ImProxy → ImProxy
toggle_active p =
    let a = not p.active in
    let u = send (set_raw_mode (p.raw_input && a)) (record p { active = a }) in
    if p.connected then send (if a then active else deactive) u else p

-- `ImProxy::changeCursorPos`
unfoldable pub change_cursor_pos : ℕ → ℕ → ImProxy → ImProxy
change_cursor_pos col row p =
    if not p.connected || not p.active
    then p
    else send (cursor_position (p.windows.font_w * col) (p.windows.font_h * (row + 1))) p

-- `ImProxy::changeTermMode`
unfoldable pub change_term_mode : Bool → Bool → Bool → ImProxy → ImProxy
change_term_mode crlf appkey curo p =
    if not p.connected || not p.active then p else send (term_mode crlf appkey curo) p

-- `ImProxy::switchVt`
unfoldable pub switch_im_vt : Bool → ImProxy → ImProxy
switch_im_vt enter p =
    let u =
      send (if enter then show_ui else hide_ui) (send (set_raw_mode (enter && p.raw_input)) p) in
    if not p.connected || not p.active
    then p
    else if enter
    then u
    else send scroll_enabled (send wait_ack u)

-- `ImProxy::sendKey`
unfoldable pub send_keys : List ℕ → ImProxy → ImProxy
send_keys keys p =
    if not p.connected || not p.active || is_nil keys then p else send (send_key keys) p

-- `ImProxy::sendDisconnect`
unfoldable pub send_disconnect : ImProxy → ImProxy
send_disconnect p = if p.connected then send disconnect p else p

-- `ImProxy::ioError`
unfoldable pub io_error : Bool → ImProxy → ImProxy
io_error read p =
    if read && is_waiting p.msg_wait_state then record p { msg_wait_state = got_message } else p
