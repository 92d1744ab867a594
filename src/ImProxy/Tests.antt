-- ===== src/ImProxy/Tests.antt =====
-- The proxy of the input method on concrete messages.
use fbterm.Prelude.{ℕ, ◌≡◌, refl, true, false, [], ◌∷◌, length, ◌==◌, if◌then◌else◌, Store, arith}
use fbterm.Screen.Rotate.{Rect}
use fbterm.Shell.Text.{utf16_to_utf8}
use fbterm.Shells.Managed.{occupied}
use fbterm.ImProxy.Rectangles.{intersect, intersect_rectangles}
use fbterm.ImProxy.Rectangles.Points.{IsSmall, Means, intersect_rectangles-Means}
use fbterm.ImProxy.Text.{utf8_to_utf16}
use fbterm.ImProxy.Text.RoundTrip.{AllCodes, memory, utf8_to_utf16-utf16_to_utf8}
use fbterm.ImProxy.Windows.{
  Windows, fill_rect, no_rect, set_im_win, take_drawing, visible_part, cover, uncover,
}
use fbterm.ImProxy.Windows.Count.{IsCounted, set_im_win-IsCounted}
use fbterm.ImProxy.Windows.Queue.{IsBounded, take_drawing-IsBounded}
use fbterm.ImProxy.Messages.{ImProxy, put_text, ping, no_message_to_wait, frames, take_messages}
use fbterm.ImProxy.Messages.Frames.{Chain, frames-Chain}
use fbterm.ImProxy.Messages.Silent.{NoConnect, Ignores, take_messages-Ignores}

abbrev bar : Rect
bar = record { x = 10; y = 10; w = 30; h = 5 }

abbrev beneath : Rect
beneath = record { x = 0; y = 12; w = 20; h = 20 }

intersect_test : intersect_rectangles bar beneath ≡ intersect
unfolding intersect_rectangles
intersect_test = refl

bar-IsSmall : IsSmall bar
bar-IsSmall = record { right = omega arith; bottom = omega arith }

beneath-IsSmall : IsSmall beneath
beneath-IsSmall = record { right = omega arith; bottom = omega arith }

intersect_rectangles-Means_example : Means bar beneath (intersect_rectangles bar beneath)
intersect_rectangles-Means_example =
    intersect_rectangles-Means bar beneath bar-IsSmall beneath-IsSmall

han-AllCodes : AllCodes (b'a' ∷ 0xe9 ∷ 0x4e2d ∷ [])
unfolding AllCodes
han-AllCodes = (omega arith, (omega arith, (omega arith, tt)))

utf8_to_utf16-utf16_to_utf8_example :
    utf8_to_utf16
      (memory (utf16_to_utf8 (b'a' ∷ 0xe9 ∷ 0x4e2d ∷ [])) (λ i. 0))
      (length (utf16_to_utf8 (b'a' ∷ 0xe9 ∷ 0x4e2d ∷ [])))
    ≡ b'a' ∷ 0xe9 ∷ 0x4e2d ∷ []
utf8_to_utf16-utf16_to_utf8_example =
    utf8_to_utf16-utf16_to_utf8 (b'a' ∷ 0xe9 ∷ 0x4e2d ∷ []) (λ i. 0) han-AllCodes

abbrev no_windows : Windows
no_windows = record {
  sw = 640;
  sh = 480;
  font_w = 8;
  font_h = 16;
  shell_active = true;
  valid_win_num = 0;
  wins = λ i. no_rect;
  win_msgs = λ i. [];
  calls = [];
}

no_windows-IsCounted : IsCounted no_windows
unfolding occupied
no_windows-IsCounted = record { counted = refl; shaped = λ i n. absurd (n refl) }

set_im_win-IsCounted_example : IsCounted (set_im_win 3 bar no_windows)
set_im_win-IsCounted_example = set_im_win-IsCounted 3 bar no_windows refl no_windows-IsCounted

-- A window that is taken away while its shell is not the active one is still counted.
hidden_test :
    (set_im_win 3 no_rect
      (record (set_im_win 3 bar no_windows) { shell_active = false })).valid_win_num
    ≡ 1
unfolding set_im_win visible_part cover uncover intersect_rectangles
hidden_test = refl

no_windows-IsBounded : IsBounded no_windows
unfolding IsBounded
no_windows-IsBounded i = omega arith

take_drawing-IsBounded_example :
    IsBounded (take_drawing (fill_rect bar 3 24) no_windows)
    × IsBounded (set_im_win 3 bar no_windows)
take_drawing-IsBounded_example =
    take_drawing-IsBounded (fill_rect bar 3 24) 3 bar no_windows no_windows-IsBounded

abbrev four : Store ℕ → ℕ
four buf = buf 2

-- Two messages of four and six bytes, and two bytes of a third.
abbrev buffer : Store ℕ
buffer i = if i == 2 then 4 else if i == 6 then 6 else if i == 12 then 9 else 1

frames-Chain_example : Chain four buffer 12 0 (frames 12 four 0 12 buffer)
frames-Chain_example = frames-Chain 12 four 0 12 12 buffer (omega arith) (omega arith)

abbrev unconnected : ImProxy
unconnected = record {
  connected = false;
  active = false;
  raw_input = false;
  msg_wait_state = no_message_to_wait;
  msg_wait_type = 0;
  windows = no_windows;
  sent = [];
}

early-NoConnect : NoConnect (ping ∷ put_text (b'a' ∷ []) ∷ [])
unfolding NoConnect
early-NoConnect = (λ e. omega arith, (λ e. omega arith, tt))

take_messages-Ignores_example :
    Ignores unconnected (take_messages (ping ∷ put_text (b'a' ∷ []) ∷ []) unconnected)
take_messages-Ignores_example =
    take_messages-Ignores (ping ∷ put_text (b'a' ∷ []) ∷ []) unconnected early-NoConnect refl
