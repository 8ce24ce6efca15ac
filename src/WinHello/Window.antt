-- ===== src/WinHello/Window.antt =====
-- winhello/hwnd.go: the window that a Windows Hello prompt belongs to. 0 is no window.
use keyring.Prelude.{ℕ, ◌==◌, nat_eq, if◌then◌else◌}

-- A question to the operating system, which always has an answer.
abbrev pub Ask : Type 0 → Type 0 → Type 0
Ask W A = W → A × W

-- `GetConsoleWindow`, `IsWindowVisible` and `GetForegroundWindow`.
pub record Desktop (W : Type 0) : Type 0 where
  pub get_console_window : Ask W ℕ
  pub is_window_visible : ℕ → Ask W ℕ
  pub get_foreground_window : Ask W ℕ

module _ {W : Type 0} (d : Desktop W) where
  pub visible_console_window : Ask W ℕ
  visible_console_window w =
      let (hwnd, w₁) = d.get_console_window w in
      let (visible, w₂) = d.is_window_visible hwnd w₁ in
      if hwnd == 0 then (0, w₁) else if visible == 0 then (0, w₂) else (hwnd, w₂)

  pub parent_hwnd : Ask W ℕ
  parent_hwnd w =
      let (hwnd, w₁) = visible_console_window w in
      if hwnd == 0 then d.get_foreground_window w₁ else (hwnd, w₁)
