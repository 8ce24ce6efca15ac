-- ===== src/Prompts.antt =====
-- prompt.go: the prompt that asks on the terminal, and the one that asks nobody.
use keyring.Prelude.{Bytes, codes, ◌++◌}
use keyring.Exec.{Exec, pure, ◌>>=◌}
use keyring.Api.{Prompt}
use keyring.WinHello.Window.{Ask}

-- Standard output, and `term.ReadPassword` on standard input, which does not echo.
pub record Terminal (W : Type 0) : Type 0 where
  pub print : Bytes → Ask W Unit
  pub read_password : Exec W Bytes

module _ {W : Type 0} (terminal : Terminal W) where
  -- What is printed is always taken to be printed: its error is not looked at.
  say : Bytes → Exec W Unit
  say text w = let (done, w₁) = terminal.print text w in pure done w₁

  -- The line ends only if a password was read.
  pub terminal_prompt : Prompt W
  unfolding say
  terminal_prompt prompt = do
    shown ← say (prompt ++ codes ": ")
    b ← terminal.read_password
    ended ← say (codes "\n")
    pure b

abbrev pub fixed_string_prompt : {W : Type 0} → Bytes → Prompt W
fixed_string_prompt value prompt = pure value
