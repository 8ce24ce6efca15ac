-- ===== src/Tests/SystemCalls.antt =====
-- A library of system calls that gives every handle as 7 and asks for two bytes.
use keyring.Prelude.{codes, [], ◌∷◌}
use keyring.Exec.{ok}
use keyring.WinHello.NCrypt.System.{Layout, Library, ncrypt_crypt, ncrypt_set_property}
use keyring.WinHello.NCrypt.System.Lengths.{Answers, AreSized, logged, buffers-AreSized}

abbrev answers : Answers
answers = record { handle = λ t. (0, 7); status = λ t. 0; crypted = λ t. (0, (1 ∷ 2 ∷ [], 2)) }

abbrev layout : Layout
layout = record {
  utf16 = λ s. ok s;
  uint32_bytes = λ n. n ∷ 0 ∷ 0 ∷ 0 ∷ [];
  uintptr_bytes = λ n. n ∷ 0 ∷ 0 ∷ 0 ∷ [];
  utf16_bytes = λ u. u;
}

buffers-AreSized_example :
    AreSized (ncrypt_set_property (logged answers) layout 7 (codes "Length") (1 ∷ 8 ∷ []) 0 []).1
    × (AreSized (ncrypt_crypt (Library.encrypt (logged answers)) 7 (1 ∷ 8 ∷ []) 0 []).1
        × AreSized (ncrypt_crypt (Library.decrypt (logged answers)) 7 (1 ∷ 8 ∷ []) 0 []).1)
buffers-AreSized_example = buffers-AreSized answers layout 7 (codes "Length") (1 ∷ 8 ∷ []) 0 [] tt
