-- ===== src/WinHello/NCrypt/System.antt =====
-- winhello/ncrypt.go: the calls of ncrypt.dll behind the function variables of passport.go and
-- wrap.go.
pub mod Lengths
use Prim.Native.Nat.{◌%◌, ◌^◌, ◌-◌}
use keyring.Prelude.{
  ℕ, zero, suc, ltb, Bytes, codes, Option, none, some, List, [], ◌∷◌, length, is_empty, first_bytes,
  ◌==◌, list_eq, nat_eq, if◌then◌else◌,
}
use keyring.Errors.{message, wrapf, sentinel, err_ncrypt_empty_input}
use keyring.Exec.{Exec, Result, ok, err, pure, raise, lift, on_error, ◌>>=◌, ◌>>◌}
use keyring.WinHello.Window.{Ask}
use keyring.WinHello.NCrypt.{Handle, NCrypt, ncrypt_error}

-- A text as the 16-bit units that end with a zero.
abbrev pub Utf16 : Type 0
Utf16 = List ℕ

-- The functions of the library, each with the status that it returns beside what it writes through
-- pointers. A null pointer to a text is `none`. A buffer goes with the length that is passed for it.
pub record Library (W : Type 0) : Type 0 where
  pub open_storage_provider : Utf16 → ℕ → Ask W (ℕ × Handle)
  pub open_key : Handle → Utf16 → ℕ → ℕ → Ask W (ℕ × Handle)
  pub create_persisted_key : Handle → Utf16 → Option Utf16 → ℕ → ℕ → Ask W (ℕ × Handle)
  pub set_property : Handle → Utf16 → Bytes → ℕ → ℕ → Ask W ℕ
  pub finalize_key : Handle → ℕ → Ask W ℕ
  pub delete_key : Handle → ℕ → Ask W ℕ
  pub free_object : Handle → Ask W ℕ
  -- `NCryptEncrypt` and `NCryptDecrypt`: the input and its length, the output buffer and its length,
  -- and the flags; what is then in the buffer, and the length that is written
  pub encrypt : Handle → Bytes → ℕ → Bytes → ℕ → ℕ → Ask W (ℕ × (Bytes × ℕ))
  pub decrypt : Handle → Bytes → ℕ → Bytes → ℕ → ℕ → Ask W (ℕ × (Bytes × ℕ))

-- `syscall.UTF16FromString`, and how the machine lays numbers out.
pub record Layout : Type 0 where
  pub utf16 : Bytes → Result Utf16
  pub uint32_bytes : ℕ → Bytes
  pub uintptr_bytes : ℕ → Bytes
  pub utf16_bytes : Utf16 → Bytes

-- `uint32(n)`.
abbrev pub uint32 : ℕ → ℕ
uint32 n = n % 2 ^ 32

-- A length is not negative.
pub check_dword_length : Bytes → ℕ → Result (Unit {0})
check_dword_length name n =
    if ltb (2 ^ 32 - 1) n then err (message "%s too large for NCrypt call: %d bytes") else ok tt

zeros : ℕ → Bytes
zeros zero = []
zeros (suc n) = 0 ∷ zeros n

-- `output[:outputLen]`, which panics beyond the slice's capacity.
cut : ℕ → Bytes → Result Bytes
cut n output =
    if ltb (length output) n
    then err (message "slice bounds out of range")
    else ok (first_bytes n output)

module _ {W : Type 0} where
  -- `winHelloNCryptCall`, for a function that writes nothing and for one that does.
  ncrypt_call : Ask W ℕ → Exec W Unit
  ncrypt_call proc w = let (status, w') = proc w in (ncrypt_error status, w')

  ncrypt_result : {A : Type 0} → Ask W (ℕ × A) → Exec W A
  ncrypt_result proc w = let (p, w') = proc w in (do lift (ncrypt_error p.0); pure p.1) w'

  -- `winHelloNCryptCrypt`: the first call asks for the length of the output.
  pub ncrypt_crypt :
      (Handle → Bytes → ℕ → Bytes → ℕ → ℕ → Ask W (ℕ × (Bytes × ℕ)))
      → Handle
      → Bytes
      → ℕ
      → Exec W Bytes
  unfolding ncrypt_result cut zeros
  ncrypt_crypt proc key input flags =
      if is_empty input then raise (sentinel err_ncrypt_empty_input) else do
        lift (check_dword_length (codes "input") (length input))
        asked ← ncrypt_result (proc key input (uint32 (length input)) [] 0 flags)
        lift (check_dword_length (codes "output") (length (zeros (uint32 asked.1))))
        written ← ncrypt_result (
            proc key input (uint32 (length input)) (zeros (uint32 asked.1))
              (uint32 (length (zeros (uint32 asked.1)))) flags)
        lift (cut (uint32 written.1) written.0)

  module _ (library : Library W) (layout : Layout) where
    text : Bytes → Exec W Utf16
    text s = lift (layout.utf16 s)

    pub ncrypt_open_storage_provider : Bytes → Exec W Handle
    unfolding text ncrypt_result
    ncrypt_open_storage_provider provider_name = do
      name ← on_error (wrapf "encode provider name: %w") (text provider_name)
      ncrypt_result (library.open_storage_provider name 0)

    pub ncrypt_open_key : Handle → Bytes → ℕ → ℕ → Exec W Handle
    unfolding text ncrypt_result
    ncrypt_open_key provider key_name legacy_key_spec flags = do
      name ← on_error (wrapf "encode key name: %w") (text key_name)
      ncrypt_result (library.open_key provider name legacy_key_spec flags)

    -- No name at all where the key name is empty.
    key_name_pointer : Bytes → Exec W (Option Utf16)
    unfolding text
    key_name_pointer key_name =
        if is_empty key_name
        then pure none
        else do name ← on_error (wrapf "encode key name: %w") (text key_name); pure (some name)

    pub ncrypt_create_persisted_key : Handle → Bytes → Bytes → ℕ → ℕ → Exec W Handle
    unfolding text ncrypt_result key_name_pointer
    ncrypt_create_persisted_key provider algorithm key_name legacy_key_spec flags = do
      algorithm_name ← on_error (wrapf "encode algorithm %q: %w") (text algorithm)
      name ← key_name_pointer key_name
      ncrypt_result
          (library.create_persisted_key provider algorithm_name name legacy_key_spec flags)

    pub ncrypt_set_property : Handle → Bytes → Bytes → ℕ → Exec W Unit
    unfolding text ncrypt_call
    ncrypt_set_property handle property value flags = do
      name ← on_error (wrapf "encode property %q: %w") (text property)
      lift (check_dword_length property (length value))
      on_error (wrapf "set property %q: %w")
          (ncrypt_call (library.set_property handle name value (uint32 (length value)) flags))

    pub ncrypt_set_uint32_property : Handle → Bytes → ℕ → Exec W Unit
    ncrypt_set_uint32_property handle property value =
        ncrypt_set_property handle property (layout.uint32_bytes value) 0

    pub ncrypt_set_string_property : Handle → Bytes → Bytes → Exec W Unit
    unfolding text
    ncrypt_set_string_property handle property value = do
      units ← on_error (wrapf "encode %s: %w") (text value)
      ncrypt_set_property handle property (layout.utf16_bytes units) 0

    pub ncrypt_set_handle_property : Handle → Bytes → ℕ → Exec W Unit
    ncrypt_set_handle_property handle property value =
        ncrypt_set_property handle property (layout.uintptr_bytes value) 0

    pub ncrypt_finalize_key : Handle → ℕ → Exec W Unit
    unfolding ncrypt_call
    ncrypt_finalize_key key flags = ncrypt_call (library.finalize_key key flags)

    ncrypt_delete_key : Handle → ℕ → Exec W Unit
    unfolding ncrypt_call
    ncrypt_delete_key key flags = ncrypt_call (library.delete_key key flags)

    pub ncrypt_free_object : Handle → Exec W Unit
    unfolding ncrypt_call
    ncrypt_free_object handle =
        if handle == 0 then pure tt else ncrypt_call (library.free_object handle)

    -- The values of the function variables; passport.go and wrap.go pass 0 for what is left out.
    pub system_ncrypt : NCrypt W
    system_ncrypt = record {
      open_storage_provider = ncrypt_open_storage_provider;
      open_key = λ provider name. ncrypt_open_key provider name 0 0;
      create_persisted_key =
          λ provider algorithm name. ncrypt_create_persisted_key provider algorithm name 0 0;
      set_uint32_property = ncrypt_set_uint32_property;
      set_string_property = ncrypt_set_string_property;
      set_handle_property = ncrypt_set_handle_property;
      finalize_key = λ key. ncrypt_finalize_key key 0;
      free_object = ncrypt_free_object;
      encrypt = ncrypt_crypt library.encrypt;
      decrypt = ncrypt_crypt library.decrypt;
    }
