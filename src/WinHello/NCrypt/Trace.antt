-- ===== src/WinHello/NCrypt/Trace.antt =====
-- NCrypt as an unknown environment that answers each call, as it likes, from the calls before it.
-- The state is the history of calls and answers, the latest first.
use keyring.Prelude.{ℕ, Bytes, List, [], ◌∷◌, ◌+◌, ◌==◌, nat_eq, if◌then◌else◌}
use keyring.Exec.{Exec, Result, ok, err}
use keyring.WinHello.NCrypt.{Handle, NCrypt}

pub data Event : Type 0 where
  provider_opened : Bytes → Result Handle → Event
  key_opened : Handle → Bytes → Result Handle → Event
  key_created : Handle → Bytes → Bytes → Result Handle → Event
  uint32_set : Handle → Bytes → ℕ → Result (Unit {0}) → Event
  string_set : Handle → Bytes → Bytes → Result (Unit {0}) → Event
  handle_set : Handle → Bytes → ℕ → Result (Unit {0}) → Event
  key_finalized : Handle → Result (Unit {0}) → Event
  object_freed : Handle → Result (Unit {0}) → Event
  encrypted : Handle → Bytes → ℕ → Result Bytes → Event
  decrypted : Handle → Bytes → ℕ → Result Bytes → Event

abbrev pub Trace : Type 0
Trace = List Event

pub record Environment : Type 0 where
  pub provider : Trace → Bytes → Result Handle
  pub key : Trace → Handle → Bytes → Result Handle
  pub created : Trace → Handle → Bytes → Bytes → Result Handle
  pub uint32 : Trace → Handle → Bytes → ℕ → Result (Unit {0})
  pub string : Trace → Handle → Bytes → Bytes → Result (Unit {0})
  pub window : Trace → Handle → Bytes → ℕ → Result (Unit {0})
  pub finalized : Trace → Handle → Result (Unit {0})
  pub freed : Trace → Handle → Result (Unit {0})
  pub cipher : Trace → Handle → Bytes → ℕ → Result Bytes
  pub plain : Trace → Handle → Bytes → ℕ → Result Bytes

record_event : {A : Type 0} → (Trace → Result A) → (Result A → Event) → Exec Trace A
record_event answer event t = let r = answer t in (r, event r ∷ t)

unfoldable pub traced : Environment → NCrypt Trace
unfolding record_event
traced e = record {
  open_storage_provider = λ n. record_event (λ t. e.provider t n) (provider_opened n);
  open_key = λ h n. record_event (λ t. e.key t h n) (key_opened h n);
  create_persisted_key = λ h a n. record_event (λ t. e.created t h a n) (key_created h a n);
  set_uint32_property = λ h p v. record_event (λ t. e.uint32 t h p v) (uint32_set h p v);
  set_string_property = λ h p v. record_event (λ t. e.string t h p v) (string_set h p v);
  set_handle_property = λ h p v. record_event (λ t. e.window t h p v) (handle_set h p v);
  finalize_key = λ h. record_event (λ t. e.finalized t h) (key_finalized h);
  free_object = λ h. record_event (λ t. e.freed t h) (object_freed h);
  encrypt = λ h x f. record_event (λ t. e.cipher t h x f) (encrypted h x f);
  decrypt = λ h x f. record_event (λ t. e.plain t h x f) (decrypted h x f);
}

-- How often the handle was handed out, and how often it was given to `NCryptFreeObject`.
abbrev gives : Handle → Result Handle → ℕ
gives k (ok h) = if h == k then 1 else 0
gives k (err e) = 0

abbrev opened_by : Handle → Event → ℕ
opened_by k (provider_opened n r) = gives k r
opened_by k (key_opened h n r) = gives k r
opened_by k (key_created h a n r) = gives k r
opened_by k other = 0

abbrev freed_by : Handle → Event → ℕ
freed_by k (object_freed h r) = if h == k then 1 else 0
freed_by k other = 0

abbrev pub opens : Handle → Trace → ℕ
opens k [] = 0
opens k (e ∷ t) = opened_by k e + opens k t

abbrev pub frees : Handle → Trace → ℕ
frees k [] = 0
frees k (e ∷ t) = freed_by k e + frees k t
