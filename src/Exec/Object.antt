-- ===== src/Exec/Object.antt =====
-- A Go object whose fields a method changes through its pointer, beside the world.
use keyring.Exec.{Exec, ok}

pub record Object (F W : Type 0) : Type 0 where
  pub fields : F
  pub world : W

module _ {F W : Type 0} where
  -- An action of the world alone.
  abbrev pub outside : {A : Type 0} → Exec W A → Exec (Object F W) A
  outside m o = let (r, w) = m o.world in (r, record o { world = w })

  -- Reading the fields, and replacing them.
  abbrev pub get_fields : Exec (Object F W) F
  get_fields o = (ok o.fields, o)

  abbrev pub put_fields : F → Exec (Object F W) Unit
  put_fields f o = (ok tt, record o { fields = f })
