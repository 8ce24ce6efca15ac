-- ===== src/Traces.antt =====
-- Callers of a keyring (keyring.go): operations one behind the other, and what they return.
use keyring.Prelude.{Bytes, List, [], ◌∷◌}
use keyring.Exec.{Result}
use keyring.Api.{Item, Keyring}

pub data Call : Type 0 where
  get_call : Bytes → Call
  set_call : Item → Call
  remove_call : Bytes → Call
  keys_call : Call

pub data Answer : Type 0 where
  item_answer : Result Item → Answer
  done_answer : Result (Unit {0}) → Answer
  keys_answer : Result (List Bytes) → Answer

module _ {W : Type 0} (ring : Keyring W) where
  abbrev pub perform : Call → W → Answer × W
  perform (get_call key) w = let (r, v) = ring.get key w in (item_answer r, v)
  perform (set_call item) w = let (r, v) = ring.set item w in (done_answer r, v)
  perform (remove_call key) w = let (r, v) = ring.remove key w in (done_answer r, v)
  perform keys_call w = let (r, v) = ring.keys w in (keys_answer r, v)

  abbrev pub perform_all : List Call → W → List Answer × W
  perform_all [] w = ([], w)
  perform_all (c ∷ calls) w =
      let (a, v) = perform c w in let (answers, u) = perform_all calls v in (a ∷ answers, u)
