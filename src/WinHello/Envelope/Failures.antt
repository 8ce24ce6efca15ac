-- ===== src/WinHello/Envelope/Failures.antt =====
-- The errors of parsing an envelope (winhello/envelope.go).
use keyring.Prelude.{Bytes, arith}
use keyring.Errors.{is}
use keyring.Exec.{Result, ok, err}
use keyring.Exec.Pure.{◌>>=◌, ◌>>◌}
use keyring.WinHello.Errors.{IsOtherResult}
use keyring.WinHello.Envelope.{Envelope, EnvelopeCodec, parse_envelope, validate}

validate-IsOtherResult : (e : Envelope) → IsOtherResult (validate e)
unfolding validate is
validate-IsOtherResult e = ground arith

then_envelope : (r : Result (Unit {0})) (e : Envelope) → IsOtherResult r → IsOtherResult (r >> ok e)
then_envelope (ok u) e h = tt
then_envelope (err x) e h = h

parsed :
    (r : Result Envelope)
    → IsOtherResult r
    → IsOtherResult (r >>= λ envelope. validate envelope >> ok envelope)
parsed (ok e) h = then_envelope (validate e) e (validate-IsOtherResult e)
parsed (err x) h = h

pub parse_envelope-IsOtherResult :
    (json : EnvelopeCodec) (encoded : Bytes)
    → IsOtherResult (json.decode encoded)
    → IsOtherResult (parse_envelope json encoded)
unfolding parse_envelope
parse_envelope-IsOtherResult json encoded h = parsed (json.decode encoded) h
