-- ===== src/WinHello/Envelope/Laws.antt =====
-- What a parsed or marshalled envelope (winhello/envelope.go) is known to be.
use keyring.Prelude.{◌≡◌, refl, ◌↔◌, Bytes, Bool, list_eq, nat_eq, arith, subst, ap, ◌∙◌}
use keyring.Prelude.Int.{ℤ, pos, negsuc}
use keyring.Exec.{ok}
use keyring.Exec.Pure.{>>=-eq-ok}
use keyring.WinHello.Envelope.{
  Envelope, EnvelopeCodec, IsValid, validate, is_current, marshal, parse_envelope,
}

current : (v : ℤ) → is_current v ≡ Bool.true → v ≡ pos 1
unfolding is_current
current (pos n) h = ground arith
current (negsuc n) h = cc

is_current-one : (v : ℤ) → v ≡ pos 1 → is_current v ≡ Bool.true
unfolding is_current
is_current-one (pos n) h = ground arith
is_current-one (negsuc n) h = ground arith

-- `validate` accepts exactly the valid envelopes.
pub validate_iff : (e : Envelope) → (validate e ≡ ok tt) ↔ IsValid e
unfolding validate
validate_iff e = (
  λ h. record {
    version = ground (arith, current e.version);
    provider = ground arith;
    key_name = ground arith;
    content_alg = ground arith;
    wrap_alg = ground arith;
    nonce = ground arith;
    wrapped_cek = ground arith;
    ciphertext = ground arith;
    aad = ground arith;
  },
  λ v. ground (arith, is_current-one e.version),
)

module _ (json : EnvelopeCodec) where
  -- A parsed envelope is what the JSON said, and valid.
  pub parse_envelope-eq-ok :
      (encoded : Bytes) (e : Envelope)
      → parse_envelope json encoded ≡ ok e
      → (json.decode encoded ≡ ok e) × IsValid e
  unfolding parse_envelope
  parse_envelope-eq-ok encoded e h =
      let (d, decoded, rest) = >>=-eq-ok (json.decode encoded) _ h in
      let (u, valid, same) = >>=-eq-ok (validate d) _ rest in
      let eq : d ≡ e = ground arith in
      (decoded ∙ ap ok eq, subst IsValid eq ((validate_iff d).0 valid))

  -- Where JSON reads back what it wrote of an envelope, so does the parser of what `marshal`
  -- accepted.
  pub parse_envelope-marshal :
      (e : Envelope) (encoded : Bytes)
      → (json.encode e ≡ ok encoded → json.decode encoded ≡ ok e)
      → marshal json e ≡ ok encoded
      → parse_envelope json encoded ≡ ok e
  unfolding marshal parse_envelope
  parse_envelope-marshal e encoded back h =
      let (u, valid, written) = >>=-eq-ok (validate e) _ h in rw (back written) (rw valid refl)
