-- ===== src/Netopt/Ssl.antt =====
-- The constructors of `SslContext` of netopt/src/ssl.rs. `X` is a context of the package openssl, `W` the
-- state behind it (the files of keys and certificates) and `E` its error.
use rust_mq.Outcome.{Outcome, failed, panicked, Action, ◌>>=◌, pure}
use rust_mq.Mqtt3.Bytes.{Text, codes}

pub data SslMethod : Type 0 where
  sslv23 tlsv1_2 : SslMethod

-- `SSL_VERIFY_NONE`, and `SSL_VERIFY_PEER | SSL_VERIFY_FAIL_IF_NO_PEER_CERT`.
pub data Verify : Type 0 where
  verify_none verify_peer_or_fail : Verify

-- `ssl::SslContext`. A context that a call changes is the one it gives back.
pub record Contexts (E W X : Type 0) : Type 0 where
  pub new : SslMethod → Action E W X
  pub set_cipher_list : Text → X → Action E W X
  pub set_certificate_file : Text → X → Action E W X
  pub set_private_key_file : Text → X → Action E W X
  pub set_ca_file : Text → X → Action E W X
  pub set_verify : Verify → X → X

module _ {E W X : Type 0} (ssl : Contexts E W X) where
  abbrev unwrapped : Outcome E W X → Outcome E W X
  unwrapped (failed e w) = panicked
  unwrapped o = o

  unfoldable pub default : Action E W X
  default w = unwrapped (ssl.new tlsv1_2 w)

  unfoldable pub with_cert_and_key : Text → Text → Action E W X
  with_cert_and_key cert key = do
    ctx ← ssl.new sslv23
    ctx ← ssl.set_cipher_list (codes "DEFAULT") ctx
    ctx ← ssl.set_certificate_file cert ctx
    ctx ← ssl.set_private_key_file key ctx
    pure (ssl.set_verify verify_none ctx)

  unfoldable pub with_cert_and_key_and_ca : Text → Text → Text → Action E W X
  with_cert_and_key_and_ca cert key ca = do
    ctx ← ssl.new sslv23
    ctx ← ssl.set_cipher_list (codes "DEFAULT") ctx
    ctx ← ssl.set_certificate_file cert ctx
    ctx ← ssl.set_private_key_file key ctx
    ctx ← ssl.set_ca_file ca ctx
    pure (ssl.set_verify verify_peer_or_fail ctx)
