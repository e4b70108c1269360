-- ===== src/Command/Tls.antt =====
-- The context of TLS as src/client/cli.rs makes it of the options. `C` is a context of the package
-- openssl, `W` is the state behind it (the files of keys and certificates), and the errors of its
-- calls, which are unwrapped, are left out.
use rust_mq.Base.{Bool, Option, none, some}
use rust_mq.Outcome.{Outcome, done, panicked, Action, ◌>>=◌, pure}
use rust_mq.Mqtt3.Bytes.{Text}

pub data SslMethod : Type 0 where
  tlsv1 tlsv1_1 tlsv1_2 : SslMethod

-- `none` where the call fails. A context that a call changes is the one it gives back.
pub record Openssl (W C : Type 0) : Type 0 where
  pub new : SslMethod → W → Option (C × W)
  pub set_verify : Bool → C → C
  pub set_ca_file : Text → C → W → Option (C × W)
  pub set_private_key_file : Text → C → W → Option (C × W)
  pub set_certificate_file : Text → C → W → Option (C × W)

module _ {E W : Type 0} where
  abbrev pub unwrapped : {A : Type 0} → Option (A × W) → Outcome E W A
  unwrapped none = panicked
  unwrapped (some (a, w)) = done a w

  abbrev pub if_given : {C : Type 0} → Option Text → (Text → C → Action E W C) → C → Action E W C
  if_given none call context = pure context
  if_given (some path) call context = call path context

module _ {W C : Type 0} (ssl : Openssl W C) where
  -- The closure of `ssl_method.map`.
  unfoldable pub context_of :
      {E : Type 0} → Bool → Option Text → Option Text → Option Text → SslMethod → Action E W C
  context_of verify cafile key cert method = do
    context ← λ w. unwrapped (ssl.new method w)
    let context = ssl.set_verify verify context
    context ← if_given cafile (λ path c w. unwrapped (ssl.set_ca_file path c w)) context
    context ← if_given key (λ path c w. unwrapped (ssl.set_private_key_file path c w)) context
    if_given cert (λ path c w. unwrapped (ssl.set_certificate_file path c w)) context

  unfoldable pub ssl_context :
      {E : Type 0}
      → Bool
      → Option Text
      → Option Text
      → Option Text
      → Option SslMethod
      → Action E W (Option C)
  unfolding context_of
  ssl_context verify cafile key cert none = pure none
  ssl_context verify cafile key cert (some method) = do
    context ← context_of verify cafile key cert method
    pure (some context)
