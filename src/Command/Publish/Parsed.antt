-- ===== src/Command/Publish/Parsed.antt =====
-- What `publish_parse` of src/client/cli.rs makes of the arguments, and of which.
use rust_mq.Base.{
  ◌≡◌, subst, ◌⊎◌, ◌↔◌, refl, false, not, List, Option, none, some, Bool-cases, inl, inr, arith,
}
use rust_mq.Outcome.{ok, done}
use rust_mq.Mqtt3.Bytes.{Text, codes}
use rust_mq.Mqtt3.Protocol.{mqtt}
use rust_mq.Mqtt3.Qos.{at_least_once}
use rust_mq.Command.Getopts.{Matches, Parser, HasValues}
use rust_mq.Command.Tls.{SslMethod, Openssl, ssl_context}
use rust_mq.Command.Settings.{Exit, unwrap_or}
use rust_mq.Command.Settings.Laws.{
  Exact, IsGiven, IsNumber, IsVersion, IsMethod, IsLevel, qos_or-Exact, port_of-Exact,
  keep_alive_of-Exact, protocol_of-Exact, ssl_method_of-Exact, and_then-elim, Exact-elim,
  Exact-intro, done-parts,
}
use rust_mq.Command.Publish.{
  PublishCommand, default, opts, topic_of, one_payload, publish_of, unless_help, publish_parse,
}

-- The command that the matches describe, option by option; the context of TLS is what openssl makes in
-- the state `w`, which it leaves in `w'`.
pub record Describes {W C : Type 0} (ssl : Openssl W C) (m : Matches) (cmd : PublishCommand C)
    (w w' : W) : Type 0 where
  pub no_help : m.opt_present "h" ≡ false
  pub topic : m.opt_str "t" ≡ some cmd.topic
  pub message : m.opt_str "m" ≡ cmd.message
  pub file : m.opt_str "f" ≡ cmd.file
  pub one_of_them : (cmd.message ≡ none) ⊎ (cmd.file ≡ none)
  pub qos : IsGiven IsLevel at_least_once (m.opt_str "q") cmd.qos
  pub retain : m.opt_present "r" ≡ cmd.retain
  pub address : unwrap_or (m.opt_str "a") (codes "localhost") ≡ cmd.address
  pub port : IsGiven IsNumber 1883 (m.opt_str "p") cmd.port
  pub keep_alive : IsGiven IsNumber 30 (m.opt_str "k") cmd.keep_alive
  pub debug : m.opt_present "d" ≡ cmd.debug
  pub protocol : IsGiven IsVersion (mqtt 4) (m.opt_str "v") cmd.protocol
  pub client_id : m.opt_str "i" ≡ cmd.client_id
  pub username : m.opt_str "u" ≡ cmd.username
  pub password : m.opt_str "P" ≡ cmd.password
  pub context :
      (method : Option SslMethod) × IsGiven IsMethod none (m.opt_str "tls") method
      × (ssl_context ssl {E = Exit}
            (not (m.opt_present "no-verify"))
            (m.opt_str "cafile")
            (m.opt_str "key")
            (m.opt_str "cert")
            method
            w
          ≡ done cmd.ssl_context w')

module _ {W C : Type 0} (ssl : Openssl W C) where
  topic_of-Exact : (o : Option Text) → Exact (λ topic. o ≡ some topic) (topic_of ssl o)
  topic_of-Exact none topic s s' = ground arith
  topic_of-Exact (some t) topic s s' = (ground arith, λ (same, e). cc)

  one_payload-Exact :
      (message file : Option Text)
      → Exact (λ _. (message ≡ none) ⊎ (file ≡ none)) (one_payload ssl message file)
  one_payload-Exact none file a s s' = (λ h. (cc, inl refl), λ (same, h). cc)
  one_payload-Exact (some message) none a s s' = (λ h. (cc, inr refl), λ (same, h). cc)
  one_payload-Exact (some message) (some file) a s s' = ground arith

  publish_of_sound :
      (m : Matches) (cmd : PublishCommand C) (w w' : W)
      → HasValues m
      → m.opt_present "h" ≡ false
      → publish_of ssl m w ≡ done cmd w'
      → Describes ssl m cmd w w'
  unfolding publish_of default
  publish_of_sound m cmd w w' (p, k, v, tls) no_help =
      Exact-elim _ cmd _ _ w w' (topic_of-Exact (m.opt_str "t")) λ topic topic_h.
        Exact-elim _ cmd _ _ w w' (one_payload-Exact (m.opt_str "m") (m.opt_str "f")) λ _ one.
          Exact-elim _ cmd _ _ w w' (qos_or-Exact at_least_once (m.opt_str "q")) λ qos qos_h.
            Exact-elim _ cmd _ _ w w' (port_of-Exact m 1883 p) λ port port_h.
              Exact-elim _ cmd _ _ w w' (keep_alive_of-Exact m 30 k) λ keep_alive keep_h.
                Exact-elim _ cmd _ _ w w' (protocol_of-Exact m (mqtt 4) v) λ protocol protocol_h.
                  Exact-elim _ cmd _ _ w w' (ssl_method_of-Exact m tls) λ method method_h.
                    and_then-elim _ cmd
                      (ssl_context ssl (not (m.opt_present "no-verify")) (m.opt_str "cafile")
                        (m.opt_str "key") (m.opt_str "cert") method w)
                      w'
                      λ context w₁ made end.
                        let (same, stays) = done-parts end in
                        subst (λ c. Describes ssl m c w w') same
                          (record {
                            no_help = no_help;
                            topic = topic_h;
                            message = refl;
                            file = refl;
                            one_of_them = one;
                            qos = qos_h;
                            retain = refl;
                            address = refl;
                            port = port_h;
                            keep_alive = keep_h;
                            debug = refl;
                            protocol = protocol_h;
                            client_id = refl;
                            username = refl;
                            password = refl;
                            context = (method, method_h, rw stays at made);
                          })

  publish_of_complete :
      (m : Matches) (cmd : PublishCommand C) (w w' : W)
      → HasValues m
      → Describes ssl m cmd w w'
      → publish_of ssl m w ≡ done cmd w'
  unfolding publish_of default
  publish_of_complete m cmd w w' (p, k, v, tls) d =
      let (method, method_h, made) = d.context in
      Exact-intro _ cmd _ _ w w' (topic_of-Exact (m.opt_str "t")) cmd.topic d.topic (
        Exact-intro _ cmd _ _ w w' (one_payload-Exact (m.opt_str "m") (m.opt_str "f")) tt
          (rw (d.message, d.file) d.one_of_them)
          (Exact-intro _ cmd _ _ w w' (qos_or-Exact at_least_once (m.opt_str "q")) cmd.qos d.qos (
            Exact-intro _ cmd _ _ w w' (port_of-Exact m 1883 p) cmd.port d.port (
              Exact-intro _ cmd _ _ w w' (keep_alive_of-Exact m 30 k) cmd.keep_alive d.keep_alive (
                Exact-intro _ cmd _ _ w w' (protocol_of-Exact m (mqtt 4) v) cmd.protocol d.protocol
                  (Exact-intro _ cmd _ _ w w' (ssl_method_of-Exact m tls) method method_h (
                    rw
                      (
                        made, d.message, d.file, d.retain, d.address, d.debug, d.client_id,
                        d.username, d.password,
                      )
                      refl)))))))

  unless_help-Describes :
      (m : Matches) (cmd : PublishCommand C) (w w' : W)
      → HasValues m
      → (unless_help ssl (ok m) w ≡ done cmd w') ↔ Describes ssl m cmd w w'
  unless_help-Describes m cmd w w' values = elim (Bool-cases (m.opt_present "h")) [
    | inl help ↦ (λ h. let h' = rw help at h in cc, λ d. let h' = d.no_help in cc)
    | inr no_help ↦
        rw no_help
          (publish_of_sound m cmd w w' values no_help, publish_of_complete m cmd w w' values)
  ]

  -- The command line gives a publish command just where the arguments match and the command is what they
  -- describe: its topic is there, its message and its file are not both there, and each other option
  -- has the value that it stands for, a number of 16 bits, a QoS, a version of the protocol or of TLS,
  -- or its default where it is not given. Options whose value is unwrapped are present just if they
  -- have a value.
  pub publish_parse-Describes :
      (parser : Parser) (arguments : List Text) (m : Matches) (cmd : PublishCommand C) (w w' : W)
      → parser opts arguments ≡ ok m
      → HasValues m
      → (publish_parse ssl parser arguments w ≡ done cmd w') ↔ Describes ssl m cmd w w'
  unfolding publish_parse
  publish_parse-Describes parser arguments m cmd w w' matched values =
      rw matched (unless_help-Describes m cmd w w' values)
