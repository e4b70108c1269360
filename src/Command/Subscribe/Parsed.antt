-- ===== src/Command/Subscribe/Parsed.antt =====
-- What `subscribe_parse` of src/client/cli.rs makes of the arguments, and of which.
use rust_mq.Base.{
  ◌≡◌, ◌↔◌, refl, sym, subst, false, not, List, [], ◌∷◌, map, Option, none, some, Bool, Bool-cases,
  inl, inr,
}
use rust_mq.Outcome.{ok, done}
use rust_mq.Mqtt3.Bytes.{Text, codes}
use rust_mq.Mqtt3.Protocol.{mqtt}
use rust_mq.Mqtt3.Qos.{Qos, at_most_once, exactly_once}
use rust_mq.Mqtt3.Packet.{LastWill, SubscribeTopic}
use rust_mq.Command.Getopts.{Matches, Parser, HasValues}
use rust_mq.Command.Tls.{SslMethod, Openssl, ssl_context}
use rust_mq.Command.Settings.{Exit, unwrap_or}
use rust_mq.Command.Settings.Laws.{
  Exact, IsGiven, IsNumber, IsVersion, IsMethod, IsLevel, qos_or-Exact, port_of-Exact,
  keep_alive_of-Exact, protocol_of-Exact, ssl_method_of-Exact, and_then-elim, Exact-elim,
  Exact-intro, done-parts,
}
use rust_mq.Command.Subscribe.{
  SubscribeCommand, default, opts, topics_of, last_will_of, subscribe_of, unless_help,
  subscribe_parse,
}

-- The topics of the arguments, or all topics.
abbrev pub asked_topics : List Text → List Text
asked_topics [] = codes "#" ∷ []
asked_topics (topic ∷ free) = topic ∷ free

abbrev pub with_qos : Qos → List Text → List SubscribeTopic
with_qos q names = map (λ name. record { topic_path = name; qos = q }) names

-- The last will that the values of its options describe: one with the topic and the message, or none
-- without a topic for it.
abbrev pub IsWillOf : Option Text → Option Text → Option Text → Bool → Option LastWill → Type 0
IsWillOf topic message qos retain none = topic ≡ none
IsWillOf topic message qos retain (some will) =
    (topic ≡ some will.topic)
    × (message ≡ some will.message)
    × IsGiven IsLevel at_most_once qos will.qos
    × (retain ≡ will.retain)

-- The command that the matches describe, option by option; the context of TLS is what openssl makes in
-- the state `w`, which it leaves in `w'`. The options for a log file, a limit and filters are not
-- there yet.
pub record Describes {W C : Type 0} (ssl : Openssl W C) (m : Matches) (cmd : SubscribeCommand C)
    (w w' : W) : Type 0 where
  pub no_help : m.opt_present "h" ≡ false
  pub topics :
      (q : Qos) × IsGiven IsLevel exactly_once (m.opt_str "q") q
      × (with_qos q (asked_topics m.free) ≡ cmd.topics)
  pub address : unwrap_or (m.opt_str "a") (codes "localhost") ≡ cmd.address
  pub port : IsGiven IsNumber 1883 (m.opt_str "p") cmd.port
  pub clean_session : m.opt_present "c" ≡ cmd.clean_session
  pub last_will :
      IsWillOf
        (m.opt_str "will-topic")
        (m.opt_str "will-message")
        (m.opt_str "will-qos")
        (m.opt_present "will-retain")
        cmd.last_will
  pub keep_alive : IsGiven IsNumber 30 (m.opt_str "k") cmd.keep_alive
  pub log_file : none ≡ cmd.log_file
  pub debug : m.opt_present "d" ≡ cmd.debug
  pub reconnect : m.opt_present "r" ≡ cmd.reconnect
  pub protocol : IsGiven IsVersion (mqtt 4) (m.opt_str "v") cmd.protocol
  pub silence : m.opt_present "s" ≡ cmd.silence
  pub client_id : m.opt_str "i" ≡ cmd.client_id
  pub username : m.opt_str "u" ≡ cmd.username
  pub password : m.opt_str "P" ≡ cmd.password
  pub limit : none ≡ cmd.limit
  pub retain : false ≡ cmd.retain
  pub topic_filters : [] ≡ cmd.topic_filters
  pub context :
      (method : Option SslMethod) × IsGiven IsMethod none (m.opt_str "tls") method
      × (ssl_context ssl {E = Exit}
            (not (m.opt_present "no-verify"))
            (m.opt_str "cafile")
            (m.opt_str "key")
            (m.opt_str "cert")
            method
            w
          ≡ done cmd.ssl_context w')

topics_of-with_qos :
    (free : List Text) (q q' : Qos)
    → topics_of free (record { topic_path = codes "#"; qos = q' } ∷ []) q
      ≡ with_qos q (asked_topics free)
unfolding topics_of
topics_of-with_qos [] q q' = refl
topics_of-with_qos (topic ∷ free) q q' = refl

last_will_of-Exact :
    {W : Type 0} (topic message qos : Option Text) (retain : Bool)
    → Exact {S = W} (IsWillOf topic message qos retain) (last_will_of topic message qos retain)
unfolding last_will_of
last_will_of-Exact none none qos retain none s s' = (λ h. (cc, refl), λ (same, h). cc)
last_will_of-Exact none none qos retain (some will) s s' = (λ h. cc, λ (same, h). cc)
last_will_of-Exact none (some message) qos retain none s s' = (λ h. (cc, refl), λ (same, h). cc)
last_will_of-Exact none (some message) qos retain (some will) s s' = (λ h. cc, λ (same, h). cc)
last_will_of-Exact (some topic) none qos retain none s s' = (λ h. cc, λ (same, h). cc)
last_will_of-Exact (some topic) none qos retain (some will) s s' = (λ h. cc, λ (same, h). cc)
last_will_of-Exact (some topic) (some message) qos retain none s s' =
    (Exact-elim _ none _ _ s s' (qos_or-Exact at_most_once qos) λ q q_h end. cc, λ (same, h). cc)
last_will_of-Exact (some topic) (some message) qos retain (some will) s s' = (
  Exact-elim _ (some will) _ _ s s' (qos_or-Exact at_most_once qos) λ q q_h end.
      let (same, stays) = done-parts end in
      (
        sym stays,
        subst (IsWillOf (some topic) (some message) qos retain) same (refl, refl, q_h, refl),
      ),
  λ (stays, (t, n, q_h, r)).
      Exact-intro _ (some will) _ _ s s' (qos_or-Exact at_most_once qos) will.qos q_h (
        let t' : topic ≡ will.topic = cc in
        let n' : message ≡ will.message = cc in rw (t', n', r, stays) refl),
)

module _ {W C : Type 0} (ssl : Openssl W C) where
  subscribe_of_sound :
      (m : Matches) (cmd : SubscribeCommand C) (w w' : W)
      → HasValues m
      → m.opt_present "h" ≡ false
      → subscribe_of ssl m w ≡ done cmd w'
      → Describes ssl m cmd w w'
  unfolding subscribe_of default
  subscribe_of_sound m cmd w w' (p, k, v, tls) no_help =
      Exact-elim _ cmd _ _ w w' (port_of-Exact m 1883 p) λ port port_h.
        Exact-elim _ cmd _ _ w w' (keep_alive_of-Exact m 30 k) λ keep_alive keep_h.
          Exact-elim _ cmd _ _ w w' (protocol_of-Exact m (mqtt 4) v) λ protocol protocol_h.
            Exact-elim _ cmd _ _ w w'
              (last_will_of-Exact (m.opt_str "will-topic") (m.opt_str "will-message")
                (m.opt_str "will-qos") (m.opt_present "will-retain"))
              λ will will_h.
                Exact-elim _ cmd _ _ w w' (ssl_method_of-Exact m tls) λ method method_h.
                  and_then-elim _ cmd
                    (ssl_context ssl (not (m.opt_present "no-verify")) (m.opt_str "cafile")
                      (m.opt_str "key") (m.opt_str "cert") method w)
                    w'
                    λ context w₁ made.
                      Exact-elim _ cmd _ _ w₁ w' (qos_or-Exact exactly_once (m.opt_str "q"))
                        λ qos qos_h end.
                          let (same, stays) = done-parts end in
                          subst (λ c. Describes ssl m c w w') same
                            (record {
                              no_help = no_help;
                              topics =
                                  (qos, qos_h, sym (topics_of-with_qos m.free qos exactly_once));
                              address = refl;
                              port = port_h;
                              clean_session = refl;
                              last_will = will_h;
                              keep_alive = keep_h;
                              log_file = refl;
                              debug = refl;
                              reconnect = refl;
                              protocol = protocol_h;
                              silence = refl;
                              client_id = refl;
                              username = refl;
                              password = refl;
                              limit = refl;
                              retain = refl;
                              topic_filters = refl;
                              context = (method, method_h, rw stays at made);
                            })

  subscribe_of_complete :
      (m : Matches) (cmd : SubscribeCommand C) (w w' : W)
      → HasValues m
      → Describes ssl m cmd w w'
      → subscribe_of ssl m w ≡ done cmd w'
  unfolding subscribe_of default
  subscribe_of_complete m cmd w w' (p, k, v, tls) d =
      let (method, method_h, made) = d.context in
      let (qos, qos_h, topics) = d.topics in
      Exact-intro _ cmd _ _ w w' (port_of-Exact m 1883 p) cmd.port d.port (
        Exact-intro _ cmd _ _ w w' (keep_alive_of-Exact m 30 k) cmd.keep_alive d.keep_alive (
          Exact-intro _ cmd _ _ w w' (protocol_of-Exact m (mqtt 4) v) cmd.protocol d.protocol (
            Exact-intro _ cmd _ _ w w'
              (last_will_of-Exact (m.opt_str "will-topic") (m.opt_str "will-message")
                (m.opt_str "will-qos") (m.opt_present "will-retain"))
              cmd.last_will d.last_will
              (Exact-intro _ cmd _ _ w w' (ssl_method_of-Exact m tls) method method_h (
                rw made (
                  Exact-intro _ cmd _ _ w' w' (qos_or-Exact exactly_once (m.opt_str "q")) qos qos_h
                    (rw
                      (
                        topics_of-with_qos m.free qos exactly_once,
                        topics,
                        d.address,
                        d.clean_session,
                        ← d.log_file,
                        d.debug,
                        d.reconnect,
                        d.silence,
                        d.client_id,
                        d.username,
                        d.password,
                        ← d.limit,
                        ← d.retain,
                        ← d.topic_filters,
                      )
                      refl)))))))

  unless_help-Describes :
      (m : Matches) (cmd : SubscribeCommand C) (w w' : W)
      → HasValues m
      → (unless_help ssl (ok m) w ≡ done cmd w') ↔ Describes ssl m cmd w w'
  unless_help-Describes m cmd w w' values = elim (Bool-cases (m.opt_present "h")) [
    | inl help ↦ (λ h. let h' = rw help at h in cc, λ d. let h' = d.no_help in cc)
    | inr no_help ↦
        rw no_help
          (subscribe_of_sound m cmd w w' values no_help, subscribe_of_complete m cmd w w' values)
  ]

  -- The command line gives a subscribe command just where the arguments match and the command is what
  -- they describe: its topics are those of the arguments, or all, with one QoS, and each other option
  -- has the value that it stands for, a number of 16 bits, a QoS, a version of the protocol or of TLS,
  -- or its default where it is not given. A last will has its topic and its message; without the topic
  -- there is none, whether a message for it is given or not. Options whose value is unwrapped are
  -- present just if they have a value.
  pub subscribe_parse-Describes :
      (parser : Parser) (arguments : List Text) (m : Matches) (cmd : SubscribeCommand C) (w w' : W)
      → parser opts arguments ≡ ok m
      → HasValues m
      → (subscribe_parse ssl parser arguments w ≡ done cmd w') ↔ Describes ssl m cmd w w'
  unfolding subscribe_parse
  subscribe_parse-Describes parser arguments m cmd w w' matched values =
      rw matched (unless_help-Describes m cmd w w' values)
