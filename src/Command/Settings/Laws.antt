-- ===== src/Command/Settings/Laws.antt =====
-- What the common options give, and when they give it.
use rust_mq.Base.{
  ℕ, ◌≤◌, ◌≡◌, ◌⊎◌, ◌↔◌, refl, Bool, Option, none, some, bytes_eq_iff, arith, if◌then◌else◌,
}
use rust_mq.Outcome.{Outcome, done, failed, panicked, stuck, and_then, Action, pure}
use rust_mq.Mqtt3.Bytes.{Text, codes, IsU16}
use rust_mq.Mqtt3.Protocol.{Protocol, mq_isdp, mqtt}
use rust_mq.Mqtt3.Qos.{Qos, at_most_once, at_least_once, exactly_once}
use rust_mq.Mqtt3.Qos
use rust_mq.Command.Numbers.{parse_u16, parse_u8}
use rust_mq.Command.Numbers.Laws.{Denotes, parse_unsigned-Denotes}
use rust_mq.Command.Getopts.{Matches, is_some, HasValue}
use rust_mq.Command.Tls.{SslMethod, tlsv1, tlsv1_1, tlsv1_2}
use rust_mq.Command.Settings.{
  CliError, Exit, port_of, keep_alive_of, protocol_of, ssl_method_of, qos_or, parse_qos, number,
  value, version, method, qos_of_number,
}

-- An action that changes nothing and gives just the values of a predicate.
abbrev pub Exact : {E S A : Type 0} → (A → Type 0) → Action E S A → Type 0
Exact {E} {S} {A} P act = (a : A) (s s' : S) → (act s ≡ done a s') ↔ ((s' ≡ s) × P a)

-- What an option says where it is given, and the default where it is not.
abbrev pub IsGiven : {A : Type 0} → (Text → A → Type 0) → A → Option Text → A → Type 0
IsGiven P default none a = a ≡ default
IsGiven P default (some t) a = P t a

abbrev pub IsNumber : Text → ℕ → Type 0
IsNumber t n = Denotes t n × IsU16 n

abbrev pub IsVersion : Text → Protocol → Type 0
IsVersion t p = ((t ≡ codes "3.1") × (p ≡ mq_isdp 3)) ⊎ ((t ≡ codes "3.1.1") × (p ≡ mqtt 4))

abbrev pub IsMethod : Text → Option SslMethod → Type 0
IsMethod t o =
    ((t ≡ codes "1") × (o ≡ some tlsv1))
    ⊎ ((t ≡ codes "1.1") × (o ≡ some tlsv1_1))
    ⊎ ((t ≡ codes "1.2") × (o ≡ some tlsv1_2))

abbrev pub IsLevel : Text → Qos → Type 0
IsLevel t q = Denotes t (Qos.to_u8 q)

to_u8_small : (q : Qos) → Qos.to_u8 q ≤ 255
unfolding Qos.to_u8
to_u8_small q = ground arith

module _ {W : Type 0} where
  pure-Exact : {A : Type 0} (a : A) → Exact {E = Exit} {S = W} (λ b. b ≡ a) (pure a)
  pure-Exact a b s s' = (ground arith, λ h. rw (h.0, h.1) refl)

  number-Exact : (e : CliError) (o : Option ℕ) → Exact {S = W} (λ n. o ≡ some n) (number e o)
  number-Exact e none n s s' = ground arith
  number-Exact e (some k) n s s' = (ground arith, λ (same, e). cc)

  -- An option of which the value is used, where it is present just if it has a value.
  given-Exact :
      {A : Type 0} (P : Text → A → Type 0) (default : A) (use_it : Text → Action Exit W A)
      (b : Bool) (o : Option Text)
      → b ≡ is_some o
      → ((t : Text) → Exact (P t) (use_it t))
      → Exact (IsGiven P default o) (if b then value o use_it else pure default)
  given-Exact P default use_it b none h each a s s' = rw h (pure-Exact default a s s')
  given-Exact P default use_it b (some t) h each a s s' = rw h (each t a s s')

  parse_u16-Exact : (e : CliError) (t : Text) → Exact {S = W} (IsNumber t) (number e (parse_u16 t))
  parse_u16-Exact e t n s s' =
      let (to, from) = number-Exact e (parse_u16 t) n s s' in
      let (sound, complete) = parse_unsigned-Denotes 65535 n t in
      (
        λ h. ((to h).0, ((sound (to h).1).0, omega (arith, (sound (to h).1).1))),
        λ (same, (denotes, fits)). from (same, complete (denotes, omega (arith, fits))),
      )

  version-Exact : (t : Text) → Exact {S = W} (IsVersion t) (version t)
  version-Exact t p s s' =
      ground (arith, bytes_eq_iff t (codes "3.1"), bytes_eq_iff t (codes "3.1.1"))

  method-Exact : (t : Text) → Exact {S = W} (IsMethod t) (method t)
  method-Exact t o s s' = ground (
    arith,
    bytes_eq_iff t (codes "1"),
    bytes_eq_iff t (codes "1.1"),
    bytes_eq_iff t (codes "1.2"),
  )

  qos_of_number-Exact :
      (o : Option ℕ) → Exact {S = W} (λ q. o ≡ some (Qos.to_u8 q)) (qos_of_number o)
  unfolding Qos.from_u8 Qos.to_u8
  qos_of_number-Exact none q s s' = ground arith
  qos_of_number-Exact (some n) at_most_once s s' = ground arith
  qos_of_number-Exact (some n) at_least_once s s' = ground arith
  qos_of_number-Exact (some n) exactly_once s s' = ground arith

  parse_qos-Exact : (t : Text) → Exact {S = W} (IsLevel t) (parse_qos t)
  unfolding parse_qos
  parse_qos-Exact t q s s' =
      let (to, from) = qos_of_number-Exact (parse_u8 t) q s s' in
      let (sound, complete) = parse_unsigned-Denotes 255 (Qos.to_u8 q) t in
      (
        λ h. ((to h).0, (sound (to h).1).0),
        λ (same, denotes). from (same, complete (denotes, to_u8_small q)),
      )

  pub qos_or-Exact :
      (default : Qos) (o : Option Text)
      → Exact {S = W} (IsGiven IsLevel default o) (qos_or o default)
  unfolding qos_or
  qos_or-Exact default none q s s' = pure-Exact default q s s'
  qos_or-Exact default (some t) q s s' = parse_qos-Exact t q s s'

module _ {W : Type 0} (m : Matches) where
  pub port_of-Exact :
      (default : ℕ)
      → HasValue m "p"
      → Exact {S = W} (IsGiven IsNumber default (m.opt_str "p")) (port_of m default)
  unfolding port_of
  port_of-Exact default h = given-Exact IsNumber default _ _ _ h (parse_u16-Exact _)

  pub keep_alive_of-Exact :
      (default : ℕ)
      → HasValue m "k"
      → Exact {S = W} (IsGiven IsNumber default (m.opt_str "k")) (keep_alive_of m default)
  unfolding keep_alive_of
  keep_alive_of-Exact default h = given-Exact IsNumber default _ _ _ h (parse_u16-Exact _)

  pub protocol_of-Exact :
      (default : Protocol)
      → HasValue m "v"
      → Exact {S = W} (IsGiven IsVersion default (m.opt_str "v")) (protocol_of m default)
  unfolding protocol_of
  protocol_of-Exact default h = given-Exact IsVersion default _ _ _ h version-Exact

  pub ssl_method_of-Exact :
      HasValue m "tls" → Exact {S = W} (IsGiven IsMethod none (m.opt_str "tls")) (ssl_method_of m)
  unfolding ssl_method_of
  ssl_method_of-Exact h = given-Exact IsMethod none _ _ _ h method-Exact

module _ {E S A B D : Type 0} (f : A → Action E S B) (b : B) where
  -- What follows from the value of two actions in a row.
  pub and_then-elim :
      (o : Outcome E S A) (s' : S)
      → ((a : A) (s : S) → o ≡ done a s → f a s ≡ done b s' → D)
      → and_then o f ≡ done b s'
      → D
  and_then-elim (done a s) s' k h = k a s refl h
  and_then-elim (failed e s) s' k h = cc
  and_then-elim panicked s' k h = cc
  and_then-elim stuck s' k h = cc

  pub Exact-elim :
      (P : A → Type 0) (act : Action E S A) (s s' : S)
      → Exact P act
      → ((a : A) → P a → f a s ≡ done b s' → D)
      → and_then (act s) f ≡ done b s'
      → D
  Exact-elim P act s s' exact k h =
      and_then-elim (act s) s'
        (λ a s₁ made rest. let (same, p) = (exact a s s₁).0 made in k a p (rw same at rest)) h

-- Two actions in a row of which each gives a value.
pub Exact-intro :
    {E S A B : Type 0} (f : A → Action E S B) (b : B) (P : A → Type 0) (act : Action E S A)
    (s s' : S)
    → Exact P act
    → (a : A) → P a
    → f a s ≡ done b s'
    → and_then (act s) f ≡ done b s'
Exact-intro f b P act s s' exact a p rest = rw ((exact a s s).1 (refl, p)) rest

pub done-parts :
    {E S A : Type 0} {a b : A} {s s' : S}
    → ◌≡◌ {A = Outcome E S A} (done a s) (done b s')
    → (a ≡ b) × (s ≡ s')
done-parts h = (cc, cc)
