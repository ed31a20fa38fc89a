-- ===== src/Config/Security.antt =====
-- internal/config/kafka.go and internal/kafka/client.go: how the program authenticates to Kafka.
use mathlib.Core.Option.{some-injective}
use mathlib.Core.Path.{subst}
use text.Mathlib.Text.{starts_with}
use ticket_master.Prelude.{
  ◌≡◌, refl, ◌⊎◌, String, Bool, true, false, not, ◌&&◌, ◌||◌, Option, none, some, List, [], ◌∷◌,
  if◌then◌else◌, str_eq, eq_iff, arith, Bool-cases, inl, inr,
}
use ticket_master.Config.Text.{Letters, is_empty, trim_space}
use ticket_master.Config.{KafkaConfig}

abbrev pub has_credentials : KafkaConfig → Bool
has_credentials k = not (is_empty k.sasl_username) || not (is_empty k.sasl_password)

abbrev pub implied_protocol : String → KafkaConfig → String
implied_protocol named k =
    if is_empty named then (if has_credentials k then "SASL_PLAINTEXT" else "PLAINTEXT") else named

-- KafkaSecurityProtocol
unfoldable pub kafka_security_protocol : Letters → KafkaConfig → String
kafka_security_protocol letters k =
    implied_protocol (letters.to_upper (trim_space k.security_protocol)) k

pub data SecurityError : Type 0 where
  credentials_need_sasl sasl_needs_both mechanism_must_be_plain unknown_protocol : SecurityError

abbrev pub validate_plain : KafkaConfig → Option SecurityError
validate_plain k = if has_credentials k then some credentials_need_sasl else none

abbrev pub validate_mechanism : String → Option SecurityError
validate_mechanism m =
    if not (is_empty m) && not (str_eq m "PLAIN") then some mechanism_must_be_plain else none

abbrev pub validate_sasl : Letters → KafkaConfig → Option SecurityError
validate_sasl letters k =
    if is_empty k.sasl_username || is_empty k.sasl_password
    then some sasl_needs_both
    else validate_mechanism (letters.to_upper (trim_space k.sasl_mechanism))

abbrev pub validate_for : Letters → KafkaConfig → String → Option SecurityError
validate_for letters k p =
    if str_eq p "PLAINTEXT" || str_eq p "SSL"
    then validate_plain k
    else if str_eq p "SASL_PLAINTEXT" || str_eq p "SASL_SSL"
    then validate_sasl letters k
    else some unknown_protocol

abbrev pub validate_with : Letters → KafkaConfig → List String → Option SecurityError
validate_with letters k [] = none
validate_with letters k (b ∷ bs) = validate_for letters k (kafka_security_protocol letters k)

-- ValidateSecurity
unfoldable pub validate_security : Letters → KafkaConfig → Option SecurityError
validate_security letters k = validate_with letters k k.brokers

-- What dialers and transports are given: the user and the password of SASL, and whether TLS is used.
pub record Client : Type 0 where
  pub client_id : String
  pub mechanism : Option (String × String)
  pub tls : Bool

abbrev pub client_for : KafkaConfig → String → Client
client_for k p = record {
  client_id = k.client_id;
  mechanism = if starts_with p "SASL_" then some (k.sasl_username, k.sasl_password) else none;
  tls = str_eq p "SSL" || str_eq p "SASL_SSL";
}

abbrev pub client_unless : Letters → KafkaConfig → Option SecurityError → Option Client
client_unless letters k none = some (client_for k (kafka_security_protocol letters k))
client_unless letters k (some e) = none

-- NewClient; none is its error.
unfoldable pub new_client : Letters → KafkaConfig → Option Client
new_client letters k = client_unless letters k (validate_security letters k)

-- The credentials are sent, and there are both; or none are configured and none are sent.
abbrev pub IsConsistent : KafkaConfig → Client → Type 0
IsConsistent k c =
    ((c.mechanism ≡ some (k.sasl_username, k.sasl_password))
      × (is_empty k.sasl_username ≡ false)
      × (is_empty k.sasl_password ≡ false))
    ⊎ ((c.mechanism ≡ none) × (is_empty k.sasl_username ≡ true) × (is_empty k.sasl_password ≡ true))

validate_sasl-both :
    (letters : Letters) (k : KafkaConfig)
    → validate_sasl letters k ≡ none
    → (is_empty k.sasl_username ≡ false) × (is_empty k.sasl_password ≡ false)
validate_sasl-both letters k h = ground arith

validate_plain-neither :
    (k : KafkaConfig)
    → validate_plain k ≡ none
    → (is_empty k.sasl_username ≡ true) × (is_empty k.sasl_password ≡ true)
validate_plain-neither k h = ground arith

sends :
    (k : KafkaConfig) (p : String)
    → starts_with p "SASL_" ≡ true
    → (is_empty k.sasl_username ≡ false) × (is_empty k.sasl_password ≡ false)
    → IsConsistent k (client_for k p)
sends k p e h = inl (rw e refl, h.0, h.1)

sends_nothing :
    (k : KafkaConfig) (p : String)
    → starts_with p "SASL_" ≡ false
    → (is_empty k.sasl_username ≡ true) × (is_empty k.sasl_password ≡ true)
    → IsConsistent k (client_for k p)
sends_nothing k p e h = inr (rw e refl, h.0, h.1)

prefix_of :
    (p q : String) (b : Bool)
    → str_eq p q ≡ true
    → starts_with q "SASL_" ≡ b
    → starts_with p "SASL_" ≡ b
prefix_of p q b e h = rw ((eq_iff p q).0 e) h

validate_for-IsConsistent :
    (letters : Letters) (k : KafkaConfig) (p : String)
    → validate_for letters k p ≡ none
    → IsConsistent k (client_for k p)
validate_for-IsConsistent letters k p h = elim (Bool-cases (str_eq p "PLAINTEXT")) [
  | inl plain ↦
      sends_nothing k p (prefix_of p "PLAINTEXT" false plain refl)
        (validate_plain-neither k (rw plain at h))
  | inr other ↦ elim (Bool-cases (str_eq p "SSL")) [
    | inl ssl ↦
        sends_nothing k p (prefix_of p "SSL" false ssl refl)
          (validate_plain-neither k (rw (other, ssl) at h))
    | inr sasl ↦ elim (Bool-cases (str_eq p "SASL_PLAINTEXT")) [
      | inl open_sasl ↦
          sends k p (prefix_of p "SASL_PLAINTEXT" true open_sasl refl)
            (validate_sasl-both letters k (rw (other, sasl, open_sasl) at h))
      | inr rest ↦ elim (Bool-cases (str_eq p "SASL_SSL")) [
        | inl tls ↦
            sends k p (prefix_of p "SASL_SSL" true tls refl)
              (validate_sasl-both letters k (rw (other, sasl, rest, tls) at h))
        | inr unknown ↦ absurd (cc (rw (other, sasl, rest, unknown) at h))
      ]
    ]
  ]
]

client_unless-IsConsistent :
    (letters : Letters) (k : KafkaConfig) (o : Option SecurityError) (c : Client)
    → validate_for letters k (kafka_security_protocol letters k) ≡ o
    → client_unless letters k o ≡ some c
    → IsConsistent k c
client_unless-IsConsistent letters k none c e h =
    subst (IsConsistent k) (some-injective _ _ h)
      (validate_for-IsConsistent letters k (kafka_security_protocol letters k) e)
client_unless-IsConsistent letters k (some x) c e h = cc

-- Where brokers are configured, a client of Kafka that is made sends the configured user and password,
-- neither of which is empty, or there are none of either and it sends none: the program never leaves
-- out credentials that it was given.
pub new_client-IsConsistent :
    (letters : Letters) (k : KafkaConfig) (b : String) (bs : List String) (c : Client)
    → k.brokers ≡ b ∷ bs
    → new_client letters k ≡ some c
    → IsConsistent k c
unfolding new_client validate_security
new_client-IsConsistent letters k b bs c e h =
    client_unless-IsConsistent letters k _ c refl
      (subst (λ brokers. client_unless letters k (validate_with letters k brokers) ≡ some c) e h)
