-- ===== src/Kafka/Topics.antt =====
-- internal/kafka/topics.go: the topics that are still to be created.
use text.Mathlib.TextPositions.{eq_refl}
use ticket_master.Prelude.{
  ℕ, zero, suc, indicator, ◌+◌, ◌≡◌, String, Bool, not, ◌&&◌, ◌||◌, List, [], ◌∷◌, if◌then◌else◌,
  str_eq, eq_iff, arith, Bool-cases, inl, inr,
}
use ticket_master.Config.Text.{ℤ, pos, negsuc, is_empty}
use ticket_master.Config.{KafkaConfig, among}

pub record TopicConfig : Type 0 where
  pub topic : String
  pub num_partitions : ℕ
  pub replication_factor : ℕ

-- The value of a setting, or the fallback where it is not positive.
abbrev pub positive_or : ℕ → ℤ → ℕ
positive_or fallback (pos zero) = fallback
positive_or fallback (pos (suc n)) = suc n
positive_or fallback (negsuc n) = fallback

abbrev pub topic_names : KafkaConfig → List String
topic_names k =
    k.booking_events_topic ∷ k.booking_events_dlq_topic ∷ k.booking_commands_topic
    ∷ k.purchase_commands_topic ∷ k.booking_dlq_topic ∷ k.purchase_dlq_topic ∷ []

abbrev pub topic_config : KafkaConfig → String → TopicConfig
topic_config k name = record {
  topic = name;
  num_partitions = positive_or 6 k.topic_partitions;
  replication_factor = positive_or 1 k.topic_replication_factor;
}

-- for _, name := range names
unfoldable pub missing_from :
    KafkaConfig → List String → List String → List String → List TopicConfig
missing_from k existing seen [] = []
missing_from k existing seen (name ∷ names) =
    let skipped = missing_from k existing seen names in
    let rest = missing_from k existing (name ∷ seen) names in
    if is_empty name || among name seen
    then skipped
    else if among name existing
    then rest
    else topic_config k name ∷ rest

-- missingTopicConfigs
unfoldable pub missing_topic_configs : KafkaConfig → List String → List TopicConfig
missing_topic_configs k existing = missing_from k existing [] (topic_names k)

abbrev pub occurrences : String → List TopicConfig → ℕ
occurrences name [] = 0
occurrences name (t ∷ ts) = indicator (str_eq t.topic name) + occurrences name ts

-- A topic is wanted where its name is not empty and it is not there.
abbrev pub is_wanted : List String → List String → List String → String → Bool
is_wanted existing seen names name =
    not (is_empty name) && among name names && not (among name seen) && not (among name existing)

occurrences-missing_from :
    (k : KafkaConfig) (existing seen names : List String) (name : String)
    → occurrences name (missing_from k existing seen names)
      ≡ indicator (is_wanted existing seen names name)
unfolding missing_from
occurrences-missing_from k existing seen [] name = ground arith
occurrences-missing_from k existing seen (n ∷ names) name = elim (Bool-cases (str_eq n name)) [
  | inl same ↦ rw ((eq_iff n name).0 same) (
      ground (
        arith,
        eq_refl name,
        occurrences-missing_from k existing seen names name,
        occurrences-missing_from k existing (name ∷ seen) names name,
      ))
  | inr other ↦ ground (
    arith,
    eq_iff n name,
    eq_iff name n,
    occurrences-missing_from k existing seen names name,
    occurrences-missing_from k existing (n ∷ seen) names name,
  )
]

-- missingTopicConfigs asks for exactly the topics of the configuration that have a name and are not
-- there, each once, although the configuration may name one several times.
pub missing_topic_configs-once :
    (k : KafkaConfig) (existing : List String) (name : String)
    → occurrences name (missing_topic_configs k existing)
      ≡ indicator (not (is_empty name) && among name (topic_names k) && not (among name existing))
unfolding missing_topic_configs
missing_topic_configs-once k existing name =
    ground (arith, occurrences-missing_from k existing [] (topic_names k) name)
