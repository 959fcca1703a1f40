-- ===== src/Kafka/Headers.antt =====
-- The headers of a retried message: pkg/kafkax/retry.go and dlq.go. `strconv` is a parameter.
pub mod Laws
use gosplash.Prelude.{
  ℕ, String, List, [], ◌∷◌, Option, none, some, str_eq, if◌then◌else◌, Bool, false, ◌||◌,
}
use gosplash.Prelude.Int.{ℤ, pos}
use gosplash.Kafka.Record.{
  Header, Message, header_error, header_original_topic, header_original_partition,
  header_original_offset, header_retry_at, header_retry_count,
}

-- `strconv.FormatInt` in base ten, and `ParseInt` of a number of so many bits.
pub record Strconv : Type 0 where
  pub format_int : ℤ → String
  pub parse_int : ℕ → String → Option ℤ

-- `headerValue`
unfoldable pub header_value : List Header → String → Option String
header_value [] k = none
header_value (h ∷ hs) k = if str_eq h.key k then some h.value else header_value hs k

-- `setHeader`: the first such header is replaced; otherwise one is added at the end.
unfoldable pub set_header : List Header → String → String → List Header
set_header [] k v = record { key = k; value = v } ∷ []
set_header (h ∷ hs) k v =
    if str_eq h.key k then record h { value = v } ∷ hs else h ∷ set_header hs k v

-- `hasHeader` of pkg/outbox/relay.go
unfoldable pub has_header : List Header → String → Bool
has_header [] k = false
has_header (h ∷ hs) k = str_eq h.key k || has_header hs k

-- `originalTopic`
unfoldable pub original_topic : Message → String
original_topic m = elim (header_value m.headers header_original_topic) [
  | none ↦ m.topic
  | some v ↦ v
]

module _ (lib : Strconv) where
  -- `parseRetryAt`; none is the zero time, which is always past.
  unfoldable pub parse_retry_at : List Header → Option ℤ
  parse_retry_at hs = elim (header_value hs header_retry_at) [
    | none ↦ none
    | some v ↦ lib.parse_int 64 v
  ]

  unfoldable pub int_or : ℤ → Option ℤ → ℤ
  int_or n none = n
  int_or n (some m) = m

  -- The integer of a header, or another if there is none that can be read.
  unfoldable pub int_header : ℕ → List Header → String → ℤ → ℤ
  unfolding int_or
  int_header bits hs k other = elim (header_value hs k) [
    | none ↦ other
    | some v ↦ int_or other (lib.parse_int bits v)
  ]

  -- `retryRound`
  unfoldable pub retry_round : List Header → ℤ
  unfolding int_header
  retry_round hs = int_header 64 hs header_retry_count (pos 0)

  -- `originalPartition` and `originalOffset`
  unfoldable pub original_partition : Message → ℤ
  unfolding int_header
  original_partition m = int_header 32 m.headers header_original_partition m.partition

  unfoldable pub original_offset : Message → ℤ
  unfolding int_header
  original_offset m = int_header 64 m.headers header_original_offset m.offset

  -- The coordinates of the source message, as `sendToRetry` and `dlqHeaders` write them.
  unfoldable pub mark_original : List Header → String → ℤ → ℤ → List Header
  mark_original hs topic partition offset =
      let with_topic = set_header hs header_original_topic topic in
      let with_partition =
        set_header with_topic header_original_partition (lib.format_int partition) in
      set_header with_partition header_original_offset (lib.format_int offset)

  -- `dlqHeaders`
  unfoldable pub dlq_headers : List Header → String → String → ℤ → ℤ → List Header
  unfolding mark_original
  dlq_headers base cause topic partition offset =
      mark_original (set_header base header_error cause) topic partition offset
