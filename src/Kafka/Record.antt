-- ===== src/Kafka/Record.antt =====
-- A Kafka record, and the names of the headers and of the derived topics (pkg/kafkax/kafka.go and
-- topics.go).
use gosplash.Prelude.{String, List}
use gosplash.Prelude.Int.{ℤ}
use Prim.Native.String.{◌++◌ as append}

pub record Header : Type 0 where
  pub key : String
  pub value : String

pub record Message : Type 0 where
  pub topic : String
  pub partition : ℤ
  pub offset : ℤ
  pub key : String
  pub value : String
  pub headers : List Header

abbrev pub header_event_id : String
header_event_id = "event_id"

abbrev pub header_event_type : String
header_event_type = "event_type"

abbrev pub header_producer : String
header_producer = "producer"

abbrev pub header_error : String
header_error = "error"

abbrev pub header_original_topic : String
header_original_topic = "original_topic"

abbrev pub header_original_partition : String
header_original_partition = "original_partition"

abbrev pub header_original_offset : String
header_original_offset = "original_offset"

abbrev pub header_retry_at : String
header_retry_at = "retry_at"

abbrev pub header_retry_count : String
header_retry_count = "retry_count"

-- `RetryTopic` and `DLQTopic`
unfoldable pub retry_topic : String → String
retry_topic topic = append topic ".retry"

unfoldable pub dlq_topic : String → String
dlq_topic topic = append topic ".dlq"
