-- ===== src/Kafka/Headers/Laws.antt =====
-- What is read from headers after one was set.
use gosplash.Prelude.{String, List, [], ◌∷◌, some, str_eq, eq_iff, if◌then◌else◌, ◌≡◌, arith}
use gosplash.Prelude.Int.{ℤ}
use gosplash.Kafka.Record.{
  Header, header_error, header_original_topic, header_original_partition, header_original_offset,
}
use gosplash.Kafka.Headers.{Strconv, header_value, set_header, mark_original, dlq_headers}

pub header_value-set_header :
    (hs : List Header) (k v k' : String)
    → header_value (set_header hs k v) k' ≡ (if str_eq k k' then some v else header_value hs k')
unfolding header_value set_header
header_value-set_header [] k v k' = ground arith
header_value-set_header (h ∷ hs) k v k' =
    ground (arith, eq_iff h.key k, eq_iff h.key k', eq_iff k k', header_value-set_header hs k v k')

-- The headers name the message at these coordinates as the source.
pub record NamesSource (lib : Strconv) (hs : List Header) (topic : String) (partition offset : ℤ)
    : Type 0 where
  pub at_topic : header_value hs header_original_topic ≡ some topic
  pub at_partition : header_value hs header_original_partition ≡ some (lib.format_int partition)
  pub at_offset : header_value hs header_original_offset ≡ some (lib.format_int offset)

pub mark_original-NamesSource :
    (lib : Strconv) (hs : List Header) (topic : String) (partition offset : ℤ)
    → NamesSource lib (mark_original lib hs topic partition offset) topic partition offset
unfolding mark_original
mark_original-NamesSource lib hs topic partition offset = record {
  at_topic = simp header_value-set_header;
  at_partition = simp header_value-set_header;
  at_offset = simp header_value-set_header;
}

pub dlq_headers-NamesSource :
    (lib : Strconv) (hs : List Header) (cause topic : String) (partition offset : ℤ)
    → NamesSource lib (dlq_headers lib hs cause topic partition offset) topic partition offset
unfolding dlq_headers
dlq_headers-NamesSource lib hs cause topic partition offset =
    mark_original-NamesSource lib (set_header hs header_error cause) topic partition offset
