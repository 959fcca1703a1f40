-- ===== src/Kafka/Failing.antt =====
-- The errors of a handler and their classes: pkg/kafkax/errors.go.
use gosplash.Prelude.{String, Bool, true, false, Option, none, some}
use Prim.Native.String.{◌++◌ as append}

-- `ErrRetryable` and `ErrPermanent`
pub data Sentinel : Type 0 where
  err_retryable err_permanent : Sentinel

-- An error: its text, or another error with a prefix (`fmt.Errorf` with %w) or with a class
-- (`classifiedError`).
pub data Failing : Type 0 where
  plain : String → Failing
  wrapped : String → Failing → Failing
  classified : Sentinel → Failing → Failing

-- `Error()`
unfoldable pub text_of : Failing → String
text_of (plain t) = t
text_of (wrapped prefix e) = append prefix (text_of e)
text_of (classified s e) = text_of e

-- `Retryable` and `Permanent`
unfoldable pub retryable : Option Failing → Option Failing
retryable none = none
retryable (some e) = some (classified err_retryable e)

unfoldable pub permanently : Option Failing → Option Failing
permanently none = none
permanently (some e) = some (classified err_permanent e)

-- `isPermanent`: `errors.Is` looks down the chain.
unfoldable pub is_permanent : Failing → Bool
is_permanent (plain t) = false
is_permanent (wrapped prefix e) = is_permanent e
is_permanent (classified err_permanent e) = true
is_permanent (classified err_retryable e) = is_permanent e
