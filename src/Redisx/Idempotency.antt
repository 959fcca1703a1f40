-- ===== src/Redisx/Idempotency.antt =====
-- `Client.Begin` and `Client.Complete` of pkg/redisx/idempotency.go, and `Client.Key` of client.go. Redis
-- is a list of keys with values, newest first, of which any may be lost before any command.
use gosplash.Prelude.{
  ℕ, zero, suc, String, List, [], ◌∷◌, Option, none, some, Bool, true, false, str_eq, if◌then◌else◌,
}
use Prim.Native.String.{◌++◌ as append}

-- `strings.Join` with a colon, and `Client.Key`
unfoldable pub join_colon : List String → String
join_colon [] = ""
join_colon (x ∷ []) = x
join_colon (x ∷ y ∷ ys) = append x (append ":" (join_colon (y ∷ ys)))

unfoldable pub client_key : String → List String → String
unfolding join_colon
client_key service parts = join_colon ("gosplash" ∷ service ∷ parts)

-- What becomes of a command or a statement: it is answered; it takes effect and the answer is lost;
-- or it never arrives.
pub data Reply : Type 0 where
  answered unanswered not_reached : Reply

-- `idempotencyEnvelope`
pub data Envelope : Type 0 where
  envelope_in_progress : Envelope
  envelope_done : String → Envelope

-- `IdempotencyResult`
pub data Claim : Type 0 where
  claim_free claim_in_progress : Claim
  claim_done : String → Claim

-- The n-th command's fate, the keys that are lost before it, and `encoding/json`. `rounds` is how
-- often `Begin` can begin again before the deadline of its context makes a command fail.
pub record RedisEnv : Type 0 where
  pub reply : ℕ → Reply
  pub lost : ℕ → String → Bool
  pub marshal : Envelope → Option String
  pub unmarshal : String → Option Envelope
  pub rounds : ℕ

pub record Entry : Type 0 where
  pub key : String
  pub value : String

pub record Redis : Type 0 where
  pub entries : List Entry
  pub commands : ℕ

unfoldable pub find_entry : String → List Entry → Option String
find_entry k [] = none
find_entry k (e ∷ es) = if str_eq e.key k then some e.value else find_entry k es

module _ (env : RedisEnv) where
  unfoldable pub surviving : ℕ → List Entry → List Entry
  surviving n [] = []
  surviving n (e ∷ es) = let rest = surviving n es in if env.lost n e.key then rest else e ∷ rest

  -- The state that the next command finds.
  unfoldable pub arrive : Redis → Redis
  unfolding surviving
  arrive w = record { entries = surviving w.commands w.entries; commands = suc w.commands }

  unfoldable pub put_entry : String → String → Redis → Redis
  put_entry k v w = record w { entries = record { key = k; value = v } ∷ w.entries }

  -- What SET NX does: whether it set the key.
  unfoldable pub claim_key : Option String → String → String → Redis → Bool × Redis
  unfolding put_entry
  claim_key (some old) k v w = (false, w)
  claim_key none k v w = (true, put_entry k v w)

  unfoldable pub answer_of : {A : Type 0} → Reply → A → Option A
  answer_of answered x = some x
  answer_of unanswered x = none
  answer_of not_reached x = none

  unfoldable pub effect_of : {A : Type 0} → Reply → A → A → A
  effect_of answered before after = after
  effect_of unanswered before after = after
  effect_of not_reached before after = before

  unfoldable pub set_nx : String → String → Redis → Option Bool × Redis
  unfolding arrive claim_key answer_of effect_of find_entry
  set_nx k v w =
      let live = arrive w in
      let (was_set, after) = claim_key (find_entry k live.entries) k v live in
      (answer_of (env.reply w.commands) was_set, effect_of (env.reply w.commands) live after)

  unfoldable pub get : String → Redis → Option (Option String) × Redis
  unfolding arrive answer_of find_entry
  get k w =
      let live = arrive w in (answer_of (env.reply w.commands) (find_entry k live.entries), live)

  unfoldable pub set : String → String → Redis → Bool × Redis
  unfolding arrive put_entry effect_of
  set k v w =
      let live = arrive w in
      (
        elim (env.reply w.commands) [ answered ↦ true | unanswered ↦ false | not_reached ↦ false ],
        effect_of (env.reply w.commands) live (put_entry k v live),
      )

  -- The value of a key that was taken.
  unfoldable pub read_envelope : String → Option Claim
  read_envelope raw = elim (env.unmarshal raw) [
    | none ↦ none
    | some envelope_in_progress ↦ some claim_in_progress
    | some (envelope_done r) ↦ some (claim_done r)
  ]

  unfoldable pub after_get :
      Option (Option String) × Redis → (Redis → Option Claim × Redis) → Option Claim × Redis
  unfolding read_envelope
  after_get (none, w) again = (none, w)
  after_get (some none, w) again = again w
  after_get (some (some raw), w) again = (read_envelope raw, w)

  unfoldable pub after_set_nx :
      String → Option Bool × Redis → (Redis → Option Claim × Redis) → Option Claim × Redis
  unfolding after_get get
  after_set_nx k (none, w) again = (none, w)
  after_set_nx k (some true, w) again = (some claim_free, w)
  after_set_nx k (some false, w) again = after_get (get k w) again

  unfoldable pub begin_rounds : ℕ → String → String → Redis → Option Claim × Redis
  unfolding after_set_nx set_nx
  begin_rounds zero k v w = (none, w)
  begin_rounds (suc more) k v w = after_set_nx k (set_nx k v w) (λ w'. begin_rounds more k v w')

  -- `Begin`; none is an error.
  unfoldable pub begin_claim : String → Redis → Option Claim × Redis
  unfolding begin_rounds
  begin_claim k w = elim (env.marshal envelope_in_progress) [
    | none ↦ (none, w)
    | some v ↦ begin_rounds env.rounds k v w
  ]

  -- `Complete`; false is an error.
  unfoldable pub complete_claim : String → String → Redis → Bool × Redis
  unfolding set
  complete_claim k response w = elim (env.marshal (envelope_done response)) [
    | none ↦ (false, w)
    | some v ↦ set k v w
  ]
