-- ===== src/Kafka/Consumer/Outcome.antt =====
-- What becomes of one message: pkg/kafkax/kafka.go.
use gosplash.Kafka.Backoff.{backoff, max_retry_attempts}
use gosplash.Prelude.{
  ℕ, zero, suc, String, ◌∷◌, Option, none, some, Bool-cases, inl, inr, ◌≡◌, ◌⊎◌, refl, arith, ◌-◌,
  ◌∙◌, ap, false, ◌≤◌, subst, true, sym,
}
use gosplash.Prelude.Int.{ℤ, pos, ◌+ℤ◌}
use gosplash.Kafka.Record.{Message, retry_topic, dlq_topic, header_retry_count}
use gosplash.Kafka.Headers.Laws.{
  NamesSource, mark_original-NamesSource, dlq_headers-NamesSource, header_value-set_header,
}
use gosplash.Kafka.Headers.{Strconv, header_value, mark_original}
use gosplash.Kafka.Failing.{Failing, is_permanent, text_of, wrapped}
use gosplash.Kafka.Runtime.{Runtime, World, produce, commit_record, finish_sent, looked}
use gosplash.Kafka.Consumer.{
  run_handler, or_retry, try_in_place, settle, process_one, finish_with_dlq, finish_with_retry,
  dlq_message, retry_message, nap,
}

-- A copy of a message in another topic, which names it as its source.
pub record Copy (lib : Strconv) (m : Message) (topic : String) (copy : Message) : Type 0 where
  pub where_to : copy.topic ≡ topic
  pub same_key : copy.key ≡ m.key
  pub same_value : copy.value ≡ m.value
  pub source : NamesSource lib copy.headers m.topic m.partition m.offset

module _ {E S : Type 0} (rt : Runtime E S) (topic : String) (m : Message) where
  -- Calls of the handler, one after the other, each on the state that the one before left: every
  -- answer but the last is an error that is not permanent, and this is the last.
  pub data Calls (e : E) : ℕ → S → Option Failing → S → Type 0 where
    last : {s s' : S} {r : Option Failing} → rt.handle e s ≡ (r, s') → Calls e 1 s r s'
    again :
        {n : ℕ} {s s₁ s' : S} {f : Failing} {r : Option Failing}
        → rt.handle e s ≡ (some f, s₁)
        → is_permanent f ≡ false
        → Calls e n s₁ r s'
        → Calls e (suc n) s r s'

  -- The message cannot be decoded, or the handler's last answer was a permanent error.
  pub data Hopeless (s s' : S) : Type 0 where
    unread : rt.unmarshal m.value ≡ none → s' ≡ s → Hopeless s s'
    stopped :
        (e : E) (n : ℕ) (f : Failing)
        → rt.unmarshal m.value ≡ some e
        → n ≤ max_retry_attempts
        → is_permanent f ≡ true
        → Calls e n s (some f) s'
        → Hopeless s s'

  -- All attempts in place ended with errors that are not permanent.
  pub record Exhausted (s s' : S) : Type 0 where
    pub envelope : E
    pub failing : Failing
    pub decoded : rt.unmarshal m.value ≡ some envelope
    pub transient : is_permanent failing ≡ false
    pub calls : Calls envelope max_retry_attempts s (some failing) s'

  -- What can become of a message: the handler took it, in the end; a copy was taken by the DLQ or by
  -- the retry topic; or nothing was sent and nothing committed.
  pub data Outcome (w w' : World S) : Type 0 where
    handled :
        (e : E) (n : ℕ)
        → rt.unmarshal m.value ≡ some e
        → n ≤ max_retry_attempts
        → Calls e n w.user none w'.user
        → w'.produced ≡ w.produced
        → Outcome w w'
    buried :
        (copy : Message)
        → Hopeless w.user w'.user
        → Copy rt.strconv m (dlq_topic topic) copy
        → w'.produced ≡ copy ∷ w.produced
        → Outcome w w'
    postponed :
        (copy : Message)
        → Exhausted w.user w'.user
        → Copy rt.strconv m (retry_topic topic) copy
        → header_value copy.headers header_retry_count ≡ some "1"
        → w'.produced ≡ copy ∷ w.produced
        → Outcome w w'
    kept :
        Hopeless w.user w'.user ⊎ Exhausted w.user w'.user
        → w'.produced ≡ w.produced
        → w'.commits ≡ w.commits
        → Outcome w w'

  pub commit_produced : (w : World S) → (commit_record rt m w).produced ≡ w.produced
  unfolding commit_record
  commit_produced w = ground arith

  -- After a message was sent: it is in the broker, or nothing has changed there.
  pub sent_or_kept :
      (copy : Message) (result failed : String) (w w₀ : World S)
      → w.produced ≡ w₀.produced
      → w.commits ≡ w₀.commits
      → let w' = finish_sent rt m result failed (produce rt copy w) in
        (w'.produced ≡ copy ∷ w₀.produced)
        ⊎ ((w'.produced ≡ w₀.produced) × (w'.commits ≡ w₀.commits))
  unfolding finish_sent produce
  sent_or_kept copy result failed w w₀ e₀ e₁ = elim (Bool-cases (rt.accepts w.requests)) [
    | inl yes_it ↦ inl (rw yes_it (commit_produced _ ∙ ap (λ ms. copy ∷ ms) e₀))
    | inr not_it ↦ inr (rw not_it e₀, rw not_it e₁)
  ]

  -- The attempts in place, of which so many may follow the first, send and commit nothing.
  pub record Tried (more : ℕ) (e : E) (w : World S) (p : Option Failing × World S) : Type 0 where
    pub produced : p.1.produced ≡ w.produced
    pub commits : p.1.commits ≡ w.commits
    count : ℕ
    within : count ≤ suc more
    calls : Calls e count w.user p.0 p.1.user
    all_used : (f : Failing) → p.0 ≡ some f → is_permanent f ≡ false → count ≡ suc more

  or_retry-Tried :
      (more : ℕ) (e : E) (w : World S) (next : Failing → World S → Option Failing × World S)
      → ((f : Failing)
          → rt.handle e w.user ≡ (some f, (rt.handle e w.user).1)
          → is_permanent f ≡ false
          → Tried more e w (next f (run_handler rt e w).1))
      → Tried more e w (or_retry rt (run_handler rt e w) next)
  unfolding or_retry
  or_retry-Tried more e w next step = by_answer (rt.handle e w.user).0 refl
    where
      by_answer :
          (r : Option Failing)
          → (rt.handle e w.user).0 ≡ r
          → Tried more e w (or_retry rt (r, (run_handler rt e w).1) next)
      by_answer none h = record {
        produced = refl;
        commits = refl;
        count = 1;
        within = omega arith;
        calls = last (ap (λ r. (r, (rt.handle e w.user).1)) h);
        all_used = λ f e. cc;
      }
      by_answer (some f) h = elim (Bool-cases (is_permanent f)) [
        | inl stop ↦
            rw (stop, or_retry)
              (record {
                produced = refl;
                commits = refl;
                count = 1;
                within = omega arith;
                calls = last (ap (λ r. (r, (rt.handle e w.user).1)) h);
                all_used = λ f' e e'. cc;
              })
        | inr on ↦ rw (on, or_retry) (step f (ap (λ r. (r, (rt.handle e w.user).1)) h) on)
      ]

  pub try_in_place-Tried :
      (more : ℕ) (attempt : ℤ) (e : E) (w : World S)
      → Tried more e w (try_in_place rt more attempt e w)
  unfolding try_in_place
  try_in_place-Tried zero attempt e w =
      or_retry-Tried zero e w (λ f w'. (some f, w'))
        (λ f h on. record {
          produced = refl;
          commits = refl;
          count = 1;
          within = omega arith;
          calls = last h;
          all_used = λ f' e e'. omega arith;
        })
  try_in_place-Tried (suc more) attempt e w =
      or_retry-Tried (suc more) e w
        (λ f w'. try_in_place rt more (attempt +ℤ pos 1) e (nap rt attempt w'))
        (λ f h on.
          let t =
            try_in_place-Tried more (attempt +ℤ pos 1) e (nap rt attempt (run_handler rt e w).1) in
          record {
            produced = t.produced;
            commits = t.commits;
            count = suc t.count;
            within = omega (arith, t.within);
            calls = again h on t.calls;
            all_used = λ f' e' e''. ap suc (t.all_used f' e' e'');
          })

  dlq_message-Copy :
      (cause : String) → Copy rt.strconv m (dlq_topic topic) (dlq_message rt topic m cause)
  unfolding dlq_message
  dlq_message-Copy cause = record {
    where_to = refl;
    same_key = refl;
    same_value = refl;
    source = dlq_headers-NamesSource rt.strconv m.headers cause m.topic m.partition m.offset;
  }

  retry_message-Copy :
      (at : ℤ) → Copy rt.strconv m (retry_topic topic) (retry_message rt topic m at)
  unfolding retry_message
  retry_message-Copy at = record {
    where_to = refl;
    same_key = refl;
    same_value = refl;
    source = mark_original-NamesSource rt.strconv _ m.topic m.partition m.offset;
  }

  retry_message-first :
      (at : ℤ) → header_value (retry_message rt topic m at).headers header_retry_count ≡ some "1"
  unfolding retry_message mark_original
  retry_message-first at = simp header_value-set_header

  finish_sent-user :
      (copy : Message) (result failed : String) (w : World S)
      → (finish_sent rt m result failed (produce rt copy w)).user ≡ w.user
  unfolding finish_sent commit_record produce
  finish_sent-user copy result failed w = ground arith

  finish_with_dlq-Outcome :
      (cause : Failing) (w w₀ : World S)
      → Hopeless w₀.user w.user
      → w.produced ≡ w₀.produced
      → w.commits ≡ w₀.commits
      → Outcome w₀ (finish_with_dlq rt topic m cause w)
  unfolding finish_with_dlq
  finish_with_dlq-Outcome cause w w₀ why e₀ e₁ =
      let copy = dlq_message rt topic m (text_of cause) in
      let why' = subst (Hopeless w₀.user) (sym (finish_sent-user copy "dlq" "dlq_failed" w)) why in
      elim (sent_or_kept copy "dlq" "dlq_failed" w w₀ e₀ e₁) [
        | inl e ↦ buried copy why' (dlq_message-Copy (text_of cause)) e
        | inr e ↦ kept (inl why') e.0 e.1
      ]

  finish_with_retry-Outcome :
      (w w₀ : World S)
      → Exhausted w₀.user w.user
      → w.produced ≡ w₀.produced
      → w.commits ≡ w₀.commits
      → Outcome w₀ (finish_with_retry rt topic m w)
  unfolding finish_with_retry
  finish_with_retry-Outcome w w₀ why e₀ e₁ =
      let at = rt.after_ms w.looks (backoff (rt.int64_n w.looks) (pos max_retry_attempts)) in
      let copy = retry_message rt topic m at in
      let why' =
        subst (Exhausted w₀.user) (sym (finish_sent-user copy "retry" "retry_failed" (looked w)))
          why in
      elim (sent_or_kept copy "retry" "retry_failed" (looked w) w₀ e₀ e₁) [
        | inl e ↦ postponed copy why' (retry_message-Copy at) (retry_message-first at) e
        | inr e ↦ kept (inr why') e.0 e.1
      ]

  commit_user : (w : World S) → (commit_record rt m w).user ≡ w.user
  unfolding commit_record
  commit_user w = ground arith

  by_end :
      (e : E) (p : Option Failing × World S) (w : World S)
      → rt.unmarshal m.value ≡ some e
      → Tried (max_retry_attempts - 1) e w p
      → Outcome w (settle rt topic m p)
  unfolding settle
  by_end e (none, w') w h t =
      handled e t.count h (omega (arith, t.within))
        (subst (Calls e t.count w.user none) (sym (commit_user w')) t.calls)
        (commit_produced w' ∙ t.produced)
  by_end e (some f, w') w h t = elim (Bool-cases (is_permanent f)) [
    | inl stop ↦
        rw (stop, settle)
          (finish_with_dlq-Outcome f w' w
            (stopped e t.count f h (omega (arith, t.within)) stop t.calls) t.produced t.commits)
    | inr on ↦
        rw (on, settle)
          (finish_with_retry-Outcome w' w
            (record {
              envelope = e;
              failing = f;
              decoded = h;
              transient = on;
              calls = subst (λ n. Calls e n w.user (some f) w'.user) (t.all_used f refl on) t.calls;
            })
            t.produced t.commits)
  ]

  -- Whatever the handler, the broker and the clock do, a message that a consumer processes ends in
  -- one of these ways. The handler was called at most three times, each time on the state that it had
  -- left, again only after an error that is not permanent, and its last answer was success; then
  -- nothing was sent. Or the message cannot be decoded, or the last of such calls was a permanent
  -- error, and the broker has taken one copy of it into the DLQ. Or three calls all ended with errors
  -- that are not permanent, and the broker has taken one copy into the retry topic. A copy has the
  -- same key and value and headers that name topic, partition and offset of the message. Or, after
  -- one of the two kinds of failure, nothing was sent and the offset was not committed.
  pub process_one-Outcome : (w : World S) → Outcome w (process_one rt topic m w)
  unfolding process_one
  process_one-Outcome w = by_envelope (rt.unmarshal m.value) refl
    where
      by_envelope :
          (o : Option E)
          → rt.unmarshal m.value ≡ o
          → Outcome w (elim o [
            | none ↦
                finish_with_dlq rt topic m
                  (wrapped "разбор конверта: " (rt.unmarshal_error m.value))
                  w
            | some e ↦ settle rt topic m (try_in_place rt (max_retry_attempts - 1) (pos 1) e w)
          ])
      by_envelope none h = finish_with_dlq-Outcome _ w w (unread h refl) refl refl
      by_envelope (some e) h =
          by_end e (try_in_place rt (max_retry_attempts - 1) (pos 1) e w) w h
            (try_in_place-Tried (max_retry_attempts - 1) (pos 1) e w)
