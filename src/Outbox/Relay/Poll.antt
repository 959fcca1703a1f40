-- ===== src/Outbox/Relay/Poll.antt =====
-- What one poll of the relay leaves behind: pkg/outbox/relay.go.
use gosplash.Prelude.{
  suc, String, List, [], ◌∷◌, ◌++◌, Option, none, some, ◌≡◌, refl, All, length, ap, ◌∙◌, sym,
  Bool-cases, inl, inr,
}
use gosplash.Kafka.Record.{Message}
use gosplash.Outbox.Row.{OutboxRow}
use gosplash.Outbox.Relay.{
  Surroundings, Shard, PollError, mark, publish_batch, report_pending, commit_rows, update_rows,
  after_publish, publish_selected, after_select, after_begin, poll_shard, statement,
  nothing_published, begin_failed, update_failed, select_failed, commit_failed,
}
use gosplash.Outbox.Relay.Batch.{
  Waiting, Made, Backed, Published, select_batch-Waiting, publish_batch-Published,
}

pub mark-nil : (rows : List OutboxRow) → mark [] rows ≡ rows
unfolding mark
mark-nil [] = refl
mark-nil (r ∷ rs) = ap (λ t. r ∷ t) (mark-nil rs)

-- What a poll has done: the records that the broker took, the rows that are marked, and that an
-- error leaves the rows alone.
pub record Polled (s : Surroundings) (w : Shard) (result : Option PollError × Shard) : Type 0 where
  pub news : List Message
  pub taken : result.1.taken ≡ news ++ w.taken
  pub made : All (Made s (Waiting w.rows)) news
  pub ids : List String
  pub rows : result.1.rows ≡ mark ids w.rows
  pub backed : All (Backed s (Waiting w.rows) news) ids
  pub failed : (e : PollError) → result.0 ≡ some e → result.1.rows ≡ w.rows
  pub as_many : result.0 ≡ none → length news ≡ length ids

module _ (s : Surroundings) where
  -- A poll that changed neither the rows nor what the broker has.
  idle-Polled :
      (e : Option PollError) (w w' : Shard)
      → w'.rows ≡ w.rows
      → w'.taken ≡ w.taken
      → Polled s w (e, w')
  idle-Polled e w w' same none_sent = record {
    news = [];
    taken = none_sent;
    made = tt;
    ids = [];
    rows = same ∙ sym (mark-nil w.rows);
    backed = tt;
    failed = λ _ _. same;
    as_many = λ _. refl;
  }

  -- A poll that failed after records were sent: no row is marked.
  unmarked-Polled :
      (e : PollError) (w w' : Shard) (p : List String × Shard)
      → Published s (Waiting w.rows) w p
      → w'.rows ≡ p.1.rows
      → w'.taken ≡ p.1.taken
      → Polled s w (some e, w')
  unmarked-Polled e w w' p d same as_sent = record {
    news = d.news;
    taken = as_sent ∙ d.taken;
    made = d.made;
    ids = [];
    rows = same ∙ d.rows ∙ sym (mark-nil w.rows);
    backed = tt;
    failed = λ _ _. same ∙ d.rows;
    as_many = λ h. cc;
  }

  after_publish-Polled :
      (w : Shard) (p : List String × Shard)
      → Published s (Waiting w.rows) w p
      → Polled s w (after_publish s p)
  unfolding after_publish update_rows commit_rows statement
  after_publish-Polled w ([], w') d = unmarked-Polled nothing_published w w' ([], w') d refl refl
  after_publish-Polled w ((i ∷ ids), w') d = elim (Bool-cases (s.sql_ok w'.statements)) [
    | inr refused ↦
        rw (refused, after_publish) (unmarked-Polled update_failed w _ (i ∷ ids, w') d refl refl)
    | inl yes_it ↦
        rw (yes_it, after_publish)
          (elim (Bool-cases (s.sql_ok (suc w'.statements))) [
            | inr refused ↦
                rw (refused, commit_rows)
                  (unmarked-Polled commit_failed w _ (i ∷ ids, w') d refl refl)
            | inl ok ↦
                rw (ok, commit_rows)
                  (record {
                    news = d.news;
                    taken = d.taken;
                    made = d.made;
                    ids = i ∷ ids;
                    rows = ap (mark (i ∷ ids)) d.rows;
                    backed = d.backed;
                    failed = λ e h. cc;
                    as_many = λ h. d.as_many;
                  })
          ])
  ]

  publish_selected-Polled :
      (w w' : Shard) (rs : List OutboxRow)
      → w'.rows ≡ w.rows
      → w'.taken ≡ w.taken
      → All (Waiting w.rows) rs
      → Polled s w (publish_selected s rs w')
  unfolding publish_selected
  publish_selected-Polled w w' [] same sent h = idle-Polled none w w' same sent
  publish_selected-Polled w w' (r ∷ rs) same sent h =
      let d = publish_batch-Published s (Waiting w.rows) (r ∷ rs) w' h in
      after_publish-Polled w (publish_batch s (r ∷ rs) w') (record {
        news = d.news;
        taken = d.taken ∙ ap (λ t. d.news ++ t) sent;
        rows = d.rows ∙ same;
        made = d.made;
        backed = d.backed;
        as_many = d.as_many;
      })

  pub report_pending_keeps :
      (w : Shard) → ((report_pending s w).rows ≡ w.rows) × ((report_pending s w).taken ≡ w.taken)
  unfolding report_pending statement
  report_pending_keeps w = elim (Bool-cases (s.sql_ok w.statements)) [
    | inl yes_it ↦ rw (yes_it, report_pending) (refl, refl)
    | inr refused ↦ rw (refused, report_pending) (refl, refl)
  ]

  -- Whatever the database, the broker and other relays do: a record that a poll hands to the broker
  -- is that of a row that waited in the outbox; a row is marked as published only if it waited there
  -- and the broker has taken its record in this poll; rows change in no other way, and not at all
  -- when the poll fails; and when it does not, there are as many records as marked ids.
  pub poll_shard-Polled : (w : Shard) → Polled s w (poll_shard s w)
  unfolding poll_shard after_begin after_select statement
  poll_shard-Polled w =
      let w₁ = report_pending s w in
      let k = report_pending_keeps w in
      elim (Bool-cases (s.sql_ok w₁.statements)) [
        | inr refused ↦ rw (refused, after_begin) (idle-Polled (some begin_failed) w _ k.0 k.1)
        | inl begun ↦
            rw (begun, after_begin)
              (elim (Bool-cases (s.sql_ok (suc w₁.statements))) [
                | inr refused ↦
                    rw (refused, after_select) (idle-Polled (some select_failed) w _ k.0 k.1)
                | inl selected ↦
                    rw (selected, after_select)
                      (publish_selected-Polled w _ _ k.0 k.1
                        (rw k.0 (select_batch-Waiting s _ w.rows)))
              ])
      ]
