-- ===== src/Ingestion/Events/Again.antt =====
-- An event that a device sends again is answered, and nothing is done for it.
use coin_acceptor_backend.Prelude.{
  ℕ, true, false, Option, none, some, String, List, [], ◌∷◌, ==_refl, ◌=s◌, find, any, ◌≡◌, refl,
  arith, Bool-cases, inl, inr, ap, ◌∙◌, subst, eq_iff,
}
use coin_acceptor_backend.Effect.{Result, ok, err, lift, ◌>>=◌, gets}
use coin_acceptor_backend.Table.{insert, update_where, find-insert_new, find-update_where}
use coin_acceptor_backend.Ingestion.Events.{
  ProcessingStatus, Event, EventRequest, Sender, IngestStore, Handler, IngestResponse, Surroundings,
  map_ingest_response, same_number, same_text, by_external_id, find_duplicate, matches_duplicate,
  event_row, event_has_id, event_clashes, set_events, handle_duplicate, run_processor,
  mark_processed, mark_failed, settle_event, process_event, create_or_answer, duplicate_or_new,
  clash_answer, ingest,
}

-- The stored event that answers a request, and what it answers.
pub record Answered (events : List Event) (sender : Sender) (dto : EventRequest) (sha : String)
    (r : IngestResponse) : Type 0 where
  pub event : Event
  pub found : find_duplicate sender dto events ≡ some event
  pub matches : matches_duplicate event dto sha ≡ true
  pub same : map_ingest_response event true ≡ record r { duplicate = true }

text_refl : (t : String) → (t =s t) ≡ true
text_refl t = (eq_iff t t).1 refl

same_text_refl : (o : Option String) → same_text o o ≡ true
same_text_refl none = refl
same_text_refl (some t) = text_refl t

same_number_refl : (o : Option ℕ) → same_number o o ≡ true
same_number_refl none = refl
same_number_refl (some n) = ==_refl n

row_matches :
    (sender : Sender) (dto : EventRequest) (sha : String) (i now : ℕ)
    → matches_duplicate (event_row sender dto sha i now) dto sha ≡ true
unfolding matches_duplicate event_row
row_matches sender dto sha i now =
    rw
      (
        text_refl dto.external_event_id,
        text_refl dto.event_category,
        text_refl dto.event_type,
        same_number_refl dto.sequence_number,
        ==_refl dto.occurred_at,
        same_text_refl dto.firmware_version,
        text_refl sha,
      )
      refl

none_by_external :
    (sender : Sender) (dto : EventRequest) (i : ℕ) (events : List Event)
    → any (event_clashes sender dto i) events ≡ false
    → find (by_external_id sender dto) events ≡ none
none_by_external sender dto i [] n = refl
none_by_external sender dto i (e ∷ es) n = ground (arith, none_by_external sender dto i es)

-- A new event is found under its external id, whatever its processing writes to it.
stored_found :
    (f : Event → Event) (sender : Sender) (dto : EventRequest) (sha : String) (i now : ℕ)
    (events : List Event)
    → ((e : Event) → by_external_id sender dto (f e) ≡ by_external_id sender dto e)
    → any (event_clashes sender dto i) events ≡ false
    → find
        (by_external_id sender dto)
        (update_where (event_has_id i) f (insert (event_row sender dto sha i now) events))
      ≡ some (f (event_row sender dto sha i now))
unfolding event_row
stored_found f sender dto sha i now events keep n =
    find-update_where (by_external_id sender dto) (event_has_id i) f
      (insert (event_row sender dto sha i now) events) keep (event_row sender dto sha i now)
      (find-insert_new (by_external_id sender dto) (event_row sender dto sha i now) events
        (none_by_external sender dto i events n)
        (rw (==_refl sender.device_id, text_refl dto.external_event_id) refl))
    ∙ rw (==_refl i) refl

module _ {S : Type 0} where
  abbrev Outcome : Sender → EventRequest → String → Result IngestResponse × IngestStore S → Type 0
  Outcome sender dto sha (ok r, t) = Answered t.events sender dto sha r
  Outcome sender dto sha (err e, t) = Unit

  duplicate-Outcome :
      (sender : Sender) (dto : EventRequest) (sha : String) (e : Event) (s : IngestStore S)
      → find_duplicate sender dto s.events ≡ some e
      → Outcome sender dto sha (handle_duplicate sender dto sha e s)
  unfolding handle_duplicate map_ingest_response
  duplicate-Outcome sender dto sha e s found = elim (Bool-cases (matches_duplicate e dto sha)) [
    | inl y ↦ rw y (record { event = e; found = found; matches = y; same = refl })
    | inr n ↦ rw n tt
  ]

  module _ (sender : Sender) (dto : EventRequest) (sha : String) (i now : ℕ) (s : IngestStore S)
      (fresh : any (event_clashes sender dto i) s.events ≡ false) where
    abbrev row : Event
    row = event_row sender dto sha i now

    settle-Outcome :
        (r : Result ProcessingStatus × S)
        → Outcome sender dto sha (settle_event now row (set_events (insert row) s) r)
    unfolding find_duplicate map_ingest_response event_row matches_duplicate
    settle-Outcome (ok ProcessingStatus.received, rows) = record {
      event = row;
      found =
          rw
            (find-insert_new (by_external_id sender dto) row s.events
              (none_by_external sender dto i s.events fresh)
              (rw (==_refl sender.device_id, text_refl dto.external_event_id) refl))
            refl;
      matches = row_matches sender dto sha i now;
      same = refl;
    }
    settle-Outcome (ok ProcessingStatus.processed, rows) = record {
      event = mark_processed now row;
      found =
          rw (stored_found (mark_processed now) sender dto sha i now s.events (λ e. refl) fresh)
            refl;
      matches = row_matches sender dto sha i now;
      same = refl;
    }
    settle-Outcome (ok ProcessingStatus.failed, rows) = record {
      event = mark_processed now row;
      found =
          rw (stored_found (mark_processed now) sender dto sha i now s.events (λ e. refl) fresh)
            refl;
      matches = row_matches sender dto sha i now;
      same = refl;
    }
    settle-Outcome (err e, rows) = record {
      event = mark_failed row;
      found = rw (stored_found mark_failed sender dto sha i now s.events (λ e. refl) fresh) refl;
      matches = row_matches sender dto sha i now;
      same = refl;
    }

  module _ (handlers : List (Handler S)) (around : Surroundings S) (sender : Sender)
      (dto : EventRequest) where
    clash-Outcome :
        (t : IngestStore S) (o : Option Event)
        → find_duplicate sender dto t.events ≡ o
        → Outcome sender dto
            (around.hash dto.payload)
            (clash_answer sender dto (around.hash dto.payload) o t)
    clash-Outcome t none found = tt
    clash-Outcome t (some e) found =
        duplicate-Outcome sender dto (around.hash dto.payload) e t found

    create-Outcome :
        (s : IngestStore S)
        → Outcome sender dto
            (around.hash dto.payload)
            (create_or_answer handlers around sender dto s)
    unfolding process_event
    create-Outcome s =
        let t = set_events around.meanwhile s in
        elim (Bool-cases
          (any (event_clashes sender dto around.new_id) (around.meanwhile s.events))) [
            | inl y ↦ rw y (clash-Outcome t (find_duplicate sender dto t.events) refl)
            | inr n ↦ rw n (
                settle-Outcome sender dto (around.hash dto.payload) around.new_id around.now t n (
                  run_processor handlers
                    (event_row sender dto (around.hash dto.payload) around.new_id around.now)
                    s.rows))
          ]

    known-Outcome :
        (s : IngestStore S) (o : Option Event)
        → find_duplicate sender dto s.events ≡ o
        → Outcome sender dto
            (around.hash dto.payload)
            (duplicate_or_new handlers around sender dto o s)
    known-Outcome s none found = create-Outcome s
    known-Outcome s (some e) found =
        duplicate-Outcome sender dto (around.hash dto.payload) e s found

    ingest-Outcome :
        (s : IngestStore S)
        → Outcome sender dto (around.hash dto.payload) (ingest handlers around sender dto s)
    unfolding ingest
    ingest-Outcome s = by_validation (around.validate dto)
      where
        by_validation :
            (v : Result (Unit {0}))
            → Outcome sender dto (around.hash dto.payload) (
                (lift v >>= λ _. gets (λ t. find_duplicate sender dto t.events) >>= λ existing.
                duplicate_or_new handlers around sender dto existing)
                  s)
        by_validation (ok u) = known-Outcome s (find_duplicate sender dto s.events) refl
        by_validation (err e) = tt

  -- An event that was answered is answered again the same way, marked as a duplicate, when the
  -- device sends it once more and the validator still accepts it, and the second time changes
  -- nothing: no handler runs, whatever the handlers are and whether or not the first one failed.
  pub ingest_again :
      (handlers : List (Handler S)) (around later : Surroundings S) (sender : Sender)
      (dto : EventRequest) (s t : IngestStore S) (r : IngestResponse)
      → ingest handlers around sender dto s ≡ (ok r, t)
      → later.validate dto ≡ ok tt
      → later.hash dto.payload ≡ around.hash dto.payload
      → ingest handlers later sender dto t ≡ (ok (record r { duplicate = true }), t)
  unfolding ingest handle_duplicate
  ingest_again handlers around later sender dto s t r e valid sha =
      let answered =
        subst (Outcome sender dto (around.hash dto.payload)) e
          (ingest-Outcome handlers around sender dto s) in
      rw (valid, answered.found, sha, answered.matches) (ap (λ x. (ok x, t)) answered.same)
