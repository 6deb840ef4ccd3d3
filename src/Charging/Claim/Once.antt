-- ===== src/Charging/Claim/Once.antt =====
-- An access code is claimed once.
use coin_acceptor_backend.Prelude.{
  ℕ, true, some, is_some, String, ==_refl, find, ◌≡◌, refl, ap, sym, subst, ◌∙◌, Bool-cases, inl,
  inr,
}
use coin_acceptor_backend.Effect.{Result, ok, err, IsOk, settle}
use coin_acceptor_backend.Table.{update_where, find-update_where}
use coin_acceptor_backend.Store.{ChargingSession}
use coin_acceptor_backend.Charging.Claim.{
  ClaimStore, Slot, by_reference, has_session_id, taken, set_verifier, store_verifier, claim_commit,
}

-- Whether the session of a reference cannot be claimed.
abbrev pub IsTaken : ℕ → ClaimStore → Type 0
IsTaken r s = taken (find (by_reference r) s.store.sessions) ≡ true

abbrev Outcome : ℕ → Result (Unit {0}) × ClaimStore → Type 0
Outcome r (ok x, t) = IsTaken r t
Outcome r (err e, t) = Unit

module _ (print : ℕ → String) (read : ChargingSession) (verifier : String) (expires_at : ℕ)
    (slot : Slot) where
  taken_after :
      (s : ClaimStore) (x : ChargingSession)
      → find (by_reference read.session_reference) s.store.sessions ≡ some x
      → x.id ≡ read.id
      → taken (
          find (by_reference read.session_reference) (
            update_where
              (has_session_id read.id)
              (set_verifier verifier expires_at)
              s.store.sessions))
        ≡ true
  taken_after s x e same =
      ap taken (
        find-update_where (by_reference read.session_reference) (has_session_id read.id)
          (set_verifier verifier expires_at) s.store.sessions (λ y. refl) x e)
      ∙ rw (same, ==_refl read.id) refl

  store_verifier-Outcome :
      (s : ClaimStore) (x : ChargingSession)
      → find (by_reference read.session_reference) s.store.sessions ≡ some x
      → x.id ≡ read.id
      → Outcome read.session_reference (store_verifier print read verifier expires_at slot s)
  unfolding store_verifier
  store_verifier-Outcome s x e same =
      elim (Bool-cases (taken (find (by_reference read.session_reference) s.store.sessions))) [
        | inl y ↦ rw y tt
        | inr n ↦
            rw n (elim (Bool-cases (is_some (find (has_session_id read.id) s.store.sessions))) [
              | inl y ↦ rw y (taken_after s x e same)
              | inr m ↦ rw m tt
            ])
      ]

  -- A session that is taken is never claimed.
  claim_commit_taken :
      (s : ClaimStore)
      → IsTaken read.session_reference s
      → ¬ IsOk (claim_commit print read verifier expires_at slot s).0
  unfolding claim_commit store_verifier
  claim_commit_taken s h = rw h (λ x. x)

settle-Outcome :
    (r : ℕ) (s : ClaimStore) (q : Result (Unit {0}) × ClaimStore)
    → Outcome r q
    → Outcome r (settle s q)
settle-Outcome r s (ok x, t) h = h
settle-Outcome r s (err e, t) h = tt

-- The access code of a session is claimed once: after a claim that stored its verifier, every
-- later one for the same session reference throws, whatever row of the session it has read before,
-- provided that the row which the first one read has the id of the row with its reference.
pub claim_commit_once :
    (print : ℕ → String) (read again : ChargingSession) (verifier verifier' : String)
    (expires_at later : ℕ) (slot slot' : Slot) (s t : ClaimStore) (x : ChargingSession)
    → find (by_reference read.session_reference) s.store.sessions ≡ some x
    → x.id ≡ read.id
    → claim_commit print read verifier expires_at slot s ≡ (ok tt, t)
    → again.session_reference ≡ read.session_reference
    → ¬ IsOk (claim_commit print again verifier' later slot' t).0
unfolding claim_commit
claim_commit_once print read again verifier verifier' expires_at later slot slot' s t x e id run
      same =
    claim_commit_taken print again verifier' later slot' t
      (subst (λ r. IsTaken r t) (sym same) held)
  where
    held : IsTaken read.session_reference t
    held = subst (Outcome read.session_reference) run (
        settle-Outcome read.session_reference s
          (store_verifier print read verifier expires_at slot s)
          (store_verifier-Outcome print read verifier expires_at slot s x e id))
