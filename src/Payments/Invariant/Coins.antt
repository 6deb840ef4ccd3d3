-- ===== src/Payments/Invariant/Coins.antt =====
-- Coin insertions keep the payment tables sound.
use coin_acceptor_backend.Prelude.{
  ℕ, zero, suc, ◌+◌, any, Bool, [], ◌∷◌, true, false, Option, none, some, List, ◌≡◌, refl, ◌==◌,
  find, is_some, arith, inl, inr, Bool-cases,
}
use coin_acceptor_backend.Effect.{bad_request, Result, ok, err, transaction, lift, pure, ◌>>=◌}
use coin_acceptor_backend.Table.{insert, Unique-find_self, All-map, All-find, All-insert}
use coin_acceptor_backend.Store.{Payment, CoinInsertion, Store}
use coin_acceptor_backend.Store.Write.{has_id, update_payment, add_coin}
use coin_acceptor_backend.Payments.Coins.{
  CoinEvent, CoinPayload, accept, reject, coin_row, coin_data, insert_new, handle_coin,
  has_reference, coin_status, credit, of_event, insert_for, accepts_coins, coin_transaction,
}
use coin_acceptor_backend.Payments.Policy.{assert_transition}
use coin_acceptor_backend.Payments.Invariant.{
  credited-insert, IsGood, IsSound, IsSoundOk, KeepsIdentity, update_payment-IsSound,
  transaction-IsSound, lift-IsSoundOk, pure-IsSoundOk, or_throw-IsSoundOk,
}

coin_data-KeepsIdentity : (received now : ℕ) → KeepsIdentity (coin_data received now)
unfolding coin_data
coin_data-KeepsIdentity received now = record { same_id = λ p. refl; same_method = λ p. refl }

-- A coin changes what is credited to its own payment only.
IsGood-other :
    (c : CoinInsertion) (cs : List CoinInsertion) (x : Payment)
    → (x.id == c.payment_id) ≡ false
    → IsGood cs x
    → IsGood (insert c cs) x
IsGood-other c cs x n (a, b) = (a, λ m. ground (arith, b m, credited-insert x.id c cs))

-- A rejected coin credits nothing.
IsGood-rejected :
    (c : CoinInsertion) (cs : List CoinInsertion) (x : Payment)
    → c.credited_amount_minor ≡ 0
    → IsGood cs x
    → IsGood (insert c cs) x
IsGood-rejected c cs x n (a, b) = (a, λ m. ground (arith, b m, credited-insert x.id c cs))

any-found : {A : Type 0} (q : A → Bool) (xs : List A) (x : A) → find q xs ≡ some x → any q xs ≡ true
any-found q [] x e = ground arith
any-found q (y ∷ ys) x e = ground (arith, any-found q ys x)

module _ (event : CoinEvent) (p : Payment) (payload : CoinPayload) (s : Store) where
  reject-IsSound :
      IsSound s → find (has_id p.id) s.payments ≡ some p → IsSoundOk (reject event p payload s)
  unfolding reject coin_row
  reject-IsSound h e = record {
    unique = h.unique;
    good = All-map _ _ s.payments (λ x. IsGood-rejected _ s.coins x refl) h.good;
    for_qr = h.for_qr;
    owned = All-insert _ _ s.coins (any-found (has_id p.id) s.payments p e) h.owned;
  }

  accept-IsSound :
      (amount now : ℕ)
      → IsSound s
      → find (has_id p.id) s.payments ≡ some p
      → IsGood s.coins p
      → IsSoundOk (accept event p payload amount now s)
  unfolding accept coin_row coin_data
  accept-IsSound amount now h e g =
      let c = coin_row event p payload amount amount true in
      let s' = add_coin c s in
      let received = p.received_amount_minor + amount in
      lift-IsSoundOk (assert_transition p.status (coin_status received p.expected_amount_minor))
        (λ _. update_payment p.id (coin_data received now) >>= λ _. pure tt) s'
        (λ _ _.
          pure-IsSoundOk (update_payment p.id (coin_data received now)) (λ _. tt) s'
            (update_payment-IsSound p.id (coin_data received now) s' p e
              (coin_data-KeepsIdentity received now) h.unique
              (All-map _ _ s.payments (λ x good n. IsGood-other c s.coins x n good) h.good) h.for_qr
              (All-insert _ c s.coins (any-found (has_id p.id) s.payments p e) h.owned)
              (λ m. ground (arith, g.1 m, credited-insert p.id c s.coins))))

-- The body of the transaction: a coin of a known, open coin payment.
insert_new-IsSound :
    (event : CoinEvent) (payload : CoinPayload) (amount : Option ℕ) (now : ℕ) (s : Store)
    → IsSound s
    → IsSoundOk (insert_new event payload amount now s)
unfolding insert_new
insert_new-IsSound event payload amount now s h =
    or_throw-IsSoundOk (find (has_reference payload.payment_reference) s.payments)
      (bad_request "Payment not found.") (insert_for event payload amount now) s
      λ p e.
        lift-IsSoundOk (accepts_coins event p) (λ _. credit event p payload amount now) s
          λ _ _. credited_or_not p e amount
  where
    own :
        (p : Payment)
        → find (has_reference payload.payment_reference) s.payments ≡ some p
        → find (has_id p.id) s.payments ≡ some p
    own p e =
        Unique-find_self (λ x. x.id) (has_reference payload.payment_reference) s.payments p e
          h.unique

    credited_or_not :
        (p : Payment)
        → find (has_reference payload.payment_reference) s.payments ≡ some p
        → (a : Option ℕ) → IsSoundOk (credit event p payload a now s)
    credited_or_not p e none = reject-IsSound event p payload s h (own p e)
    credited_or_not p e (some zero) = reject-IsSound event p payload s h (own p e)
    credited_or_not p e (some (suc n)) =
        accept-IsSound event p payload s (suc n) now h (own p e) (
          All-find (IsGood s.coins) (has_reference payload.payment_reference) s.payments p e h.good)

once-IsSoundOk :
    (event : CoinEvent) (payload : CoinPayload) (amount : Option ℕ) (now : ℕ) (s : Store)
    → IsSound s
    → IsSoundOk (coin_transaction event payload now amount s)
once-IsSoundOk event payload amount now s h =
    elim (Bool-cases (is_some (find (of_event event.id) s.coins))) [
      | inl old ↦ rw old h
      | inr new ↦ rw new (insert_new-IsSound event payload amount now s h)
    ]

-- Whatever coin event arrives, the payment tables stay sound.
pub handle_coin-IsSound :
    (event : CoinEvent) (parsed : Result CoinPayload) (denomination : ℕ → Result (Option ℕ))
    (now : ℕ) (s : Store)
    → IsSound s
    → IsSound (handle_coin event parsed denomination now s).1
unfolding handle_coin
handle_coin-IsSound event (err x) denomination now s h = h
handle_coin-IsSound event (ok payload) denomination now s h =
    by_amount (denomination payload.pulse_count)
  where
    by_amount :
        (r : Result (Option ℕ))
        → IsSound
            ((lift r >>= λ amount. transaction (coin_transaction event payload now amount)) s).1
    by_amount (err x) = h
    by_amount (ok amount) =
        transaction-IsSound (coin_transaction event payload now amount) s h
          (once-IsSoundOk event payload amount now s h)
