-- ===== src/Payments/Coins/Laws.antt =====
-- A coin event counts once.
use coin_acceptor_backend.Prelude.{
  ℕ, ◌+◌, true, false, Option, none, some, is_some, List, [], ◌∷◌, ◌≡◌, refl, ap, subst, ◌∙◌,
  ==_refl, find, arith, Bool-cases, Option-cases, inl, inr,
}
use coin_acceptor_backend.Effect.{
  Result, ok, err, Action, transaction, settle, or_throw, lift, pure, ◌>>=◌, ◌>>◌,
}
use coin_acceptor_backend.Table.{insert}
use coin_acceptor_backend.Store.{Payment, CoinInsertion, Store}
use coin_acceptor_backend.Store.Write.{has_id, update_payment, payment_state_allowed, add_coin}
use coin_acceptor_backend.Payments.Policy.{assert_transition}
use coin_acceptor_backend.Payments.Coins.{
  CoinEvent, CoinPayload, of_event, has_reference, coin_row, coin_status, coin_data, accept, reject,
  credit, accepts_coins, insert_new, coin_transaction, handle_coin,
}

-- The event's coin is in the table.
abbrev Counted : ℕ → Store → Type 0
Counted i s = is_some (find (of_event i) s.coins) ≡ true

abbrev Outcome : ℕ → Result (Unit {0}) × Store → Type 0
Outcome i (ok x, t) = Counted i t
Outcome i (err e, t) = Unit

counted_new :
    (c : CoinInsertion) (cs : List CoinInsertion)
    → is_some (find (of_event c.device_event_id) (insert c cs)) ≡ true
counted_new c [] = rw (==_refl c.device_event_id) refl
counted_new c (d ∷ cs) = ground (arith, counted_new c cs)

reject-Outcome :
    (event : CoinEvent) (p : Payment) (payload : CoinPayload) (s : Store)
    → Outcome event.id (reject event p payload s)
unfolding reject coin_row
reject-Outcome event p payload s = counted_new (coin_row event p payload 1 0 false) s.coins

bind-Outcome :
    {A : Type 0} (i : ℕ) (m : Action Store A) (k : A → Action Store (Unit {0})) (s : Store)
    → Counted i (m s).1
    → ((a : A) (t : Store) → Counted i t → Outcome i (k a t))
    → Outcome i ((m >>= k) s)
bind-Outcome {A} i m k s h f = go (m s) h
  where
    go :
        (r : Result A × Store)
        → Counted i r.1
        → Outcome i
            (elim r.0 as (λ _. Result (Unit {0}) × Store) [ ok a ↦ k a r.1 | err e ↦ (err e, r.1) ])
    go (ok a, t) c = f a t c
    go (err e, t) c = tt

-- An update of a payment leaves the coins alone.
update_payment-coins :
    (j : ℕ) (f : Payment → Payment) (s : Store) → (update_payment j f s).1.coins ≡ s.coins
unfolding update_payment
update_payment-coins j f s = elim (Option-cases (find (has_id j) s.payments)) [
  | inl n ↦ rw (n, or_throw) refl
  | inr (p, e) ↦
      rw (e, or_throw)
        (elim (Bool-cases (payment_state_allowed (f p))) [ inl y ↦ rw y refl | inr n ↦ rw n refl ])
]

accept-Outcome :
    (event : CoinEvent) (p : Payment) (payload : CoinPayload) (amount now : ℕ) (s : Store)
    → Outcome event.id (accept event p payload amount now s)
unfolding accept coin_row
accept-Outcome event p payload amount now s =
    bind-Outcome event.id
      (lift (assert_transition p.status (coin_status received p.expected_amount_minor)))
      (λ _. update_payment p.id (coin_data received now) >> pure tt) s' (counted_new row s.coins)
      λ _ t h.
        bind-Outcome event.id (update_payment p.id (coin_data received now)) (λ _. pure tt) t
          (ap (λ cs. is_some (find (of_event event.id) cs))
              (update_payment-coins p.id (coin_data received now) t)
            ∙ h)
          λ _ u k. k
  where
    received : ℕ
    received = p.received_amount_minor + amount

    row : CoinInsertion
    row = coin_row event p payload amount amount true

    s' : Store
    s' = add_coin row s

insert_new-Outcome :
    (event : CoinEvent) (payload : CoinPayload) (amount : Option ℕ) (now : ℕ) (s : Store)
    → Outcome event.id (insert_new event payload amount now s)
unfolding insert_new
insert_new-Outcome event payload amount now s =
    elim (Option-cases (find (has_reference payload.payment_reference) s.payments)) [
      | inl n ↦ rw (n, or_throw) tt
      | inr (p, e) ↦ rw (e, or_throw) (inserted (accepts_coins event p) p amount)
    ]
  where
    credited : (p : Payment) (o : Option ℕ) → Outcome event.id (credit event p payload o now s)
    credited p none = reject-Outcome event p payload s
    credited p (some ℕ.zero) = reject-Outcome event p payload s
    credited p (some (ℕ.suc n)) = accept-Outcome event p payload (ℕ.suc n) now s

    inserted :
        (r : Result (Unit {0})) (p : Payment) (o : Option ℕ)
        → Outcome event.id ((lift r >>= λ _. credit event p payload o now) s)
    inserted (ok x) p o = credited p o
    inserted (err x) p o = tt

settle-Outcome :
    (i : ℕ) (s : Store) (r : Result (Unit {0}) × Store) → Outcome i r → Outcome i (settle s r)
settle-Outcome i s (ok x, t) h = h
settle-Outcome i s (err x, t) h = tt

coin_transaction-Outcome :
    (event : CoinEvent) (payload : CoinPayload) (now : ℕ) (amount : Option ℕ) (s : Store)
    → Outcome event.id (coin_transaction event payload now amount s)
coin_transaction-Outcome event payload now amount s =
    elim (Bool-cases (is_some (find (of_event event.id) s.coins))) [
      | inl y ↦ rw y y
      | inr n ↦ rw n (insert_new-Outcome event payload amount now s)
    ]

handle_coin-Outcome :
    (event : CoinEvent) (parsed : Result CoinPayload) (denomination : ℕ → Result (Option ℕ))
    (now : ℕ) (s : Store)
    → Outcome event.id (handle_coin event parsed denomination now s)
unfolding handle_coin
handle_coin-Outcome event (err e) denomination now s = tt
handle_coin-Outcome event (ok payload) denomination now s = go (denomination payload.pulse_count)
  where
    go :
        (r : Result (Option ℕ))
        → Outcome event.id
            ((lift r >>= λ amount. transaction (coin_transaction event payload now amount)) s)
    go (ok amount) =
        settle-Outcome event.id s (coin_transaction event payload now amount s)
          (coin_transaction-Outcome event payload now amount s)
    go (err e) = tt

-- A coin event that was handled is handled again without a change: whatever its payload says then
-- and whatever the pulse mapping has become, as long as both are readable, the call returns and
-- the store stays the same, so no coin is credited twice.
pub handle_coin_again :
    (event : CoinEvent) (parsed : Result CoinPayload) (denomination : ℕ → Result (Option ℕ))
    (now : ℕ) (s t : Store) (payload : CoinPayload) (mapping : ℕ → Result (Option ℕ))
    (amount : Option ℕ) (later : ℕ)
    → handle_coin event parsed denomination now s ≡ (ok tt, t)
    → mapping payload.pulse_count ≡ ok amount
    → handle_coin event (ok payload) mapping later t ≡ (ok tt, t)
unfolding handle_coin
handle_coin_again event parsed denomination now s t payload mapping amount later e m =
    rw m (ap (settle t) same)
  where
    counted : Counted event.id t
    counted = subst (Outcome event.id) e (handle_coin-Outcome event parsed denomination now s)

    same : coin_transaction event payload later amount t ≡ (ok tt, t)
    same = rw counted refl
