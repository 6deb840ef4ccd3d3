-- ===== src/Commands/Delivery/Laws.antt =====
-- What a poll delivers, and that nothing is delivered twice.
use coin_acceptor_backend.Prelude.{
  ℕ, Bool, false, ◌&&◌, List, [], ◌∷◌, ◌≡◌, ◌==◌, All, arith, Bool-cases, inl, inr,
}
use coin_acceptor_backend.Table.{All-update_where, All-unit}
use coin_acceptor_backend.Commands.{Command}
use coin_acceptor_backend.Commands.Delivery.{
  is_queued, is_among, is_eligible, mark_sent, deliver, in_order, put_in_order, before,
}

-- Sorting keeps what holds of every element.
module _ {κ} (P : Command → Type κ) (key : Command → ℕ) where
  put_in_order-All :
      (c : Command) (cs : List Command) → P c → All P cs → All P (put_in_order key c cs)
  unfolding put_in_order
  put_in_order-All c [] p a = (p, tt)
  put_in_order-All c (d ∷ ds) p (q, a) = elim (Bool-cases (before key c d)) [
    | inl y ↦ rw y (p, (q, a))
    | inr n ↦ rw n (q, put_in_order-All c ds p a)
  ]

  pub in_order-All : (cs : List Command) → All P cs → All P (in_order key cs)
  unfolding in_order
  in_order-All [] a = tt
  in_order-All (c ∷ cs) (p, a) = put_in_order-All c (in_order key cs) p (in_order-All cs a)

-- No command that a poll has taken up is eligible for the same device's next poll, whenever that
-- comes and whatever rows are locked then.
pub deliver_once :
    (ids : List Command) (device_id clock later : ℕ) (locked : ℕ → Bool) (cs : List Command)
    → All
        (λ c. is_eligible device_id later locked c && is_among ids c.id ≡ false)
        (deliver ids device_id clock cs)
unfolding deliver is_eligible mark_sent
deliver_once ids device_id clock later locked cs =
    All-update_where (λ c. Unit {0}) (λ c. Unit {0}) _
      (λ c. is_among ids c.id && c.device_id == device_id && is_queued c.status) (mark_sent clock)
      cs (λ c _ _ _. ground arith) (λ c out _ _. ground arith) (All-unit cs) (All-unit cs)
