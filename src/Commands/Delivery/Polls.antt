-- ===== src/Commands/Delivery/Polls.antt =====
-- What a poll hands to a device.
use coin_acceptor_backend.Prelude.{
  ℕ, zero, suc, Bool, true, false, not, ◌&&◌, ◌||◌, List, [], ◌∷◌, ◌≡◌, refl, ◌==◌, leb, any, All,
  length, take, filter, filter-All, arith, Bool-cases, inl, inr, subst, sym, ◌∙◌, if◌then◌else◌,
}
use coin_acceptor_backend.Effect.{Result, ok, err}
use coin_acceptor_backend.Table.{update_where, All-map}
use coin_acceptor_backend.Commands.{Command, CommandStore}
use coin_acceptor_backend.Commands.Delivery.{
  is_queued, is_sent, is_among, is_eligible, expired_by, poll_ids, mark_sent, deliver, poll,
  in_order, put_in_order, before,
}
use coin_acceptor_backend.Commands.Delivery.Laws.{in_order-All}

abbrev has_id : ℕ → Command → Bool
has_id i c = c.id == i

-- The commands that a device may be handed at a time, with an id.
abbrev pub is_due : ℕ → ℕ → (ℕ → Bool) → ℕ → Command → Bool
is_due device_id now locked i c =
    c.id == i
    && c.device_id == device_id
    && is_queued c.status
    && leb c.available_at now
    && not (expired_by now c.expires_at)
    && not (locked c.id)

module _ (key : Command → ℕ) (p : Command → Bool) where
  any-put_in_order :
      (c : Command) (cs : List Command) → any p (put_in_order key c cs) ≡ p c || any p cs
  unfolding put_in_order
  any-put_in_order c [] = refl
  any-put_in_order c (d ∷ ds) = elim (Bool-cases (before key c d)) [
    | inl y ↦ rw y refl
    | inr n ↦ rw n (ground (arith, any-put_in_order c ds))
  ]

  any-in_order : (cs : List Command) → any p (in_order key cs) ≡ any p cs
  unfolding in_order
  any-in_order [] = refl
  any-in_order (c ∷ cs) = ground (arith, any-put_in_order c (in_order key cs), any-in_order cs)

any-take :
    (p : Command → Bool) (k : ℕ) (cs : List Command) → any p (take k cs) ≡ true → any p cs ≡ true
any-take p zero cs h = ground arith
any-take p (suc k) [] h = h
any-take p (suc k) (c ∷ cs) h = ground (arith, any-take p k cs)

any_first :
    (p : Command → Bool) (b : Bool) (x : Command) (xs : List Command)
    → b ≡ true
    → p x ≡ true
    → any p (if b then x ∷ xs else xs) ≡ true
any_first p true x xs e h = ground arith
any_first p false x xs e h = absurd (cc)

any_kept :
    (p : Command → Bool) (b : Bool) (x : Command) (xs : List Command)
    → any p xs ≡ true
    → any p (if b then x ∷ xs else xs) ≡ true
any_kept p true x xs h = ground arith
any_kept p false x xs h = h

none_empty : (p : Command → Bool) (xs : List Command) → (length xs == 0) ≡ true → any p xs ≡ false
none_empty p [] h = refl
none_empty p (x ∷ xs) h = ground arith

module _ (limit device_id now clock : ℕ) (locked : ℕ → Bool) (s : CommandStore) where
  abbrev ids : List Command
  ids = poll_ids limit device_id now locked s.commands

  any_due :
      (i : ℕ) (cs : List Command)
      → is_among (filter (is_eligible device_id now locked) cs) i ≡ true
      → any (is_due device_id now locked i) cs ≡ true
  unfolding is_eligible
  any_due i [] h = h
  any_due i (c ∷ cs) h = elim (Bool-cases (is_eligible device_id now locked c)) [
    | inl y ↦ ground (arith, any_due i cs)
    | inr n ↦ ground (arith, any_due i cs)
  ]

  among_due :
      (i : ℕ) → is_among ids i ≡ true → any (is_due device_id now locked i) s.commands ≡ true
  unfolding poll_ids
  among_due i h = any_due i s.commands (
      subst (λ b. b ≡ true)
        (any-in_order (λ c. c.requested_at) (has_id i)
          (filter (is_eligible device_id now locked) s.commands))
        (any-take (has_id i) limit _ h))

  abbrev takes : Command → Bool
  takes c = is_among ids c.id && c.device_id == device_id && is_queued c.status

  abbrev hands : Command → Bool
  hands c = is_among ids c.id && c.device_id == device_id && is_sent c.status

  marked :
      (i : ℕ) (c : Command)
      → is_among ids i ≡ true
      → is_due device_id now locked i c ≡ true
      → (hands (if takes c then mark_sent clock c else c) ≡ true)
        × (has_id i (if takes c then mark_sent clock c else c) ≡ true)
  unfolding mark_sent
  marked i c a y =
      let at : c.id ≡ i = ground arith in
      let among : is_among ids c.id ≡ true = subst (λ j. is_among ids j ≡ true) (sym at) a in
      let own : (c.device_id == device_id) ≡ true = ground arith in
      let queued : is_queued c.status ≡ true = ground arith in
      let taken : takes c ≡ true = rw (among, own, queued) refl in
      written (takes c) taken among own (ground arith)
    where
      written :
          (b : Bool)
          → b ≡ true
          → is_among ids c.id ≡ true
          → (c.device_id == device_id) ≡ true
          → (c.id == i) ≡ true
          → (hands (if b then mark_sent clock c else c) ≡ true)
            × (has_id i (if b then mark_sent clock c else c) ≡ true)
      written true e among own at = (rw (among, own) refl, at)
      written false e among own at = absurd (cc)

  handed :
      (i : ℕ) (cs : List Command)
      → is_among ids i ≡ true
      → any (is_due device_id now locked i) cs ≡ true
      → any (has_id i) (filter hands (update_where takes (mark_sent clock) cs)) ≡ true
  handed i [] a h = h
  handed i (c ∷ cs) a h = elim (Bool-cases (is_due device_id now locked i c)) [
    | inl y ↦ let (h1, h2) = marked i c a y in any_first (has_id i) _ _ _ h1 h2
    | inr n ↦ any_kept (has_id i) _ _ _ (handed i cs a (ground arith))
  ]

  -- What the device is handed: its own commands, marked sent, each of which was due; and all of
  -- those that the poll took up.
  pub record IsServed (c : Command) : Type 0 where
    pub own : (c.device_id == device_id) ≡ true
    pub sent : is_sent c.status ≡ true
    pub was_due : any (is_due device_id now locked c.id) s.commands ≡ true

  abbrev pub Served : Result (List Command) → Type 0
  Served (ok cs) = All IsServed cs × ((i : ℕ) → is_among ids i ≡ true → is_among cs i ≡ true)
  Served (err e) = ⊥

  -- A poll always returns. Every command that it returns belongs to the device that polls, is
  -- marked sent, and has the id of a command that was due: one of that device that was queued,
  -- available, not expired and not locked by another transaction; and every command that the poll
  -- has taken up is among those returned.
  pub poll-Served : Served (poll limit device_id now clock locked s).0
  unfolding poll deliver
  poll-Served = elim (Bool-cases (length ids == 0)) [
    | inl y ↦ rw y (tt, λ i a. absurd (clash (is_among ids i) (none_empty (has_id i) ids y) a))
    | inr n ↦ rw n (
      in_order-All IsServed (λ c. c.requested_at) given served,
      λ i a.
          any-in_order (λ c. c.requested_at) (has_id i) given
          ∙ handed i s.commands a (among_due i a),
    )
  ]
    where
      clash : (b : Bool) → b ≡ false → b ≡ true → ⊥
      clash b u v = cc

      given : List Command
      given = filter hands (update_where takes (mark_sent clock) s.commands)

      served : All IsServed given
      served =
          All-map _ IsServed given
            (λ c h. record {
              own = ground arith;
              sent = ground arith;
              was_due = among_due c.id (ground arith);
            })
            (filter-All hands (update_where takes (mark_sent clock) s.commands))
