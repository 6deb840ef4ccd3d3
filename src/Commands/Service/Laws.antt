-- ===== src/Commands/Service/Laws.antt =====
-- Idempotency keys of commands, and what a retry gets.
use coin_acceptor_backend.Prelude.{
  ℕ, true, Option, none, some, get_or, String, ◌≡◌, refl, ap, ◌∙◌, ◌==◌, ==_refl, ◌=s◌, Bool-cases,
  inl, inr, eq_iff, ltb, find, arith,
}
use coin_acceptor_backend.Effect.{
  bad_request, Result, ok, err, Action, lift, ◌>>=◌, ◌>>◌, gets, bind_return,
}
use coin_acceptor_backend.Table.{insert, find-insert_new}
use coin_acceptor_backend.Json.{Json, obj}
use coin_acceptor_backend.Commands.{Command, CommandStore, Device}
use coin_acceptor_backend.Commands.Policy.{CreateCommand, assert_times, matches}
use coin_acceptor_backend.Commands.Service.{
  Actor, Environment, require_device, require_extra_permission, new_command, insert_command,
  reuse_or_insert, create,
}

module _ (validate : CreateCommand → Result (Unit {0})) (device_id : ℕ) (dto : CreateCommand)
    (actor : Actor) (env : Environment) (s : CommandStore) (d : Device) where
  -- The guards that `create` passes before it looks at the idempotency key.
  pub record IsAllowed : Type 0 where
    pub device : require_device device_id s ≡ (ok d, s)
    pub station : actor.require_station "device_commands.create" d.station_id ≡ ok tt
    pub extra : require_extra_permission dto.command_type dto.reason actor d ≡ ok tt
    pub times : assert_times dto env.now ≡ ok tt
    pub payload : validate dto ≡ ok tt

  -- A request that passes the guards comes down to its idempotency key.
  create_allowed :
      IsAllowed
      → create validate device_id dto actor env s
        ≡ reuse_or_insert
            (find (λ c. c.idempotency_key == get_or dto.idempotency_key env.fresh_key) s.commands)
            d
            dto
            actor
            env
            (get_or dto.idempotency_key env.fresh_key)
            s
  unfolding create
  create_allowed a =
      bind_return (require_device device_id)
        (λ x.
          lift (actor.require_station "device_commands.create" x.station_id)
          >> (lift (require_extra_permission dto.command_type dto.reason actor x)
              >> (lift times >> (lift (validate dto) >> by_key_of x))))
        s d s a.device
      ∙ ap (λ r. (lift r >> (lift extra >> (lift times >> (lift (validate dto) >> by_key)))) s)
          a.station
      ∙ ap (λ r. (lift r >> (lift times >> (lift (validate dto) >> by_key))) s) a.extra
      ∙ ap (λ r. (lift r >> (lift (validate dto) >> by_key)) s) a.times
      ∙ ap (λ r. (lift r >> by_key) s) a.payload
    where
      extra : Result (Unit {0})
      extra = require_extra_permission dto.command_type dto.reason actor d

      times : Result (Unit {0})
      times = assert_times dto env.now

      key : ℕ
      key = get_or dto.idempotency_key env.fresh_key

      by_key_of : Device → Action CommandStore Command
      by_key_of x = gets (λ t. find (λ c. c.idempotency_key == key) t.commands) >>= λ existing.
          reuse_or_insert existing x dto actor env key

      by_key : Action CommandStore Command
      by_key = by_key_of d

-- What a retry of a request finds of the first: its command.
new_command-matches :
    (d : Device) (dto : CreateCommand) (actor : Actor) (env : Environment) (key : ℕ)
    → (stringify : Json → String)
    → stringify (env.jsonb (obj dto.payload)) ≡ stringify (obj dto.payload)
    → matches stringify (new_command d dto actor env key) dto ≡ true
unfolding matches new_command
new_command-matches d dto actor env key stringify j = ground (
  arith,
  j,
  (eq_iff dto.command_type dto.command_type).1 refl,
  (eq_iff (stringify (obj dto.payload)) (stringify (obj dto.payload))).1 refl,
)

module _ (validate : CreateCommand → Result (Unit {0})) (device_id k : ℕ) (dto : CreateCommand)
    (actor : Actor) (env later : Environment) (s : CommandStore) (d d' : Device) where
  abbrev pub first : Command
  first = new_command d dto actor env k

  abbrev pub stored : CommandStore
  stored = (insert_command d dto actor env k s).1

  stored_commands : stored.commands ≡ insert first s.commands
  unfolding insert_command
  stored_commands = elim (Bool-cases (dto.command_type =s "locker.emergency_open")) [
    | inl y ↦ rw y refl
    | inr n ↦ rw n refl
  ]

  inserted : insert_command d dto actor env k s ≡ (ok first, stored)
  unfolding insert_command
  inserted = refl

  found :
      find (λ c. c.idempotency_key == k) s.commands ≡ none
      → find (λ c. c.idempotency_key == k) stored.commands ≡ some first
  unfolding new_command
  found new =
      ap (λ cs. find (λ (c : Command). c.idempotency_key == k) cs) stored_commands
      ∙ find-insert_new (λ c. c.idempotency_key == k) first s.commands new (==_refl k)

  abbrev by_key : Option ℕ → Environment → Device → CommandStore → Result Command × CommandStore
  by_key o e x t =
      reuse_or_insert (find (λ c. c.idempotency_key == get_or o e.fresh_key) t.commands) x dto actor
        e (get_or o e.fresh_key) t

  created :
      dto.idempotency_key ≡ some k
      → find (λ c. c.idempotency_key == k) s.commands ≡ none
      → IsAllowed validate device_id dto actor env s d
      → create validate device_id dto actor env s ≡ (ok first, stored)
  created key new a =
      create_allowed validate device_id dto actor env s d a
      ∙ ap (λ o. by_key o env d s) key
      ∙ ap (λ o. reuse_or_insert o d dto actor env k s) new
      ∙ inserted

  -- A request with a fresh idempotency key that passes the guards queues a command; the same
  -- request, made once more, gets that command back and writes nothing, whatever the clock and the
  -- new ids are then, as long as it passes the guards again and the payload prints the same once
  -- the database has stored it.
  pub create_twice :
      dto.idempotency_key ≡ some k
      → find (λ c. c.idempotency_key == k) s.commands ≡ none
      → later.stringify (env.jsonb (obj dto.payload)) ≡ later.stringify (obj dto.payload)
      → IsAllowed validate device_id dto actor env s d
      → IsAllowed validate device_id dto actor later stored d'
      → (create validate device_id dto actor env s ≡ (ok first, stored))
        × (create validate device_id dto actor later stored ≡ (ok first, stored))
  create_twice key new j a b = (
    created key new a,
    create_allowed validate device_id dto actor later stored d' b
        ∙ ap (λ o. by_key o later d' stored) key
        ∙ ap (λ o. reuse_or_insert o d' dto actor later k stored) (found new)
        ∙ rw (new_command-matches d dto actor env k later.stringify j) refl,
  )

assert_times_late :
    (dto : CreateCommand) (now available : ℕ)
    → dto.available_at ≡ some available
    → ltb available now ≡ true
    → assert_times dto now ≡ err (bad_request "availableAt cannot be before requestedAt.")
unfolding assert_times
assert_times_late dto now available e l = rw (e, l) refl

-- A request whose `availableAt` has passed is refused before its key is looked up.
create_late :
    (validate : CreateCommand → Result (Unit {0})) (device_id : ℕ) (dto : CreateCommand)
    (actor : Actor) (later : Environment) (s : CommandStore) (d : Device) (available : ℕ)
    → require_device device_id s ≡ (ok d, s)
    → actor.require_station "device_commands.create" d.station_id ≡ ok tt
    → require_extra_permission dto.command_type dto.reason actor d ≡ ok tt
    → dto.available_at ≡ some available
    → ltb available later.now ≡ true
    → create validate device_id dto actor later s
      ≡ (err (bad_request "availableAt cannot be before requestedAt."), s)
unfolding create
create_late validate device_id dto actor later s d available device station extra at late =
    bind_return (require_device device_id)
      (λ x.
        lift (actor.require_station "device_commands.create" x.station_id)
        >> (lift (require_extra_permission dto.command_type dto.reason actor x)
            >> (lift (assert_times dto later.now) >> rest x)))
      s d s device
    ∙ ap
        (λ r.
          (lift r
              >> (lift (require_extra_permission dto.command_type dto.reason actor d)
                  >> (lift (assert_times dto later.now) >> rest d)))
            s)
        station
    ∙ ap (λ r. (lift r >> (lift (assert_times dto later.now) >> rest d)) s) extra
    ∙ ap (λ r. (lift r >> rest d) s) past
  where
    key : ℕ
    key = get_or dto.idempotency_key later.fresh_key

    rest : Device → Action CommandStore Command
    rest x =
        lift (validate dto)
        >> (gets (λ t. find (λ c. c.idempotency_key == key) t.commands) >>= λ existing.
            reuse_or_insert existing x dto actor later key)

    past :
        assert_times dto later.now ≡ err (bad_request "availableAt cannot be before requestedAt.")
    past = assert_times_late dto later.now available at late

module _ (validate : CreateCommand → Result (Unit {0})) (device_id k : ℕ) (dto : CreateCommand)
    (actor : Actor) (env later : Environment) (s : CommandStore) (d d' : Device)
    (available : ℕ) where
  abbrev queued : Command
  queued = first validate device_id k dto actor env later s d d'

  abbrev after : CommandStore
  after = stored validate device_id k dto actor env later s d d'

  -- A request with a fresh idempotency key that passes the guards queues a command, which is found
  -- by its key; the same request, made once more after its `availableAt` has passed by the actor
  -- who still has the permissions for the device, is refused and leaves the store as it is,
  -- instead of being answered with that command.
  pub create_retry_late :
      dto.idempotency_key ≡ some k
      → find (λ c. c.idempotency_key == k) s.commands ≡ none
      → IsAllowed validate device_id dto actor env s d
      → require_device device_id after ≡ (ok d', after)
      → actor.require_station "device_commands.create" d'.station_id ≡ ok tt
      → require_extra_permission dto.command_type dto.reason actor d' ≡ ok tt
      → dto.available_at ≡ some available
      → ltb available later.now ≡ true
      → (create validate device_id dto actor env s ≡ (ok queued, after))
        × (find (λ c. c.idempotency_key == k) after.commands ≡ some queued)
        × (create validate device_id dto actor later after
            ≡ (err (bad_request "availableAt cannot be before requestedAt."), after))
  create_retry_late key new a device station extra at late = (
    created validate device_id k dto actor env later s d d' key new a,
    found validate device_id k dto actor env later s d d' new,
    create_late validate device_id dto actor later after d' available device station extra at late,
  )
