-- ===== src/Charging/Tokens/Refinement.antt =====
-- What the token store promises: a map from keys and times to values.
use coin_acceptor_backend.Prelude.{
  ℕ, ◌+◌, ◌*◌, ◌≤◌, true, false, Option, none, some, List, [], ◌∷◌, leb, find, if◌then◌else◌, ◌≡◌,
  refl, arith, Bool-cases, inl, inr, sym, ap, ◌∙◌, eq_iff,
}
use coin_acceptor_backend.Charging.Tokens.{
  Key, flow, payment_flow, checkout, key_eq, Entry, put_entry, set_json, entry_of, delete_key,
  read_entry, get_json,
}

-- What a reader of a key sees at a time.
abbrev pub Spec : Type 0 → Type 0
Spec V = Key → ℕ → Option V

-- A call on the store, with its time.
pub data Call (V : Type 0) : Type 0 where
  setting : Key → V → ℕ → Call V
  getting : Key → Call V
  deleting : Key → Call V

module _ {V : Type 0} where
  abbrev pub spec_set : Key → V → ℕ → ℕ → Spec V → Spec V
  spec_set k v ttl_seconds now spec j t =
      if key_eq k j then (if leb (now + ttl_seconds * 1000) t then none else some v) else spec j t

  abbrev pub spec_delete : Key → Spec V → Spec V
  spec_delete k spec j t = if key_eq k j then none else spec j t

  -- What the reads of a run return, from the memory and from the specification.
  unfoldable pub run_memory : List (ℕ × Call V) → List (Entry V) → List (Option V)
  unfolding set_json get_json delete_key
  run_memory [] m = []
  run_memory ((now, setting k v ttl) ∷ calls) m = run_memory calls (set_json k v ttl now m)
  run_memory ((now, getting k) ∷ calls) m =
      (get_json k now m).0 ∷ run_memory calls (get_json k now m).1
  run_memory ((now, deleting k) ∷ calls) m = run_memory calls (delete_key k m)

  unfoldable pub run_spec : List (ℕ × Call V) → Spec V → List (Option V)
  run_spec [] spec = []
  run_spec ((now, setting k v ttl) ∷ calls) spec = run_spec calls (spec_set k v ttl now spec)
  run_spec ((now, getting k) ∷ calls) spec = spec k now ∷ run_spec calls spec
  run_spec ((now, deleting k) ∷ calls) spec = run_spec calls (spec_delete k spec)

  -- The clock does not go back.
  abbrev pub InOrder : ℕ → List (ℕ × Call V) → Type 0
  InOrder t [] = Unit
  InOrder t ((now, c) ∷ calls) = (t ≤ now) × InOrder now calls

  abbrev alive : ℕ → Option (Entry V) → Option V
  alive t none = none
  alive t (some e) = if leb e.expires_at t then none else some e.value

  -- The memory stands for a specification from a time on.
  abbrev pub Represents : List (Entry V) → Spec V → ℕ → Type 0
  Represents m spec now = (k : Key) (t : ℕ) → now ≤ t → alive t (find (entry_of k) m) ≡ spec k t

pub key_eq_refl : (k : Key) → key_eq k k ≡ true
key_eq_refl (flow a) = (eq_iff a a).1 refl
key_eq_refl (payment_flow a) = (eq_iff a a).1 refl
key_eq_refl (checkout a) = (eq_iff a a).1 refl

pub key_eq_iff : (a b : Key) → key_eq a b ≡ true → a ≡ b
key_eq_iff (flow a) (flow b) h = ap flow ((eq_iff a b).0 h)
key_eq_iff (payment_flow a) (payment_flow b) h = ap payment_flow ((eq_iff a b).0 h)
key_eq_iff (checkout a) (checkout b) h = ap checkout ((eq_iff a b).0 h)
key_eq_iff (flow a) (payment_flow b) h = absurd (cc)
key_eq_iff (flow a) (checkout b) h = absurd (cc)
key_eq_iff (payment_flow a) (flow b) h = absurd (cc)
key_eq_iff (payment_flow a) (checkout b) h = absurd (cc)
key_eq_iff (checkout a) (flow b) h = absurd (cc)
key_eq_iff (checkout a) (payment_flow b) h = absurd (cc)

key_eq_apart : (a b : Key) → key_eq a b ≡ false → key_eq b a ≡ false
key_eq_apart a b n = elim (Bool-cases (key_eq b a)) [
  | inl y ↦ absurd (clash (key_eq_iff b a y))
  | inr m ↦ m
]
  where
    clash : b ≡ a → ⊥
    clash same = let both = ap (key_eq a) same ∙ key_eq_refl a in cc

module _ {V : Type 0} where
  pub find-put_entry :
      (e : Entry V) (k : Key) (m : List (Entry V))
      → find (entry_of k) (put_entry e m) ≡ (if key_eq e.key k then some e else find (entry_of k) m)
  unfolding put_entry
  find-put_entry e k [] = refl
  find-put_entry e k (x ∷ xs) = elim (Bool-cases (key_eq x.key e.key)) [
    | inl y ↦
        let same = key_eq_iff x.key e.key y in
        elim (Bool-cases (key_eq e.key k)) [
          | inl z ↦ rw (y, z) refl
          | inr n ↦ rw (y, n, same, n) refl
        ]
    | inr n ↦ elim (Bool-cases (key_eq x.key k)) [
      | inl z ↦
          let other : key_eq e.key k ≡ false = apart (key_eq_iff x.key k z) n in
          rw (n, z, other) refl
      | inr l ↦ rw (n, l) (find-put_entry e k xs)
    ]
  ]
    where
      apart : x.key ≡ k → key_eq x.key e.key ≡ false → key_eq e.key k ≡ false
      apart same n = key_eq_apart k e.key (rw same at n)

  find-delete_key :
      (k j : Key) (m : List (Entry V))
      → find (entry_of j) (delete_key k m) ≡ (if key_eq k j then none else find (entry_of j) m)
  unfolding delete_key
  find-delete_key k j [] = elim (Bool-cases (key_eq k j)) [ inl y ↦ rw y refl | inr n ↦ rw n refl ]
  find-delete_key k j (x ∷ xs) = elim (Bool-cases (key_eq x.key k)) [
    | inl y ↦
        let same = key_eq_iff x.key k y in
        elim (Bool-cases (key_eq k j)) [
          | inl z ↦ rw (y, z) (find-delete_key k j xs ∙ rw z refl)
          | inr n ↦ rw (y, n, same, n) (find-delete_key k j xs ∙ rw n refl)
        ]
    | inr n ↦ elim (Bool-cases (key_eq x.key j)) [
      | inl z ↦ rw (n, z, sym (key_eq_iff x.key j z), key_eq_apart x.key k n) refl
      | inr l ↦ rw (n, l) (find-delete_key k j xs)
    ]
  ]

  set-Represents :
      (k : Key) (v : V) (ttl now : ℕ) (m : List (Entry V)) (spec : Spec V)
      → Represents m spec now
      → Represents (set_json k v ttl now m) (spec_set k v ttl now spec) now
  unfolding set_json
  set-Represents k v ttl now m spec r j t h =
      let e : Entry V = record { key = k; expires_at = now + ttl * 1000; value = v } in
      ap (alive t) (find-put_entry e j m)
      ∙ elim (Bool-cases (key_eq k j)) [ inl y ↦ rw y refl | inr n ↦ rw n (r j t h) ]

  delete-Represents :
      (k : Key) (now : ℕ) (m : List (Entry V)) (spec : Spec V)
      → Represents m spec now
      → Represents (delete_key k m) (spec_delete k spec) now
  delete-Represents k now m spec r j t h =
      ap (alive t) (find-delete_key k j m)
      ∙ elim (Bool-cases (key_eq k j)) [ inl y ↦ rw y refl | inr n ↦ rw n (r j t h) ]

  later-Represents :
      (m : List (Entry V)) (spec : Spec V) (now later : ℕ)
      → now ≤ later
      → Represents m spec now
      → Represents m spec later
  later-Represents m spec now later h r k t l = r k t (omega arith)

  -- An entry that has expired is gone for every later reader, so a read may remove it.
  read-Represents :
      (k : Key) (now : ℕ) (m : List (Entry V)) (spec : Spec V) (o : Option (Entry V))
      → find (entry_of k) m ≡ o
      → Represents m spec now
      → ((read_entry k now o m).0 ≡ spec k now) × Represents (read_entry k now o m).1 spec now
  read-Represents k now m spec none e r = (rw e at (r k now (omega arith)), r)
  read-Represents k now m spec (some x) e r = elim (Bool-cases (leb x.expires_at now)) [
    | inl y ↦ rw y (rw (e, y) at (r k now (omega arith)), gone y)
    | inr n ↦ rw n (rw (e, n) at (r k now (omega arith)), r)
  ]
    where
      gone : leb x.expires_at now ≡ true → Represents (delete_key k m) spec now
      gone y j t h = ap (alive t) (find-delete_key k j m) ∙ elim (Bool-cases (key_eq k j)) [
        | inl z ↦
            let past : leb x.expires_at t ≡ true = ground (arith, y, h) in
            rw z (rw (e, past) at (r k t h) ∙ ap (λ i. spec i t) (key_eq_iff k j z))
        | inr n ↦ rw n (r j t h)
      ]

  -- The token store in memory, which drops an expired entry when its key is read, answers every
  -- sequence of reads, writes and deletions whose times do not go back as the specification does,
  -- which keeps for each key the last value until it expires, provided that the memory stands for
  -- the specification at the start.
  pub run_memory_refines :
      (calls : List (ℕ × Call V)) (start : ℕ) (m : List (Entry V)) (spec : Spec V)
      → InOrder start calls
      → Represents m spec start
      → run_memory calls m ≡ run_spec calls spec
  unfolding run_memory run_spec get_json
  run_memory_refines [] start m spec o r = refl
  run_memory_refines ((now, setting k v ttl) ∷ calls) start m spec (h, o) r =
      run_memory_refines calls now (set_json k v ttl now m) (spec_set k v ttl now spec) o
        (set-Represents k v ttl now m spec (later-Represents m spec start now h r))
  run_memory_refines ((now, getting k) ∷ calls) start m spec (h, o) r =
      let (same, rest) =
        read-Represents k now m spec (find (entry_of k) m) refl
          (later-Represents m spec start now h r) in
      rw
        (
          same,
          run_memory_refines calls now (read_entry k now (find (entry_of k) m) m).1 spec o rest,
        )
        refl
  run_memory_refines ((now, deleting k) ∷ calls) start m spec (h, o) r =
      run_memory_refines calls now (delete_key k m) (spec_delete k spec) o
        (delete-Represents k now m spec (later-Represents m spec start now h r))
