-- ===== src/Charging/Tokens.antt =====
-- public-redis-token.store.ts, on its own memory: a map with a time after which each entry is
-- gone. Keys are told apart by their prefix and their text; values are held as they are, since
-- what is stored are plain objects.
pub mod Refinement
use coin_acceptor_backend.Prelude.{
  ℕ, ◌+◌, ◌*◌, Bool, true, false, not, Option, none, some, String, List, [], ◌∷◌, ◌=s◌, leb, ltb,
  find, filter, if◌then◌else◌,
}
use coin_acceptor_backend.Effect.{Action}

-- `public:flow:`, `public:payment-flow:` and `public:checkout:` before a text.
pub data Key : Type 0 where
  flow payment_flow checkout : String → Key

abbrev pub key_eq : Key → Key → Bool
key_eq (flow a) (flow b) = a =s b
key_eq (payment_flow a) (payment_flow b) = a =s b
key_eq (checkout a) (checkout b) = a =s b
key_eq _ _ = false

pub record Entry (V : Type 0) : Type 0 where
  pub key : Key
  pub expires_at : ℕ
  pub value : V

module _ {V : Type 0} where
  -- `Map.prototype.set` replaces the entry of its key in place.
  unfoldable pub put_entry : Entry V → List (Entry V) → List (Entry V)
  put_entry e [] = e ∷ []
  put_entry e (x ∷ xs) =
      let rest = put_entry e xs in if key_eq x.key e.key then e ∷ xs else x ∷ rest

  unfoldable pub set_json : Key → V → ℕ → ℕ → List (Entry V) → List (Entry V)
  unfolding put_entry
  set_json k v ttl_seconds now m =
      put_entry (record { key = k; expires_at = now + ttl_seconds * 1000; value = v }) m

  abbrev pub entry_of : Key → Entry V → Bool
  entry_of k e = key_eq e.key k

  unfoldable pub delete_key : Key → List (Entry V) → List (Entry V)
  delete_key k m = filter (λ e. not (entry_of k e)) m

  abbrev pub read_entry : Key → ℕ → Option (Entry V) → List (Entry V) → Option V × List (Entry V)
  read_entry k now none m = (none, m)
  read_entry k now (some e) m =
      if leb e.expires_at now then (none, delete_key k m) else (some e.value, m)

  unfoldable pub get_json : Key → ℕ → List (Entry V) → Option V × List (Entry V)
  unfolding delete_key
  get_json k now m = read_entry k now (find (entry_of k) m) m
