-- ===== src/Ingestion/Nonces.antt =====
-- device-replay-protection.service.ts, with the nonces in memory; the Redis command that it sends
-- where a URL is configured has the same meaning.
use coin_acceptor_backend.Prelude.{
  ℕ, ◌+◌, ◌*◌, Bool, true, false, not, ◌&&◌, String, List, [], ◌∷◌, ◌==◌, ==_refl, ◌=s◌, ltb, leb,
  any, filter, if◌then◌else◌, ◌≡◌, refl, ap, sym, ◌∙◌, arith, Bool-cases, inl, inr, eq_iff,
}
use coin_acceptor_backend.Table.{insert}

-- An entry of the map, whose key is built from the credential and the nonce.
pub record Nonce : Type 0 where
  pub credential_id : ℕ
  pub nonce : String
  pub expires_at : ℕ

abbrev pub has_key : ℕ → String → Nonce → Bool
has_key c n x = x.credential_id == c && (x.nonce =s n)

-- `purgeExpiredMemoryNonces`
unfoldable pub purge : ℕ → List Nonce → List Nonce
purge now xs = filter (λ x. ltb now x.expires_at) xs

-- `reserveMemoryNonce`
unfoldable pub reserve_nonce : ℕ → String → ℕ → ℕ → List Nonce → Bool × List Nonce
unfolding purge
reserve_nonce c n ttl now xs =
    let left = purge now xs in
    if any (has_key c n) left then (false, left) else (
      true,
      insert (record { credential_id = c; nonce = n; expires_at = now + ttl * 1000 }) left,
    )

-- A nonce that is reserved.
abbrev held : ℕ → String → ℕ → List Nonce → Bool
held c n now xs = any (λ x. has_key c n x && ltb now x.expires_at) xs

any-purge :
    (c : ℕ) (n : String) (now : ℕ) (xs : List Nonce)
    → any (has_key c n) (purge now xs) ≡ held c n now xs
unfolding purge
any-purge c n now [] = refl
any-purge c n now (x ∷ xs) = ground (arith, any-purge c n now xs)

reserved_iff :
    (c : ℕ) (n : String) (ttl now : ℕ) (xs : List Nonce)
    → (reserve_nonce c n ttl now xs).0 ≡ not (held c n now xs)
unfolding reserve_nonce
reserved_iff c n ttl now xs = elim (Bool-cases (any (has_key c n) (purge now xs))) [
  | inl y ↦ rw y (ap not (sym y ∙ any-purge c n now xs))
  | inr f ↦ rw f (ap not (sym f ∙ any-purge c n now xs))
]

held-insert :
    (c : ℕ) (n : String) (later e : ℕ) (xs : List Nonce)
    → any (has_key c n) xs ≡ false
    → held c n later (insert (record { credential_id = c; nonce = n; expires_at = e }) xs)
      ≡ ltb later e
held-insert c n later e [] h = rw (==_refl c, (eq_iff n n).1 refl) (ground arith)
held-insert c n later e (x ∷ xs) h = ground (arith, held-insert c n later e xs)

not-ltb : (a b : ℕ) → not (ltb a b) ≡ leb b a
not-ltb a b = ground arith

false_apart : false ≡ true → ⊥
false_apart q = cc

-- After a reservation of a nonce that succeeded, a second attempt is refused until the time to
-- live has passed, and succeeds from then on.
pub reserve_nonce_again :
    (c : ℕ) (n : String) (ttl now later : ℕ) (xs t : List Nonce)
    → reserve_nonce c n ttl now xs ≡ (true, t)
    → (reserve_nonce c n ttl later t).0 ≡ leb (now + ttl * 1000) later
unfolding reserve_nonce
reserve_nonce_again c n ttl now later xs t e =
    elim (Bool-cases (any (has_key c n) (purge now xs))) [
      | inl y ↦
          let run : (false, purge now xs) ≡ (true, t) = rw y at e in
          absurd (false_apart (ap (λ (r : Bool × List Nonce). r.0) run))
      | inr f ↦
          let run : (true, added) ≡ (true, t) = rw f at e in
          reserved_iff c n ttl later t
          ∙ ap (λ ys. not (held c n later ys)) (sym (ap (λ r. r.1) run))
          ∙ ap not (held-insert c n later (now + ttl * 1000) (purge now xs) f)
          ∙ not-ltb later (now + ttl * 1000)
    ]
  where
    added : List Nonce
    added =
        insert (record { credential_id = c; nonce = n; expires_at = now + ttl * 1000 })
          (purge now xs)
