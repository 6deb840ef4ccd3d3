-- ===== src/Json/Sensitive/Depth.antt =====
-- What the walk for forbidden keys sees: the keys of the objects with at most eight arrays and
-- objects around them.
use coin_acceptor_backend.Prelude.{
  ℕ, suc, ◌+◌, ◌≤◌, ◌≡◌, true, false, List, String, arith, has, Bool-cases, inl, inr,
}
use coin_acceptor_backend.Effect.{Error, ok, err, ok-or-err}
use coin_acceptor_backend.Json.{
  Json, null, bool, num, str, arr, obj, Elems, nil, cons, Fields, end, field,
}
use coin_acceptor_backend.Json.Sensitive.{
  normalize_key, assert_no_keys, assert_items, assert_entries,
}

-- `InJson k d v`: `k` is a key of an object that has `d` arrays and objects of `v` around it.
mutual
  pub data InJson (k : String) : ℕ → Json → Type 0 where
    in_arr : {d : ℕ} {vs : Elems} → InElems k d vs → InJson k (suc d) (arr vs)
    in_obj : {d : ℕ} {fs : Fields} → InFields k d fs → InJson k d (obj fs)

  pub data InElems (k : String) : ℕ → Elems → Type 0 where
    first : {d : ℕ} {v : Json} {vs : Elems} → InJson k d v → InElems k d (cons v vs)
    later : {d : ℕ} {v : Json} {vs : Elems} → InElems k d vs → InElems k d (cons v vs)

  pub data InFields (k : String) : ℕ → Fields → Type 0 where
    key : {v : Json} {fs : Fields} → InFields k 0 (field k v fs)
    nested :
        {d : ℕ} {j : String} {v : Json} {fs : Fields}
        → InJson k d v
        → InFields k (suc d) (field j v fs)
    further :
        {d : ℕ} {j : String} {v : Json} {fs : Fields}
        → InFields k d fs
        → InFields k d (field j v fs)

module _ (keys : List (List ℕ)) (e : Error) (k : String) where
  -- Accepted payloads hold no forbidden key within reach of the walk.
  mutual
    unfolding assert_no_keys

    accepted_json :
        {d : ℕ} {v : Json} (p : ℕ)
        → InJson k d v
        → assert_no_keys keys e v p ≡ ok tt
        → p + d ≤ 8
        → has keys (normalize_key k) ≡ false
    accepted_json p (in_arr i) h b = accepted_items (suc p) i (ground arith) (omega arith)
    accepted_json p (in_obj i) h b = accepted_entries p i (ground arith) b

    accepted_items :
        {d : ℕ} {vs : Elems} (p : ℕ)
        → InElems k d vs
        → assert_items keys e vs p ≡ ok tt
        → p + d ≤ 8
        → has keys (normalize_key k) ≡ false
    accepted_items p (first i) h b = accepted_json p i (ground arith) b
    accepted_items p (later i) h b = accepted_items p i (ground arith) b

    accepted_entries :
        {d : ℕ} {fs : Fields} (p : ℕ)
        → InFields k d fs
        → assert_entries keys e fs (suc p) ≡ ok tt
        → p + d ≤ 8
        → has keys (normalize_key k) ≡ false
    accepted_entries p key h b = ground arith
    accepted_entries p (nested i) h b = accepted_json (suc p) i (ground arith) (omega arith)
    accepted_entries p (further i) h b = accepted_entries p i (ground arith) b

-- A forbidden key that the walk reaches.
abbrev pub Found : List (List ℕ) → ℕ → Json → Type 0
Found keys p v =
    (k : String) × (d : ℕ) × InJson k d v × (p + d ≤ 8) × (has keys (normalize_key k) ≡ true)

abbrev FoundItem : List (List ℕ) → ℕ → Elems → Type 0
FoundItem keys p vs =
    (k : String) × (d : ℕ) × InElems k d vs × (p + d ≤ 8) × (has keys (normalize_key k) ≡ true)

abbrev FoundEntry : List (List ℕ) → ℕ → Fields → Type 0
FoundEntry keys p fs =
    (k : String) × (d : ℕ) × InFields k d fs × (p + d ≤ 8) × (has keys (normalize_key k) ≡ true)

module _ (keys : List (List ℕ)) (e : Error) where
  mutual
    unfolding assert_no_keys

    refused_json :
        (v : Json) (p : ℕ) (r : Error) → assert_no_keys keys e v p ≡ err r → Found keys p v
    refused_json null p r h = absurd (cc)
    refused_json (bool b) p r h = absurd (cc)
    refused_json (num n) p r h = absurd (cc)
    refused_json (str s) p r h = absurd (cc)
    refused_json (arr vs) p r h =
        let (k, d, i, b, f) = refused_items vs (suc p) r (ground arith) in
        (k, suc d, in_arr i, omega arith, f)
    refused_json (obj fs) p r h =
        let (k, d, i, b, f) = refused_entries fs p r (ground arith) (ground arith) in
        (k, d, in_obj i, b, f)

    refused_items :
        (vs : Elems) (p : ℕ) (r : Error) → assert_items keys e vs p ≡ err r → FoundItem keys p vs
    refused_items nil p r h = absurd (cc)
    refused_items (cons v vs) p r h = elim (ok-or-err (assert_no_keys keys e v p)) [
      | inl good ↦
          let (k, d, i, b, f) = refused_items vs p r (ground arith) in (k, d, later i, b, f)
      | inr (r', bad) ↦ let (k, d, i, b, f) = refused_json v p r' bad in (k, d, first i, b, f)
    ]

    refused_entries :
        (fs : Fields) (p : ℕ) (r : Error)
        → assert_entries keys e fs (suc p) ≡ err r
        → p ≤ 8
        → FoundEntry keys p fs
    refused_entries end p r h b = absurd (cc)
    refused_entries (field k v fs) p r h b = elim (Bool-cases (has keys (normalize_key k))) [
      | inl bad ↦ (k, 0, key, omega arith, bad)
      | inr fine ↦ elim (ok-or-err (assert_no_keys keys e v (suc p))) [
        | inl good ↦
            let (j, d, i, b', f) = refused_entries fs p r (ground arith) b in
            (j, d, further i, b', f)
        | inr (r', bad) ↦
            let (j, d, i, b', f) = refused_json v (suc p) r' bad in
            (j, suc d, nested i, omega arith, f)
      ]
    ]

-- A payload that passes the walk holds none of the forbidden keys, in any spelling that normalises
-- to one, in an object with at most eight arrays and objects around it.
pub assert_no_keys_accepts :
    (keys : List (List ℕ)) (e : Error) (v : Json) (k : String) (d : ℕ)
    → assert_no_keys keys e v 0 ≡ ok tt
    → InJson k d v
    → d ≤ 8
    → has keys (normalize_key k) ≡ false
assert_no_keys_accepts keys e v k d h i b = accepted_json keys e k 0 i h (omega arith)

-- A payload that the walk refuses holds a forbidden key in an object with at most eight arrays and
-- objects around it.
pub assert_no_keys_refuses :
    (keys : List (List ℕ)) (e : Error) (v : Json) (r : Error)
    → assert_no_keys keys e v 0 ≡ err r
    → Found keys 0 v
assert_no_keys_refuses keys e v r h = refused_json keys e v 0 r h
