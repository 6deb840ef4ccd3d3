-- ===== src/Settings/Resolution/Precedence.antt =====
-- Which of several settings a device gets.
use coin_acceptor_backend.Prelude.{
  ℕ, Bool, true, false, ◌&&◌, Option, none, some, String, List, [], ◌∷◌, ltb, find, filter, ◌≡◌,
  All, find_sound, filter-All, arith, Bool-cases, Option-cases, inl, inr,
}
use coin_acceptor_backend.Table.{All-find, All-map, All-unit}
use coin_acceptor_backend.Settings.Resolution.{
  Setting, Scope, at_device, at_station, at_all, applies, earlier, put_setting, sort_settings,
  resolve_setting,
}

module _ {κ} (P : Setting → Type κ) where
  put_setting-All : (x : Setting) (ys : List Setting) → P x → All P ys → All P (put_setting x ys)
  unfolding put_setting
  put_setting-All x [] p a = (p, tt)
  put_setting-All x (y ∷ ys) p (q, a) = elim (Bool-cases (earlier x y)) [
    | inl h ↦ rw h (p, (q, a))
    | inr h ↦ rw h (q, put_setting-All x ys p a)
  ]

  sort_settings-All : (xs : List Setting) → All P xs → All P (sort_settings xs)
  unfolding sort_settings
  sort_settings-All [] a = tt
  sort_settings-All (x ∷ xs) (p, a) =
      put_setting-All x (sort_settings xs) p (sort_settings-All xs a)

module _ (p : Setting → Bool) where
  find-put_setting :
      (x : Setting) (ys : List Setting)
      → find p (put_setting x ys) ≡ none
      → (p x ≡ false) × (find p ys ≡ none)
  unfolding put_setting
  find-put_setting x [] e = ground arith
  find-put_setting x (y ∷ ys) e = ground (arith, find-put_setting x ys)

  find-sort_settings :
      (xs : List Setting) → find p (sort_settings xs) ≡ none → All (λ x. p x ≡ false) xs
  unfolding sort_settings
  find-sort_settings [] e = tt
  find-sort_settings (x ∷ xs) e =
      let both = find-put_setting x (sort_settings xs) e in (both.0, find-sort_settings xs both.1)

  filter_none :
      (q : Setting → Bool) (xs : List Setting)
      → All (λ x. q x ≡ false) (filter p xs)
      → All (λ x. p x ≡ true → q x ≡ false) xs
  filter_none q [] a = tt
  filter_none q (x ∷ xs) a = elim (Bool-cases (p x)) [
    | inl y ↦
        let both : (q x ≡ false) × All (λ z. q z ≡ false) (filter p xs) = rw y at a in
        (λ _. both.0, filter_none q xs both.1)
    | inr n ↦
        let rest : All (λ z. q z ≡ false) (filter p xs) = rw n at a in
        (λ y. ground arith, filter_none q xs rest)
  ]

-- How near to the device a setting is declared.
abbrev pub distance : Setting → ℕ
distance x = elim x.scope_type [
  | Scope.device_scope ↦ 0
  | Scope.station_scope ↦ 1
  | Scope.global_scope ↦ 2
]

All-and {κ ι} :
    (P : Setting → Type κ) (Q : Setting → Type ι) (xs : List Setting)
    → All P xs
    → All Q xs
    → All (λ x. P x × Q x) xs
All-and P Q [] a b = tt
All-and P Q (x ∷ xs) (p, a) (q, b) = ((p, q), All-and P Q xs a b)

module _ (settings : List Setting) (key : String) (station device : ℕ) where
  abbrev wanted : Setting → Bool
  wanted = applies key station device

  abbrev rows : List Setting
  rows = sort_settings (filter wanted settings)

  absent :
      (q : Setting → Bool) → find q rows ≡ none → All (λ x. wanted x ≡ true → q x ≡ false) settings
  absent q e = filter_none wanted q settings (find-sort_settings q (filter wanted settings) e)

  present : (q : Setting → Bool) (x : Setting) → find q rows ≡ some x → wanted x ≡ true
  present q x e =
      All-find (λ y. wanted y ≡ true) q rows x e
        (sort_settings-All (λ y. wanted y ≡ true) (filter wanted settings)
          (filter-All wanted settings))

  nowhere :
      (y : Setting)
      → (wanted y ≡ true → at_device y ≡ false)
      → (wanted y ≡ true → at_station y ≡ false)
      → (wanted y ≡ true → at_all y ≡ false)
      → wanted y ≡ false
  nowhere y d t g = elim (Bool-cases (wanted y)) [
    | inl h ↦ ground (arith, d h, t h, g h)
    | inr h ↦ h
  ]

  abbrev pub Nearest : Option Setting → Type 0
  Nearest none = All (λ y. wanted y ≡ false) settings
  Nearest (some x) =
      (wanted x ≡ true) × All (λ y. wanted y && ltb (distance y) (distance x) ≡ false) settings

  -- The setting that a device gets applies to it, and no other that applies is declared nearer to
  -- the device, of the scopes device, station and global; there is none only where none applies.
  pub resolve_setting-Nearest : Nearest (resolve_setting settings key station device)
  unfolding resolve_setting
  resolve_setting-Nearest = elim (Option-cases (find at_device rows)) [
    | inr (x, e) ↦ rw e (
      present at_device x e,
      All-map _ _ settings (λ y _. ground (arith, find_sound at_device rows x e))
          (All-unit settings),
    )
    | inl no_device ↦ rw no_device elim (Option-cases (find at_station rows)) [
      | inr (x, e) ↦ rw e (
        present at_station x e,
        All-map _ _ settings (λ y far. ground (arith, find_sound at_station rows x e, far))
            (absent at_device no_device),
      )
      | inl no_station ↦ rw no_station elim (Option-cases (find at_all rows)) [
        | inr (x, e) ↦ rw e (
          present at_all x e,
          All-map _ _ settings (λ y far. ground (arith, find_sound at_all rows x e, far.0, far.1))
              (All-and _ _ settings (absent at_device no_device) (absent at_station no_station)),
        )
        | inl no_global ↦ rw no_global (
            All-map _ _ settings (λ y far. nowhere y far.0 far.1.0 far.1.1)
              (All-and _ _ settings (absent at_device no_device)
                (All-and _ _ settings (absent at_station no_station) (absent at_all no_global))))
      ]
    ]
  ]
