-- ===== src/Settings/Resolution.antt =====
-- system-setting-resolution.service.ts
pub mod Precedence
use coin_acceptor_backend.Prelude.{
  ℕ, Bool, true, false, not, ◌&&◌, ◌||◌, Option, none, some, or_else, String, List, [], ◌∷◌, ◌==◌,
  ◌=s◌, ltb, find, filter, if◌then◌else◌,
}
use coin_acceptor_backend.Json.{Json}

pub data Scope : Type 0 where
  device_scope station_scope global_scope : Scope

pub record Setting : Type 0 where
  pub setting_key : String
  pub is_active : Bool
  pub scope_type : Scope
  pub device_id : Option ℕ
  pub station_id : Option ℕ
  pub updated_at : ℕ
  pub value_json : Json

abbrev is_id : ℕ → Option ℕ → Bool
is_id i none = false
is_id i (some j) = j == i

abbrev pub at_device : Setting → Bool
at_device x = elim x.scope_type [ Scope.device_scope ↦ true | _ ↦ false ]

abbrev pub at_station : Setting → Bool
at_station x = elim x.scope_type [ Scope.station_scope ↦ true | _ ↦ false ]

abbrev pub at_all : Setting → Bool
at_all x = elim x.scope_type [ Scope.global_scope ↦ true | _ ↦ false ]

-- The WHERE clause.
unfoldable pub applies : String → ℕ → ℕ → Setting → Bool
applies key station device x =
    (x.setting_key =s key)
    && x.is_active
    && ((at_device x && is_id device x.device_id && is_id station x.station_id)
        || (at_station x && is_id station x.station_id)
        || at_all x)

-- The texts of the scopes in their order.
abbrev rank : Scope → ℕ
rank Scope.device_scope = 0
rank Scope.global_scope = 1
rank Scope.station_scope = 2

-- `orderBy: [{ scope_type: 'asc' }, { updated_at: 'desc' }]`
abbrev pub earlier : Setting → Setting → Bool
earlier x y =
    ltb (rank x.scope_type) (rank y.scope_type)
    || (rank x.scope_type == rank y.scope_type && not (ltb x.updated_at y.updated_at))

unfoldable pub put_setting : Setting → List Setting → List Setting
put_setting x [] = x ∷ []
put_setting x (y ∷ ys) = let rest = put_setting x ys in if earlier x y then x ∷ y ∷ ys else y ∷ rest

unfoldable pub sort_settings : List Setting → List Setting
unfolding put_setting
sort_settings [] = []
sort_settings (x ∷ xs) = put_setting x (sort_settings xs)

unfoldable pub resolve_setting : List Setting → String → ℕ → ℕ → Option Setting
unfolding applies sort_settings
resolve_setting settings key station device =
    let rows = sort_settings (filter (applies key station device) settings) in
    or_else (find at_device rows) (or_else (find at_station rows) (find at_all rows))
