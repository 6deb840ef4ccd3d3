-- ===== src/Json.antt =====
-- JSON values as the services read them (`Prisma.JsonValue`, `Record<string, unknown>`), the
-- `typeof` tests on them, and the field readers that the validators share.
pub mod Sensitive
pub mod Tests
use coin_acceptor_backend.Prelude.{
  ℕ, ℤ, pos, negsuc, Bool, true, false, not, ◌&&◌, Option, none, some, String, List, [], ◌∷◌, ltb_ℤ,
  leb_ℤ, ◌=s◌, if◌then◌else◌, codes, is_blank,
}

-- A finite JavaScript number: an integer, or a number strictly between `n` and `n + 1`. The
-- sources compare numbers only with integers, so the floor decides.
pub data Num : Type 0 where
  int : ℤ → Num
  frac : ℤ → Num

mutual
  pub data Json : Type 0 where
    null : Json
    bool : Bool → Json
    num : Num → Json
    str : String → Json
    arr : Elems → Json
    obj : Fields → Json

  pub data Elems : Type 0 where
    nil : Elems
    cons : Json → Elems → Elems

  pub data Fields : Type 0 where
    end : Fields
    field : String → Json → Fields → Fields

-- `Number.isInteger(value)`, with `value < bound` and `value > bound` at an integer bound.
abbrev pub is_integer : Num → Bool
is_integer (int _) = true
is_integer (frac _) = false

abbrev pub num_lt : Num → ℤ → Bool
num_lt (int n) b = ltb_ℤ n b
num_lt (frac n) b = ltb_ℤ n b

abbrev pub num_gt : Num → ℤ → Bool
num_gt (int n) b = ltb_ℤ b n
num_gt (frac n) b = leb_ℤ b n

-- `payload[key]`; `undefined` is `none`.
unfoldable pub get : String → Fields → Option Json
get k end = none
get k (field j v fs) = if j =s k then some v else get k fs

abbrev pub elems : Elems → List Json
elems nil = []
elems (cons v vs) = v ∷ elems vs

-- `typeof value === 'string' && value.length > 0 ? value : undefined`
abbrev pub nonempty : String → Option String
nonempty String.[] = none
nonempty (String.◌∷◌ c s) = some (String.◌∷◌ c s)

abbrev pub string_value : Option Json → Option String
string_value (some (str s)) = nonempty s
string_value _ = none

-- `typeof value === 'string' && value.trim().length > 0`
abbrev pub has_text : Option Json → Bool
has_text (some (str s)) = not (is_blank (codes s))
has_text _ = false

-- `Number.isInteger(value) && Number(value) >= 1`
abbrev pub positive_int : Option Json → Option ℕ
positive_int (some (num (int (pos (ℕ.suc n))))) = some (ℕ.suc n)
positive_int _ = none

-- An object that is neither null nor an array.
abbrev pub object_fields : Option Json → Option Fields
object_fields (some (obj fs)) = some fs
object_fields _ = none
