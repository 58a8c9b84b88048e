-- ===== src/Js.antt =====
-- The values that the program handles as `unknown`: what JSON can hold, and what reading a property
-- of such a value can give. Numbers, dates and the conversions of the JavaScript runtime are
-- parameters, gathered in `Js`.
pub mod Laws
use sync_bridge_platform.Base.{
  ℕ, String, Bool, true, false, not, ◌&&◌, Option, none, some, List, [], ◌∷◌, ◌==◌, any, Result,
  is_empty, if◌then◌else◌,
}

mutual
  pub data Json (N : Type 0) : Type 0 where
    null : Json N
    bool : Bool → Json N
    num : N → Json N
    str : String → Json N
    arr : Items N → Json N
    obj : Fields N → Json N

  pub data Items (N : Type 0) : Type 0 where
    nil : Items N
    cons : Json N → Items N → Items N

  pub data Fields (N : Type 0) : Type 0 where
    end : Fields N
    field : String → Json N → Fields N → Fields N

-- What `value[key]` can be: nothing, a value of the object's own, or a function that every object
-- inherits from `Object.prototype`.
pub data Unknown (N : Type 0) : Type 0 where
  undefined : Unknown N
  given : Json N → Unknown N
  inherited : String → Unknown N

-- The names of the functions of `Object.prototype`. Its other members, `__proto__` and
-- `constructor`, are read nowhere: every path with such a segment is refused first.
abbrev pub prototype_functions : List String
prototype_functions =
    "toString" ∷ "valueOf" ∷ "hasOwnProperty" ∷ "isPrototypeOf" ∷ "propertyIsEnumerable"
    ∷ "toLocaleString" ∷ "__defineGetter__" ∷ "__defineSetter__" ∷ "__lookupGetter__"
    ∷ "__lookupSetter__" ∷ []

module _ {N : Type 0} where
  -- `Object.prototype.hasOwnProperty` with the value: an object's own property.
  unfoldable pub own : Fields N → String → Option (Json N)
  own end key = none
  own (field k v fs) key = if k == key then some v else own fs key

  abbrev pub or_inherited : Option (Json N) → String → Unknown N
  or_inherited (some v) key = given v
  or_inherited none key =
      if any (λ name. name == key) prototype_functions then inherited key else undefined

  -- `object[key]`
  unfoldable pub read : Fields N → String → Unknown N
  unfolding own
  read fs key = or_inherited (own fs key) key

  -- `object[key] = value`; a new key goes behind the others.
  unfoldable pub write : Fields N → String → Json N → Fields N
  write end key v = field key v end
  write (field k w fs) key v = if k == key then field k v fs else field k w (write fs key v)

  -- `Object.entries(object)`
  abbrev pub entries : Fields N → List (String × Json N)
  entries end = []
  entries (field k v fs) = (k, v) ∷ entries fs

  -- `if (!value || typeof value !== 'object' || Array.isArray(value)) return {}`
  abbrev pub ensure_record_object : Json N → Fields N
  ensure_record_object (obj fs) = fs
  ensure_record_object _ = end

-- The parts of the JavaScript runtime that the program calls: floating-point numbers, dates, case
-- conversion. A `Time` is the time value of a valid date; an invalid date is `none`.
pub record Js : Type 1 where
  pub Num : Type 0
  pub Time : Type 0
  pub zero_num : Num
  pub one_num : Num
  pub num_eq : Num → Num → Bool
  pub num_lt : Num → Num → Bool
  pub is_nan : Num → Bool
  pub is_finite : Num → Bool
  -- `Number(text)`
  pub to_number : String → Num
  -- `String(value)`; for an object with members in place of `toString` and `valueOf` it throws.
  pub to_text : Unknown Num → Result String String
  -- `Buffer.byteLength(JSON.stringify(value), 'utf8')`
  pub json_bytes : Fields Num → ℕ
  pub to_lower : String → String
  pub to_upper : String → String
  -- `new Date(text)` and `new Date(number)`
  pub parse_date : String → Option Time
  pub date_of_number : Num → Option Time
  pub to_iso : Time → String
  pub time_lt : Time → Time → Bool

module _ (js : Js) where
  -- Whether a value counts as true in a test.
  unfoldable pub truthy : Unknown js.Num → Bool
  truthy undefined = false
  truthy (inherited name) = true
  truthy (given null) = false
  truthy (given (bool b)) = b
  truthy (given (num n)) = not (js.is_nan n) && not (js.num_eq n js.zero_num)
  truthy (given (str s)) = not (is_empty s)
  truthy (given (arr xs)) = true
  truthy (given (obj fs)) = true
