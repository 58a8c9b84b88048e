-- ===== src/Paths.antt =====
-- apps/api/src/transformations/path-utils.ts: dotted paths into JSON objects. What a function throws
-- is the text of its error.
pub mod Laws
use Prim.Native.String
use sync_bridge_platform.Base.{
  String, Bool, true, false, not, Option, none, some, List, [], ◌∷◌, map, ◌==◌, any, keep, Result,
  ok, err, ◌>>=◌, trim, split, is_empty, if◌then◌else◌,
}
use sync_bridge_platform.Js.{Json, Fields, Unknown, end, obj, undefined, given, own, read, write}

abbrev pub dangerous_path_keys : List String
dangerous_path_keys = "__proto__" ∷ "prototype" ∷ "constructor" ∷ []

abbrev pub is_dangerous : String → Bool
is_dangerous segment = any (λ k. k == segment) dangerous_path_keys

unfoldable pub split_path : String → List String
unfolding trim split
split_path path = keep (λ segment. not (is_empty segment)) (map trim (split b'.' path))

-- The loop of `assertSafePath`.
check_segments : List String → List String → Result String (List String)
check_segments segments [] = ok segments
check_segments segments (segment ∷ more) =
    if is_dangerous segment
    then err (String.◌++◌ "Path contains unsafe segment: " segment)
    else check_segments segments more

abbrev assert_segments : List String → Result String (List String)
assert_segments [] = err "Path must contain at least one segment"
assert_segments (segment ∷ more) = check_segments (segment ∷ more) (segment ∷ more)

unfoldable pub assert_safe_path : String → Result String (List String)
unfolding split_path check_segments
assert_safe_path path = assert_segments (split_path path)

module _ {N : Type 0} where
  -- The loop of `getByPath`: only an object that is no array is entered.
  unfoldable pub walk : Unknown N → List String → Unknown N
  walk current [] = current
  walk (given (obj fs)) (segment ∷ more) = walk (read fs segment) more
  walk current (segment ∷ more) = undefined

  unfoldable pub get_by_path : Fields N → String → Result String (Unknown N)
  get_by_path source path = do
    segments ← assert_safe_path path
    ok (walk (given (obj source)) segments)

  -- The object at `current[segment]` into which `setByPath` goes on; what is no object is replaced
  -- by `{}`, an inherited function too.
  abbrev pub child : Option (Json N) → Fields N
  child (some (obj fs)) = fs
  child _ = end

  -- The loop of `setByPath` and its last assignment. The objects on the way are changed in place:
  -- each stays where it is in the one around it.
  unfoldable pub put : Fields N → List String → Json N → Fields N
  put current [] value = current
  put current (segment ∷ []) value = write current segment value
  put current (segment ∷ next ∷ more) value =
      write current segment (obj (put (child (own current segment)) (next ∷ more) value))

  unfoldable pub set_by_path : Fields N → String → Json N → Result String (Fields N)
  set_by_path target path value = do
    segments ← assert_safe_path path
    ok (put target segments value)
