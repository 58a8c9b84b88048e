-- ===== src/Paths/Laws.antt =====
-- Paths: what the check of a path guarantees, and how reading and writing by paths fit together.
use sync_bridge_platform.Base.{
  String, ◌≡◌, refl, sym, ap, ◌∙◌, ◌≢◌, ◌⊎◌, inl, inr, false, Option, none, some, List, [], ◌∷◌,
  arith, ◌==◌, any, ok, All, ◌>>=◌, Result-cases, ok-injective, >>=-eq-ok,
}
use sync_bridge_platform.Js.{
  Json, Fields, end, null, obj, undefined, given, own, read, or_inherited, prototype_functions,
}
use sync_bridge_platform.Js.Laws.{read-write_self, read-write_ne}
use sync_bridge_platform.Paths.{
  is_dangerous, split_path, check_segments, assert_segments, assert_safe_path, walk, get_by_path,
  child, put, set_by_path,
}

-- No segment is one of the keys that reach an object's prototype.
abbrev pub AreSafe : List String → Type 0
AreSafe segments = All (λ segment. is_dangerous segment ≡ false) segments

check_segments_sound :
    (segments more found : List String)
    → check_segments segments more ≡ ok found
    → (found ≡ segments) × AreSafe more
unfolding check_segments
check_segments_sound segments [] found h = ground arith
check_segments_sound segments (segment ∷ more) found h =
    ground (arith, check_segments_sound segments more found)

assert_segments_sound :
    (segments found : List String)
    → assert_segments segments ≡ ok found
    → (found ≡ segments) × (segments ≢ []) × AreSafe segments
assert_segments_sound [] found h = cc
assert_segments_sound (s ∷ more) found h =
    let (same, safe) = check_segments_sound (s ∷ more) (s ∷ more) found h in (same, cc, safe)

check_segments_complete :
    (segments more : List String) → AreSafe more → check_segments segments more ≡ ok segments
unfolding check_segments
check_segments_complete segments [] h = refl
check_segments_complete segments (segment ∷ more) (safe, h) =
    rw safe (check_segments_complete segments more h)

assert_segments_complete :
    (segments : List String)
    → segments ≢ []
    → AreSafe segments
    → assert_segments segments ≡ ok segments
assert_segments_complete [] ne h = absurd (ne refl)
assert_segments_complete (s ∷ more) ne h = check_segments_complete (s ∷ more) (s ∷ more) h

-- A path passes the check exactly when it has a segment and none of its segments is dangerous, and
-- it then yields its own segments.
pub assert_safe_path_iff :
    (path : String) (segments : List String)
    → ((assert_safe_path path ≡ ok segments)
        → (segments ≡ split_path path) × (segments ≢ []) × AreSafe segments)
      × ((segments ≡ split_path path)
          → segments ≢ []
          → AreSafe segments
          → assert_safe_path path ≡ ok segments)
unfolding assert_safe_path
assert_safe_path_iff path segments = (
  λ h.
      let (same, ne, safe) = assert_segments_sound (split_path path) segments h in
      (same, rw same ne, rw same safe),
  λ same ne safe. rw (← same) (assert_segments_complete segments ne safe),
)

module _ {N : Type 0} where
  pub walk-put_self :
      (fs : Fields N) (s : String) (more : List String) (v : Json N)
      → walk (given (obj (put fs (s ∷ more) v))) (s ∷ more) ≡ given v
  unfolding walk put
  walk-put_self fs s [] v = read-write_self fs s v
  walk-put_self fs s (t ∷ more) v =
      rw (read-write_self fs s (obj (put (child (own fs s)) (t ∷ more) v)), walk)
        (walk-put_self (child (own fs s)) t more v)

-- Two paths part ways: neither goes through the other's end.
abbrev pub Diverge : List String → List String → Type 0
Diverge [] q = ⊥
Diverge (s ∷ p) [] = ⊥
Diverge (s ∷ p) (t ∷ q) = (s ≢ t) ⊎ ((s ≡ t) × Diverge p q)

-- No segment names a function that every object inherits.
abbrev pub IsOwn : List String → Type 0
IsOwn path = All (λ s. any (λ name. name == s) prototype_functions ≡ false) path

module _ {N : Type 0} where
  walk-undefined : (q : List String) → walk {N = N} undefined q ≡ undefined
  unfolding walk
  walk-undefined [] = refl
  walk-undefined (s ∷ q) = refl

  walk-end :
      (t : String) (q : List String)
      → IsOwn (t ∷ q)
      → walk {N = N} (given (obj end)) (t ∷ q) ≡ undefined
  unfolding walk read
  walk-end t q (fresh, _) = rw fresh (walk-undefined q)

  -- A value that was no object reads as the empty object does.
  walk-child :
      (fs : Fields N) (s t : String) (q : List String)
      → IsOwn (s ∷ t ∷ q)
      → walk (given (obj (child (own fs s)))) (t ∷ q) ≡ walk (read fs s) (t ∷ q)
  unfolding read walk
  walk-child fs s t q h = go (own fs s) h
    where
      go :
          (o : Option (Json N))
          → IsOwn (s ∷ t ∷ q)
          → walk (given (obj (child o))) (t ∷ q) ≡ walk (or_inherited o s) (t ∷ q)
      go none k = rw (k.0, walk-end t q k.1) (sym (walk-undefined (t ∷ q)))
      go (some (obj gs)) k = refl
      go (some null) k = walk-end t q k.1
      go (some _) k = walk-end t q k.1

  pub walk-put_ne :
      (fs : Fields N) (p q : List String) (v : Json N)
      → Diverge p q
      → IsOwn q
      → walk (given (obj (put fs p v))) q ≡ walk (given (obj fs)) q
  unfolding walk put
  walk-put_ne fs [] q v d h = absurd d
  walk-put_ne fs (s ∷ p) [] v d h = absurd d
  walk-put_ne fs (s ∷ []) (t ∷ q) v (inl ne) h = rw (read-write_ne fs s t v ne, walk)
  walk-put_ne fs (s ∷ []) (t ∷ q) v (inr (_, d)) h = absurd d
  walk-put_ne fs (s ∷ s2 ∷ p) (t ∷ q) v (inl ne) h =
      rw (read-write_ne fs s t (obj (put (child (own fs s)) (s2 ∷ p) v)) ne, walk)
  walk-put_ne fs (s ∷ s2 ∷ p) (t ∷ []) v (inr (_, d)) h = absurd d
  walk-put_ne fs (s ∷ s2 ∷ p) (t ∷ t2 ∷ q) v (inr (same, d)) h = rw (← same) (
      rw (read-write_self fs s (obj (put (child (own fs s)) (s2 ∷ p) v)), walk)
        (walk-put_ne (child (own fs s)) (s2 ∷ p) (t2 ∷ q) v d h.1
          ∙ walk-child fs s t2 q (rw same h)))

  -- What `setByPath` stored at a path is what `getByPath` reads at that path.
  pub get_by_path-set_by_path_self :
      (target : Fields N) (path : String) (value : Json N) (target' : Fields N)
      → set_by_path target path value ≡ ok target'
      → get_by_path target' path ≡ ok (given value)
  unfolding set_by_path get_by_path
  get_by_path-set_by_path_self target path value target' h =
      let (segments, checked, stored) = >>=-eq-ok (assert_safe_path path) _ h in
      rw (checked, ◌>>=◌)
        (ap ok (
          go target' segments ((assert_safe_path_iff path segments).0 checked).1
            (ok-injective stored)))
    where
      go :
          (target' : Fields N) (segments : List String)
          → segments ≢ []
          → put target segments value ≡ target'
          → walk (given (obj target')) segments ≡ given value
      go target' [] ne e = absurd (ne refl)
      go target' (s ∷ more) ne e = rw e at (walk-put_self target s more value)

  -- `setByPath` changes nothing that is read at a path which parts ways with its own and names no
  -- function of `Object.prototype`.
  pub get_by_path-set_by_path_ne :
      (target : Fields N) (path other : String) (value : Json N) (target' : Fields N)
      → set_by_path target path value ≡ ok target'
      → Diverge (split_path path) (split_path other)
      → IsOwn (split_path other)
      → get_by_path target' other ≡ get_by_path target other
  unfolding set_by_path get_by_path
  get_by_path-set_by_path_ne target path other value target' h d fresh =
      let (segments, checked, stored) = >>=-eq-ok (assert_safe_path path) _ h in
      let same = ((assert_safe_path_iff path segments).0 checked).0 in
      elim (Result-cases (assert_safe_path other)) [
        | inl (found, e) ↦
            let same' = ((assert_safe_path_iff other found).0 e).0 in
            rw (e, ◌>>=◌)
              (rw (← ok-injective stored) (
                ap ok
                  (walk-put_ne target segments found value (rw (same, same') d) (rw same' fresh))))
        | inr (message, e) ↦ rw (e, ◌>>=◌)
      ]
