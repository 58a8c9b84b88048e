-- ===== src/Transformations/Mapping/Laws.antt =====
-- What a mapping that compiles guarantees of its fields, and how validation relates to compilation.
use mathlib.Core.List.{append-nil, append_assoc, map-append}
use sync_bridge_platform.Base.{
  String, true, false, ◌&&◌, none, some, List, [], ◌∷◌, ◌++◌, map, ◌≡◌, refl, sym, ap, ◌≢◌, ◌⊎◌,
  arith, Result, ok, err, ◌>>=◌, ok-injective, is_ok, All, All-append,
}
use sync_bridge_platform.Js.{
  Js, Json, Fields, Unknown, undefined, given, inherited, bool, str, obj, read, truthy,
}
use sync_bridge_platform.Paths.{assert_safe_path}
use sync_bridge_platform.Transformations.Errors.{TransformationErrorDetail}
use sync_bridge_platform.Transformations.Mapping.{
  NormalizedMappingField, Issue, reported, thrown, is_true, is_undefined, compute_mode,
  compile_shorthand, compile_definition, compile_candidate, Compiled, compile_candidates, push,
  finish, extract_mapping_candidates, compile_mapping,
}

-- A path that passes the check.
abbrev pub IsSafePath : String → Type 0
IsSafePath path = is_ok (assert_safe_path path) ≡ true

-- What `transformRecordWithCompiledMapping` relies on.
pub record IsUsable {N : Type 0} (f : NormalizedMappingField N) : Type 0 where
  pub output_safe : IsSafePath f.output_path
  pub source_safe : IsSafePath f.source_path ⊎ (f.compute ≢ none)
  pub one_case : f.lowercase && f.uppercase ≡ false

truthy_of_is_true : (js : Js) (u : Unknown js.Num) → is_true u ≡ true → truthy js u ≡ true
unfolding truthy
truthy_of_is_true js undefined h = cc
truthy_of_is_true js (inherited name) h = cc
truthy_of_is_true js (given (bool b)) h = h
truthy_of_is_true js (given _) h = cc

module _ {N : Type 0} where
  compile_shorthand_sound :
      (path value : String) (f : NormalizedMappingField N)
      → compile_shorthand path value ≡ ok f
      → IsUsable f × (f.output_path ≡ path)
  unfolding compile_shorthand
  compile_shorthand_sound path value f h = ground arith

compute_mode_undefined :
    {N : Type 0} (u : Unknown N) → compute_mode u ≡ some none → is_undefined u ≡ true
unfolding compute_mode
compute_mode_undefined undefined h = refl
compute_mode_undefined (inherited name) h = cc
compute_mode_undefined (given (str name)) h = ground arith
compute_mode_undefined (given _) h = cc

module _ (js : Js) where
  compile_definition_sound :
      (path : String) (definition : Fields js.Num) (f : NormalizedMappingField js.Num)
      → compile_definition js path definition ≡ ok f
      → IsUsable f × (f.output_path ≡ path)
  unfolding compile_definition
  compile_definition_sound path definition f h = ground (
    arith,
    truthy_of_is_true js (read definition "lowercase"),
    truthy_of_is_true js (read definition "uppercase"),
    compute_mode_undefined (read definition "compute"),
  )

  compile_candidate_sound :
      (path : String) (value : Json js.Num) (f : NormalizedMappingField js.Num)
      → compile_candidate js path value ≡ ok f
      → IsUsable f × (f.output_path ≡ path)
  unfolding compile_candidate
  compile_candidate_sound path (str source) f h = compile_shorthand_sound path source f h
  compile_candidate_sound path (obj definition) f h = compile_definition_sound path definition f h
  compile_candidate_sound path _ f h = cc

  finish-eq-ok :
      (r : Result String (Compiled js)) {fields : List (NormalizedMappingField js.Num)}
      → finish js r ≡ ok fields
      → r ≡ ok ([], fields)
  finish-eq-ok (err message) h = cc
  finish-eq-ok (ok ([], fields)) h = rw (ok-injective h)
  finish-eq-ok (ok (e ∷ errors, fields)) h = cc

  -- Once an error is pushed, the loop ends with an error.
  compile_candidates_errors :
      (candidates : List (String × Json js.Num)) (e : TransformationErrorDetail)
      → (errors : List TransformationErrorDetail)
        (fields final : List (NormalizedMappingField js.Num))
      → compile_candidates js candidates (e ∷ errors, fields) ≢ ok ([], final)
  unfolding compile_candidates
  compile_candidates_errors [] e errors fields final h = cc
  compile_candidates_errors ((path, value) ∷ more) e errors fields final h =
      go (compile_candidate js path value) (λ es fs. compile_candidates_errors more e es fs final) h
    where
      go :
          (r : Result Issue (NormalizedMappingField js.Num))
          → ((es : List TransformationErrorDetail) (fs : List (NormalizedMappingField js.Num))
              → compile_candidates js more (e ∷ es, fs) ≢ ok ([], final))
          → (push js r (e ∷ errors, fields) >>= compile_candidates js more) ≢ ok ([], final)
      go (ok f) ih k = ih errors (fields ++ f ∷ []) k
      go (err (reported e2)) ih k = ih (errors ++ e2 ∷ []) fields k
      go (err (thrown message)) ih k = cc

  -- What the loop keeps if it ends with no error: the fields are usable, and they carry the names of
  -- the candidates in order.
  compile_candidates_sound :
      (candidates : List (String × Json js.Num))
      (fields final : List (NormalizedMappingField js.Num))
      → compile_candidates js candidates ([], fields) ≡ ok ([], final)
      → All IsUsable fields
      → All IsUsable final
        × (map (λ f. f.output_path) final
            ≡ map (λ f. f.output_path) fields ++ map (λ c. c.0) candidates)
  unfolding compile_candidates
  compile_candidates_sound [] fields final h usable =
      rw (← ap (λ c. c.1) (ok-injective h)) (usable, sym (append-nil _))
  compile_candidates_sound ((path, value) ∷ more) fields final h usable =
      go (compile_candidate js path value) refl (λ fs. compile_candidates_sound more fs final) h
    where
      go :
          (r : Result Issue (NormalizedMappingField js.Num))
          → compile_candidate js path value ≡ r
          → ((fs : List (NormalizedMappingField js.Num))
              → compile_candidates js more ([], fs) ≡ ok ([], final)
              → All IsUsable fs
              → All IsUsable final
                × (map (λ f. f.output_path) final
                    ≡ map (λ f. f.output_path) fs ++ map (λ c. c.0) more))
          → (push js r ([], fields) >>= compile_candidates js more) ≡ ok ([], final)
          → All IsUsable final
            × (map (λ f. f.output_path) final
                ≡ map (λ f. f.output_path) fields ++ path ∷ map (λ c. c.0) more)
      go (ok f) e ih k =
          let (good, named) = compile_candidate_sound path value f e in
          let (all_good, names) =
            ih (fields ++ f ∷ []) k (All-append IsUsable fields (f ∷ []) usable (good, tt)) in
          (all_good, rw (names, map-append, named, append_assoc))
      go (err (reported e2)) e ih k = absurd (compile_candidates_errors more e2 [] fields final k)
      go (err (thrown message)) e ih k = cc

  -- A mapping that compiles gives one usable field for each of its candidates, in order and under its
  -- name: the paths pass the check, a field without a computed value has a source path, and no field
  -- asks for both cases of letters.
  pub compile_mapping_sound :
      (mapping : Fields js.Num) (fields : List (NormalizedMappingField js.Num))
      → compile_mapping js mapping ≡ ok fields
      → All IsUsable fields
        × (map (λ f. f.output_path) fields
            ≡ map (λ c. c.0) (extract_mapping_candidates js mapping).1)
  unfolding compile_mapping
  compile_mapping_sound mapping fields h = go (extract_mapping_candidates js mapping) h
    where
      go :
          (c : List TransformationErrorDetail × List (String × Json js.Num))
          → finish js (compile_candidates js c.1 (c.0, [])) ≡ ok fields
          → All IsUsable fields × (map (λ f. f.output_path) fields ≡ map (λ c. c.0) c.1)
      go ([], candidates) k =
          compile_candidates_sound candidates [] fields
            (finish-eq-ok (compile_candidates js candidates ([], [])) k) tt
      go (e ∷ errors, candidates) k = absurd (
          compile_candidates_errors candidates e errors [] fields
            (finish-eq-ok (compile_candidates js candidates (e ∷ errors, [])) k))
