-- ===== src/Connectors/Policy/Laws.antt =====
-- What the policy of apps/api/src/connectors/connector-config.policy.ts finds.
use sync_bridge_platform.Base.{
  String, true, ◌≡◌, ◌↔◌, arith, inl, inr, Bool-cases, or-true_left, or-true_right,
}
use sync_bridge_platform.Js.{
  Js, Json, Items, Fields, null, bool, num, str, arr, obj, nil, cons, end, field,
}
use sync_bridge_platform.Connectors.Policy.{
  is_forbidden, has_forbidden_config_keys, has_forbidden_items, has_forbidden_fields,
}

-- A key of an object somewhere inside a value, an element of a list or the fields of an object.
mutual
  pub data Names {N : Type 0} (key : String) : Json N → Type 0 where
    in_items : {xs : Items N} → ItemsName key xs → Names key (arr xs)
    in_fields : {fs : Fields N} → FieldsName key fs → Names key (obj fs)

  pub data ItemsName {N : Type 0} (key : String) : Items N → Type 0 where
    in_head : {x : Json N} {xs : Items N} → Names key x → ItemsName key (cons x xs)
    in_tail : {x : Json N} {xs : Items N} → ItemsName key xs → ItemsName key (cons x xs)

  pub data FieldsName {N : Type 0} (key : String) : Fields N → Type 0 where
    at_key : {v : Json N} {fs : Fields N} → FieldsName key (field key v fs)
    in_value :
        {k : String} {v : Json N} {fs : Fields N} → Names key v → FieldsName key (field k v fs)
    in_rest :
        {k : String} {v : Json N} {fs : Fields N}
        → FieldsName key fs
        → FieldsName key (field k v fs)

module _ (js : Js) where
  -- A forbidden key in what the given type says is named.
  abbrev Forbidden : (String → Type 0) → Type 0
  Forbidden Named = (key : String) × Named key × (is_forbidden js key ≡ true)

  mutual
    unfolding has_forbidden_config_keys has_forbidden_items has_forbidden_fields

    found :
        (v : Json js.Num) → has_forbidden_config_keys js v ≡ true → Forbidden (λ key. Names key v)
    found null h = absurd (ground arith)
    found (bool b) h = absurd (ground arith)
    found (num n) h = absurd (ground arith)
    found (str s) h = absurd (ground arith)
    found (arr xs) h = let (key, at, bad) = found_items xs h in (key, in_items at, bad)
    found (obj fs) h = let (key, at, bad) = found_fields fs h in (key, in_fields at, bad)

    found_items :
        (xs : Items js.Num) → has_forbidden_items js xs ≡ true → Forbidden (λ key. ItemsName key xs)
    found_items nil h = absurd (ground arith)
    found_items (cons x xs) h = elim (Bool-cases (has_forbidden_config_keys js x)) [
      | inl e ↦ let (key, at, bad) = found x e in (key, in_head at, bad)
      | inr e ↦ let (key, at, bad) = found_items xs (ground (arith, e, h)) in (key, in_tail at, bad)
    ]

    found_fields :
        (fs : Fields js.Num)
        → has_forbidden_fields js fs ≡ true
        → Forbidden (λ key. FieldsName key fs)
    found_fields end h = absurd (ground arith)
    found_fields (field k v fs) h = elim (Bool-cases (is_forbidden js k)) [
      | inl e ↦ (k, at_key, e)
      | inr no_key ↦ elim (Bool-cases (has_forbidden_config_keys js v)) [
        | inl e ↦ let (key, at, bad) = found v e in (key, in_value at, bad)
        | inr e ↦
            let (key, at, bad) = found_fields fs (rw (no_key, e) at h) in (key, in_rest at, bad)
      ]
    ]

  module _ (key : String) (bad : is_forbidden js key ≡ true) where
    mutual
      unfolding has_forbidden_config_keys has_forbidden_items has_forbidden_fields

      finds : {v : Json js.Num} → Names key v → has_forbidden_config_keys js v ≡ true
      finds (in_items at) = finds_items at
      finds (in_fields at) = finds_fields at

      finds_items : {xs : Items js.Num} → ItemsName key xs → has_forbidden_items js xs ≡ true
      finds_items (in_head at) = rw (finds at)
      finds_items (in_tail at) = or-true_right _ (finds_items at)

      finds_fields : {fs : Fields js.Num} → FieldsName key fs → has_forbidden_fields js fs ≡ true
      finds_fields at_key = rw bad
      finds_fields (in_value at) = or-true_left _ (or-true_right _ (finds at))
      finds_fields (in_rest at) = or-true_right _ (finds_fields at)

  -- The policy refuses a value exactly if a forbidden key names a field of an object somewhere inside it,
  -- however deep in objects and lists.
  pub has_forbidden_config_keys-iff_names :
      (v : Json js.Num)
      → (has_forbidden_config_keys js v ≡ true)
        ↔ ((key : String) × Names key v × (is_forbidden js key ≡ true))
  has_forbidden_config_keys-iff_names v = (found v, λ (key, at, bad). finds key bad at)
