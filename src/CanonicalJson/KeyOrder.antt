-- ===== src/CanonicalJson/KeyOrder.antt =====
-- canonicalJson.ts: values that differ in the order of keys only.
use tapes_monorepo.Base.{
  ℕ, String, true, false, not, ◌||◌, List, [], ◌∷◌, Option, none, some, ◌≡◌, refl, sym, ◌∙◌, ap,
  arith, eq_iff, if◌then◌else◌, text_eq, nat_eq, ◌==◌, or_else, list_eq,
}
use tapes_monorepo.CanonicalJson.{
  JsValue, JsItems, JsMembers, is_well_formed, is_undefined, at_most, insert_member, sort_members,
  object_text, canonical_json, array_items, written_members, js_undefined, js_array, js_object,
  no_items, js_item, no_members, js_member,
}

-- Objects whose members come in another order, or have an undefined member more or less, at any depth.
mutual
  pub data SameValue : JsValue → JsValue → Type 0 where
    same_value : {v : JsValue} → SameValue v v
    same_array : {vs ws : JsItems} → SameItems vs ws → SameValue (js_array vs) (js_array ws)
    same_object : {ms ns : JsMembers} → SameMembers ms ns → SameValue (js_object ms) (js_object ns)

  pub data SameItems : JsItems → JsItems → Type 0 where
    same_nil : SameItems no_items no_items
    same_item :
        {v w : JsValue} {vs ws : JsItems}
        → SameValue v w
        → SameItems vs ws
        → SameItems (js_item v vs) (js_item w ws)

  pub data SameMembers : JsMembers → JsMembers → Type 0 where
    same_end : SameMembers no_members no_members
    same_member :
        {key : String} {v w : JsValue} {ms ns : JsMembers}
        → SameValue v w
        → SameMembers ms ns
        → SameMembers (js_member key v ms) (js_member key w ns)
    swapped :
        {j k : String} {v w : JsValue} {ms : JsMembers}
        → (j == k) ≡ false
        → SameMembers (js_member j v (js_member k w ms)) (js_member k w (js_member j v ms))
    skipped : {key : String} {ms : JsMembers} → SameMembers (js_member key js_undefined ms) ms
    then_same : {ms ns os : JsMembers} → SameMembers ms ns → SameMembers ns os → SameMembers ms os

at_most-total : (us vs : List ℕ) → (at_most us vs || at_most vs us) ≡ true
unfolding at_most
at_most-total [] vs = refl
at_most-total (u ∷ us) [] = refl
at_most-total (u ∷ us) (v ∷ vs) = ground (arith, at_most-total us vs)

at_most-antisymmetric : (us vs : List ℕ) → at_most us vs ≡ true → at_most vs us ≡ true → us ≡ vs
unfolding at_most
at_most-antisymmetric [] [] h k = refl
at_most-antisymmetric [] (v ∷ vs) h k = absurd (ground (arith, k))
at_most-antisymmetric (u ∷ us) [] h k = absurd (ground (arith, h))
at_most-antisymmetric (u ∷ us) (v ∷ vs) h k = ground (arith, h, k, at_most-antisymmetric us vs)

at_most-transitive :
    (us vs ws : List ℕ) → at_most us vs ≡ true → at_most vs ws ≡ true → at_most us ws ≡ true
unfolding at_most
at_most-transitive [] vs ws h k = refl
at_most-transitive (u ∷ us) [] ws h k = absurd (ground (arith, h))
at_most-transitive (u ∷ us) (v ∷ vs) [] h k = absurd (ground (arith, k))
at_most-transitive (u ∷ us) (v ∷ vs) (w ∷ ws) h k =
    ground (arith, h, k, at_most-transitive us vs ws)

module _ (quote : String → String) (units : String → List ℕ)
    (apart : (j k : String) → units j ≡ units k → j ≡ k) where
  abbrev put : String × String → List (String × String) → List (String × String)
  put = insert_member quote units

  distinct :
      (j k : String)
      → at_most (units j) (units k) ≡ true
      → at_most (units k) (units j) ≡ true
      → (j == k) ≡ true
  distinct j k h l =
      ground (arith, eq_iff j k, apart j k (at_most-antisymmetric (units j) (units k) h l))

  put-put :
      (m n : String × String) (rest : List (String × String))
      → (m.0 == n.0) ≡ false
      → put m (put n rest) ≡ put n (put m rest)
  unfolding insert_member
  put-put m n [] differs =
      ground (arith, differs, at_most-total (units m.0) (units n.0), distinct m.0 n.0)
  put-put m n (o ∷ rest) differs =
      let i = units m.0 in
      let j = units n.0 in
      let k = units o.0 in
      ground (
        arith,
        differs,
        put-put m n rest differs,
        distinct m.0 n.0,
        at_most-total i j,
        at_most-total i k,
        at_most-total j k,
        at_most-transitive i j k,
        at_most-transitive j i k,
      )

  sorted : JsMembers → Option (List (String × String))
  sorted ms = elim (written_members quote units ms) [
    | none ↦ none
    | some members ↦ some (sort_members quote units members)
  ]

  abbrev write : JsValue → Option String
  write = canonical_json quote units

  -- what a member adds to those that are sorted
  abbrev with_member :
      String → JsValue → Option (List (String × String)) → Option (List (String × String))
  with_member key v rest =
      if is_undefined v
      then rest
      else if not (is_well_formed (units key))
      then none
      else elim (write v) [
        | none ↦ none
        | some text ↦ elim rest [ none ↦ none | some members ↦ some (put (key, text) members) ]
      ]

  sorted-js_member :
      (key : String) (v : JsValue) (ms : JsMembers)
      → sorted (js_member key v ms) ≡ with_member key v (sorted ms)
  unfolding canonical_json sorted
  sorted-js_member key v ms = ground arith

  with_member-swap :
      (j k : String) (v w : JsValue) (rest : Option (List (String × String)))
      → (j == k) ≡ false
      → with_member j v (with_member k w rest) ≡ with_member k w (with_member j v rest)
  with_member-swap j k v w none differs = ground arith
  with_member-swap j k v w (some members) differs =
      let first = or_else (write v) "" in
      let second = or_else (write w) "" in
      ground (arith, put-put (j, first) (k, second) members differs)

  SameValue-is_undefined : {v w : JsValue} → SameValue v w → is_undefined v ≡ is_undefined w
  SameValue-is_undefined same_value = refl
  SameValue-is_undefined (same_array same) = refl
  SameValue-is_undefined (same_object same) = refl

  object_of : Option (List (String × String)) → Option String
  object_of members = elim members [
    | none ↦ none
    | some sorted_ones ↦ some (object_text quote units sorted_ones)
  ]

  write-js_object : (ms : JsMembers) → write (js_object ms) ≡ object_of (sorted ms)
  unfolding canonical_json sorted object_of
  write-js_object ms = ground arith

  mutual
    unfolding canonical_json

    SameValue-write :
        {v w : JsValue}
        → SameValue v w
        → canonical_json quote units v ≡ canonical_json quote units w
    SameValue-write same_value = refl
    SameValue-write (same_array same) = ground (arith, SameItems-array_items same)
    SameValue-write (same_object {ms} {ns} same) =
        write-js_object ms ∙ ap object_of (SameMembers-sorted same) ∙ sym (write-js_object ns)

    SameItems-array_items :
        {vs ws : JsItems}
        → SameItems vs ws
        → array_items quote units vs ≡ array_items quote units ws
    SameItems-array_items same_nil = refl
    SameItems-array_items (same_item v vs) =
        ground (arith, SameValue-write v, SameItems-array_items vs)

    SameMembers-sorted : {ms ns : JsMembers} → SameMembers ms ns → sorted ms ≡ sorted ns
    SameMembers-sorted same_end = refl
    SameMembers-sorted (same_member {key} {v} {w} {ms} {ns} value members) =
        sorted-js_member key v ms
        ∙ ground
            (arith, SameValue-write value, SameValue-is_undefined value, SameMembers-sorted members)
        ∙ sym (sorted-js_member key w ns)
    SameMembers-sorted (swapped {j} {k} {v} {w} {ms} differs) =
        sorted-js_member j v (js_member k w ms)
        ∙ ap (with_member j v) (sorted-js_member k w ms)
        ∙ with_member-swap j k v w (sorted ms) differs
        ∙ sym (ap (with_member k w) (sorted-js_member j v ms))
        ∙ sym (sorted-js_member k w (js_member j v ms))
    SameMembers-sorted (skipped {key} {ms}) = sorted-js_member key js_undefined ms
    SameMembers-sorted (then_same first second) =
        SameMembers-sorted first ∙ SameMembers-sorted second

  -- Values that differ only in the order of the keys of objects, at any depth, and in members that
  -- are undefined, are written as the same text, or both are refused. Texts with the same code units
  -- are the same.
  pub SameValue-canonical_json :
      (v w : JsValue) → SameValue v w → canonical_json quote units v ≡ canonical_json quote units w
  SameValue-canonical_json v w same = SameValue-write same
