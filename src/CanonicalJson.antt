-- ===== src/CanonicalJson.antt =====
-- Canonical JSON (packages/provenance/lib/canonicalJson.ts). Which of several errors is thrown is left
-- open, so that the members of an object can be written before they are sorted.
pub mod KeyOrder
use Prim.Native.String.{◌++◌ as ◌<>◌}
use tapes_monorepo.Base.{
  ℕ, String, Bool, true, false, not, ◌&&◌, List, [], ◌∷◌, map, Option, none, some, if◌then◌else◌,
  ltb, leb, text_eq, nat_eq, list_eq,
}

-- A value of the language. A number is given by the text of it, if it is finite; what has neither of
-- the other shapes is `js_other`.
mutual
  pub data JsValue : Type 0 where
    js_null js_undefined js_other : JsValue
    js_bool : Bool → JsValue
    js_number : Option String → JsValue
    js_string : String → JsValue
    js_array : JsItems → JsValue
    js_object : JsMembers → JsValue

  pub data JsItems : Type 0 where
    no_items : JsItems
    js_item : JsValue → JsItems → JsItems

  pub data JsMembers : Type 0 where
    no_members : JsMembers
    js_member : String → JsValue → JsMembers → JsMembers

abbrev is_high : ℕ → Bool
is_high unit = leb 0xd800 unit && leb unit 0xdbff

abbrev is_low : ℕ → Bool
is_low unit = leb 0xdc00 unit && leb unit 0xdfff

-- `assertWellFormed`, on the code units of a text
unfoldable pub is_well_formed : List ℕ → Bool
is_well_formed [] = true
is_well_formed (unit ∷ []) = not (is_high unit) && not (is_low unit)
is_well_formed (unit ∷ next ∷ units) =
    let after_pair = is_well_formed units in
    let after_one = is_well_formed (next ∷ units) in
    if is_high unit then is_low next && after_pair else not (is_low unit) && after_one

abbrev pub is_undefined : JsValue → Bool
is_undefined js_undefined = true
is_undefined _ = false

unfoldable pub join : List String → String
join [] = ""
join (s ∷ []) = s
join (s ∷ t ∷ rest) = s <> "," <> join (t ∷ rest)

-- the order of `sort`, by code units
unfoldable pub at_most : List ℕ → List ℕ → Bool
at_most [] vs = true
at_most (u ∷ us) [] = false
at_most (u ∷ us) (v ∷ vs) =
    let rest = at_most us vs in if ltb u v then true else if ltb v u then false else rest

-- `quote` is `JSON.stringify` of a text, and `units` its code units.
module _ (quote : String → String) (units : String → List ℕ) where
  unfoldable pub insert_member : String × String → List (String × String) → List (String × String)
  unfolding at_most
  insert_member m [] = m ∷ []
  insert_member m (n ∷ rest) =
      let later = insert_member m rest in
      if at_most (units m.0) (units n.0) then m ∷ n ∷ rest else n ∷ later

  unfoldable pub sort_members : List (String × String) → List (String × String)
  unfolding insert_member
  sort_members [] = []
  sort_members (m ∷ rest) = insert_member m (sort_members rest)

  unfoldable pub object_text : List (String × String) → String
  unfolding join
  object_text members = "{" <> join (map (λ (key, text). quote key <> ":" <> text) members) <> "}"

  unfoldable mutual
    unfolding is_well_formed join sort_members object_text

    pub canonical_json : JsValue → Option String
    canonical_json js_null = some "null"
    canonical_json js_undefined = none
    canonical_json js_other = none
    canonical_json (js_bool b) = some (if b then "true" else "false")
    canonical_json (js_number text) = text
    canonical_json (js_string s) = if is_well_formed (units s) then some (quote s) else none
    canonical_json (js_array vs) = elim (array_items vs) [
      | none ↦ none
      | some texts ↦ some ("[" <> join texts <> "]")
    ]
    canonical_json (js_object ms) = elim (written_members ms) [
      | none ↦ none
      | some members ↦ some (object_text (sort_members members))
    ]

    -- `arrayItem`, for each
    pub array_items : JsItems → Option (List String)
    array_items no_items = some []
    array_items (js_item v vs) = elim (canonical_json v) [
      | none ↦ none
      | some text ↦ elim (array_items vs) [ none ↦ none | some texts ↦ some (text ∷ texts) ]
    ]

    pub written_members : JsMembers → Option (List (String × String))
    written_members no_members = some []
    written_members (js_member key v ms) =
        let written = canonical_json v in
        let rest = written_members ms in
        if is_undefined v
        then rest
        else if not (is_well_formed (units key))
        then none
        else elim written [
          | none ↦ none
          | some text ↦ elim rest [ none ↦ none | some members ↦ some ((key, text) ∷ members) ]
        ]
