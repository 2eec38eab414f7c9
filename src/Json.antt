-- ===== src/Json.antt =====
-- Values that `JSON.parse` returns. The fractions are those of the model's numbers.
use tapes_monorepo.Base.{
  String, Bool, true, false, List, [], ◌∷◌, Option, none, some, if◌then◌else◌, ◌==◌, nat_eq,
  text_eq,
}

mutual
  pub data Json (N : Type 0) : Type 0 where
    null : Json N
    bool : Bool → Json N
    num : N → Json N
    str : String → Json N
    arr : Items N → Json N
    obj : Fields N → Json N

  pub data Items (N : Type 0) : Type 0 where
    nil : Items N
    item : Json N → Items N → Items N

  pub data Fields (N : Type 0) : Type 0 where
    end : Fields N
    field : String → Json N → Fields N → Fields N

module _ {N : Type 0} where
  unfoldable pub items : Items N → List (Json N)
  items nil = []
  items (item v vs) = v ∷ items vs

  unfoldable pub lookup : String → Fields N → Option (Json N)
  lookup k end = none
  lookup k (field j v fs) = if j == k then some v else lookup k fs

  -- `value.k`, where `value` may be any value but null; `none` is undefined.
  unfoldable pub member : String → Json N → Option (Json N)
  unfolding lookup
  member k (obj fs) = lookup k fs
  member k _ = none

  -- `typeof value === 'string' ? value : undefined`
  abbrev pub as_text : Option (Json N) → Option String
  as_text (some (str s)) = some s
  as_text _ = none

  abbrev pub as_num : Option (Json N) → Option N
  as_num (some (num x)) = some x
  as_num _ = none

  -- `Array.isArray(value) ? value : undefined`
  unfoldable pub as_items : Option (Json N) → Option (List (Json N))
  unfolding items
  as_items (some (arr vs)) = some (items vs)
  as_items _ = none

  abbrev pub is_obj : Json N → Bool
  is_obj (obj fs) = true
  is_obj (arr vs) = true
  is_obj _ = false

-- A text that is not empty.
abbrev pub non_empty : Option String → Option String
non_empty none = none
non_empty (some s) = if s == "" then none else some s
