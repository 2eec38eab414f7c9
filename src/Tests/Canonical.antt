-- ===== src/Tests/Canonical.antt =====
-- canonicalJson.ts on an object with two spellings.
use Prim.Native.Char.{code}
use Prim.Native.String.{[] as nil_text, ◌∷◌ as cons_text}
use text.Mathlib.TextEquality.{Char-path}
use tapes_monorepo.Base.{
  ℕ, String, true, List, [], ◌∷◌, some, ◌≡◌, refl, arith, text_eq, nat_eq, list_eq,
}
use tapes_monorepo.CanonicalJson.{
  JsValue, canonical_json, js_undefined, js_bool, js_string, js_object, no_members, js_member,
}
use tapes_monorepo.CanonicalJson.KeyOrder.{
  SameValue-canonical_json, same_value, same_object, same_member, swapped, skipped, then_same,
}

abbrev codes : String → List ℕ
codes nil_text = []
codes (cons_text c s) = code c ∷ codes s

codes-apart : (j k : String) → codes j ≡ codes k → j ≡ k
codes-apart nil_text nil_text same = refl
codes-apart nil_text (cons_text d t) same = absurd (ground (arith, same))
codes-apart (cons_text c s) nil_text same = absurd (ground (arith, same))
codes-apart (cons_text c s) (cons_text d t) same =
    let first : code c ≡ code d = ground (arith, same) in
    let rest : codes s ≡ codes t = ground (arith, same) in
    λ i. cons_text (Char-path c d first i) (codes-apart s t rest i)

abbrev bare : String → String
bare s = s

abbrev receipt : JsValue
receipt = js_object (
    js_member "type" (js_string "receipt")
      (js_member "label" js_undefined (js_member "claim" (js_bool true) no_members)))

abbrev same_receipt : JsValue
same_receipt =
    js_object (js_member "claim" (js_bool true) (js_member "type" (js_string "receipt") no_members))

SameValue-canonical_json_example :
    canonical_json bare codes receipt ≡ canonical_json bare codes same_receipt
SameValue-canonical_json_example =
    SameValue-canonical_json bare codes codes-apart receipt same_receipt
      (same_object (then_same (same_member same_value skipped) (swapped refl)))

receipt_is_written : canonical_json bare codes receipt ≡ some "{claim:true,type:receipt}"
unfolding canonical_json
receipt_is_written = refl
