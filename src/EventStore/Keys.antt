-- ===== src/EventStore/Keys.antt =====
-- `dedupeKey` of eventStore.ts tells events apart.
use Prim.Native.String.{[] as nil, ◌∷◌ as cons, ◌++◌ as ◌<>◌}
use text.Mathlib.TextLemmas.{head-eq_of_cons-eq, tail-eq_of_cons-eq, cons-append, nil-append}
use tapes_monorepo.Base.{refl, String, ◌≢◌, ◌≡◌, nat_eq, text_eq, Option, sym, or_else}
use tapes_monorepo.EventStore.{dedupe_key, nul}

-- The text has no NUL character.
abbrev pub HasNoNul : String → Type 0
HasNoNul nil = Unit
HasNoNul (cons c s) = (c ≢ nul) × HasNoNul s

split_at_nul :
    (a b s t : String)
    → HasNoNul a
    → HasNoNul b
    → a <> cons nul s ≡ b <> cons nul t
    → (a ≡ b) × (s ≡ t)
split_at_nul nil nil s t ha hb e = let e' = simp nil-append at e in (refl, tail-eq_of_cons-eq e')
split_at_nul nil (cons c b) s t ha hb e =
    let e' = simp (nil-append, cons-append) at e in absurd (hb.0 (sym (head-eq_of_cons-eq e')))
split_at_nul (cons c a) nil s t ha hb e =
    let e' = simp (nil-append, cons-append) at e in absurd (ha.0 (head-eq_of_cons-eq e'))
split_at_nul (cons c a) (cons d b) s t ha hb e =
    let e' = simp cons-append at e in
    let rest = split_at_nul a b s t ha.1 hb.1 (tail-eq_of_cons-eq e') in
    (cc (head-eq_of_cons-eq e', rest.0), rest.1)

-- Where no device id holds a NUL, events with one key come from one device (where no device is the
-- device "unknown") and have one id, whatever the ids hold.
pub dedupe_key_inj :
    (d d' : Option String) (id id' : String)
    → HasNoNul (or_else d "unknown")
    → HasNoNul (or_else d' "unknown")
    → dedupe_key d id ≡ dedupe_key d' id'
    → (or_else d "unknown" ≡ or_else d' "unknown") × (id ≡ id')
unfolding dedupe_key
dedupe_key_inj d d' id id' h h' e =
    split_at_nul (or_else d "unknown") (or_else d' "unknown") id id' h h' e
