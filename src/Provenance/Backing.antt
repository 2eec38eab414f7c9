-- ===== src/Provenance/Backing.antt =====
-- recordingProvenance.ts: what is gathered comes from statements that passed.
use mathlib.Core.List.{Memᴰ}
use tapes_monorepo.Base.{
  String, Bool, List, [], ◌∷◌, ◌++◌, ◌⊎◌, inl, inr, Option, none, some, ◌≡◌, refl, sym, subst,
  subst₂, arith, eq_iff, text_eq, nat_eq, ◌==◌, Bool-cases, All, All-append, Dict, get, set,
  get-set,
}
use tapes_monorepo.Statements.{Blob, RecordingClaim, Payload, Signed, DeviceLink}
use tapes_monorepo.Provenance.{
  FetchedStatement, Checked, Gathered, unique_of, gather_checked, check_statement, gather,
  claim_passed, receipt_passed, session_passed, link_passed, revocation_passed, of_unknown_type,
  failed_check,
}

-- The list has the bytes under the address.
abbrev pub IsListed : String → String → List FetchedStatement → Type 0
IsListed hash bytes statements = Memᴰ (hash, some bytes) statements

pub All-of-mem :
    {Q : FetchedStatement → Type 0} (statements : List FetchedStatement)
    → ((s : FetchedStatement) → Memᴰ s statements → Q s)
    → All Q statements
All-of-mem [] every = tt
All-of-mem (s ∷ statements) every =
    (every s (Memᴰ.head refl), All-of-mem statements (λ t m. every t (Memᴰ.tail m)))

module _ (P : String → String → Type 0) where
  -- Every statement that was fetched is one of those that `P` allows.
  abbrev pub AllFetched : List FetchedStatement → Type 0
  AllFetched = All (λ s. (bytes : String) → s.1 ≡ some bytes → P s.0 bytes)

  AllFetched-set :
      (hash : String) (b : Option String) (m : List FetchedStatement)
      → ((bytes : String) → b ≡ some bytes → P hash bytes)
      → AllFetched m
      → AllFetched (set hash b m)
  unfolding set
  AllFetched-set hash b [] new old = (new, tt)
  AllFetched-set hash b ((h, c) ∷ m) new old = elim (Bool-cases (h == hash)) [
    | inl same ↦ rw same (
      (λ bytes e. subst (λ k. P k bytes) (sym (ground (arith, same, eq_iff h hash))) (new bytes e)),
      old.1,
    )
    | inr differs ↦ rw differs (old.0, AllFetched-set hash b m new old.1)
  ]

  pub AllFetched-unique :
      (statements m : List FetchedStatement)
      → AllFetched statements
      → AllFetched m
      → AllFetched (unique_of statements m)
  unfolding unique_of
  AllFetched-unique [] m new old = old
  AllFetched-unique ((hash, b) ∷ statements) m new old =
      AllFetched-unique statements (set hash b m) new.1 (AllFetched-set hash b m new.0 old)

module _ (verify : String → Payload → String → Bool) (sha256 : String → String)
    (parse : String → Option Signed) (write : Signed → Option String) (blob : Blob)
    (P : String → String → Type 0) where
  -- Bytes that `P` allows pass their check, with this outcome.
  abbrev pub Passed : String → Checked → Type 0
  Passed hash outcome =
      (bytes : String) × P hash bytes
      × (check_statement verify sha256 parse write hash bytes blob ≡ outcome)

  pub record Backed (g : Gathered) : Type 0 where
    pub claims :
        (hash : String) (c : RecordingClaim)
        → get hash g.claims ≡ some c
        → Passed hash (claim_passed c)
    pub receipts : All (λ r. Passed r.0 (receipt_passed r.1)) g.receipts
    pub links :
        (hash : String) (l : DeviceLink) → get hash g.links ≡ some l → Passed hash (link_passed l)

  get-set-cases :
      {V : Type 0} (k j : String) (v w : V) (m : Dict String V)
      → get j (set k v m) ≡ some w
      → ((k ≡ j) × (v ≡ w)) ⊎ (get j m ≡ some w)
  get-set-cases k j v w m h = elim (Bool-cases (k == j)) [
    | inl same ↦ inl (ground (arith, same, eq_iff k j), ground (arith, same, h, get-set k j v m))
    | inr differs ↦ inr (ground (arith, differs, h, get-set k j v m))
  ]

  gather_checked-Backed :
      (hash : String) (outcome : Checked) (g : Gathered)
      → Passed hash outcome
      → Backed g
      → Backed (gather_checked hash outcome g)
  unfolding gather_checked
  gather_checked-Backed hash (claim_passed c) g passed ok = record {
    claims = λ h d found. elim (get-set-cases hash h c d g.claims found) [
      | inl (same, which) ↦ subst₂ (λ k e. Passed k (claim_passed e)) same which passed
      | inr old ↦ ok.claims h d old
    ];
    receipts = ok.receipts;
    links = ok.links;
  }
  gather_checked-Backed hash (receipt_passed r) g passed ok = record {
    claims = ok.claims;
    receipts =
        All-append (λ s. Passed s.0 (receipt_passed s.1)) g.receipts ((hash, r) ∷ []) ok.receipts
          (passed, tt);
    links = ok.links;
  }
  gather_checked-Backed hash (link_passed l) g passed ok = record {
    claims = ok.claims;
    receipts = ok.receipts;
    links = λ h d found. elim (get-set-cases hash h l d g.links found) [
      | inl (same, which) ↦ subst₂ (λ k e. Passed k (link_passed e)) same which passed
      | inr old ↦ ok.links h d old
    ];
  }
  gather_checked-Backed hash (session_passed r) g passed ok = record {
    claims = ok.claims;
    receipts = ok.receipts;
    links = ok.links;
  }
  gather_checked-Backed hash (revocation_passed r) g passed ok = record {
    claims = ok.claims;
    receipts = ok.receipts;
    links = ok.links;
  }
  gather_checked-Backed hash of_unknown_type g passed ok = ok
  gather_checked-Backed hash (failed_check p) g passed ok = record {
    claims = ok.claims;
    receipts = ok.receipts;
    links = ok.links;
  }

  pub gather-Backed :
      (statements : List FetchedStatement) (g : Gathered)
      → AllFetched P statements
      → Backed g
      → Backed (gather verify sha256 parse write blob statements g)
  unfolding gather
  gather-Backed [] g allowed ok = ok
  gather-Backed ((hash, none) ∷ statements) g allowed ok =
      gather-Backed statements (record g { missing = g.missing ++ hash ∷ [] }) allowed.1
        (record { claims = ok.claims; receipts = ok.receipts; links = ok.links })
  gather-Backed ((hash, some bytes) ∷ statements) g allowed ok =
      gather-Backed statements
        (gather_checked hash (check_statement verify sha256 parse write hash bytes blob) g)
        allowed.1
        (gather_checked-Backed hash (check_statement verify sha256 parse write hash bytes blob) g
          (bytes, allowed.0 bytes refl, refl) ok)
