-- ===== src/Provenance.antt =====
-- What a recording's listed statements prove (packages/provenance/lib/recordingProvenance.ts). The
-- bytes of a statement are a text; a time is what `Date.parse` makes of it, or nothing.
pub mod Verdict
pub mod Backing
pub mod Soundness
pub mod Evidence
pub mod Verified
use tapes_monorepo.Base.{
  String, Bool, false, not, List, [], ◌∷◌, ◌++◌, map, Option, none, some, if◌then◌else◌, text_eq,
  nat_eq, ◌==◌, is_some, length, filter, any, includes, add, Dict, values, keys, get, set,
}
use tapes_monorepo.Statements.{
  Blob, RecordingClaim, DeviceRevocation, HostReceipt, SessionRecord, Payload, Signed, Problem,
  Check, DeviceLink, link_device_key, revocation_covers, check_recording_claim, check_host_receipt,
  check_session_record, check_device_certificate, check_device_vouch, check_device_revocation,
  a_claim, a_receipt, a_session, a_certificate, a_vouch, a_revocation, misshapen, malformed, passes,
  fails, certified, vouched_for,
}

pub data StatementProblem : Type 0 where
  address_mismatch not_canonical claim_not_listed session_mismatch : StatementProblem
  claim_not_in_session certificate_not_claimed certificate_device_mismatch : StatementProblem
  revocation_not_claimed revocation_not_permitted : StatementProblem
  check_failed : Problem → StatementProblem

-- An address, with the bytes that a host served for it, if one did.
abbrev pub FetchedStatement : Type 0
FetchedStatement = String × Option String

pub data Checked : Type 0 where
  claim_passed : RecordingClaim → Checked
  receipt_passed : HostReceipt → Checked
  session_passed : SessionRecord → Checked
  link_passed : DeviceLink → Checked
  revocation_passed : DeviceRevocation → Checked
  of_unknown_type : Checked
  failed_check : StatementProblem → Checked

pub record Gathered : Type 0 where
  pub failures : List (String × StatementProblem)
  pub missing : List String
  pub claims : Dict String RecordingClaim
  pub receipts : List (String × HostReceipt)
  pub sessions : List (String × SessionRecord)
  pub links : Dict String DeviceLink
  pub revocations : Dict String DeviceRevocation

abbrev pub nothing_gathered : Gathered
nothing_gathered = record {
  failures = [];
  missing = [];
  claims = [];
  receipts = [];
  sessions = [];
  links = [];
  revocations = [];
}

abbrev when_passed : {A : Type 0} → Check A → (A → Checked) → Checked
when_passed (passes a) k = k a
when_passed (fails p) k = failed_check (check_failed p)

-- `new Map(statements.map((s) => [s.hash, s.bytes]))`
unfoldable pub unique_of :
    List FetchedStatement → Dict String (Option String) → Dict String (Option String)
unique_of [] m = m
unique_of ((hash, bytes) ∷ statements) m = unique_of statements (set hash bytes m)

-- The loop's body, with what the check came to.
unfoldable pub gather_checked : String → Checked → Gathered → Gathered
gather_checked hash (claim_passed c) g = record g { claims = set hash c g.claims }
gather_checked hash (receipt_passed r) g = record g { receipts = g.receipts ++ (hash, r) ∷ [] }
gather_checked hash (session_passed r) g = record g { sessions = g.sessions ++ (hash, r) ∷ [] }
gather_checked hash (link_passed l) g = record g { links = set hash l g.links }
gather_checked hash (revocation_passed r) g = record g { revocations = set hash r g.revocations }
gather_checked hash of_unknown_type g = g
gather_checked hash (failed_check p) g = record g { failures = g.failures ++ (hash, p) ∷ [] }

-- `verify` is `verifyStatement`, `sha256` hashes bytes, `parse` is `parseSignedStatement`, and
-- `write` is `statementBytes`, which can throw.
module _ (verify : String → Payload → String → Bool) (sha256 : String → String)
    (parse : String → Option Signed) (write : Signed → Option String) where
  abbrev is_canonical : String → Signed → Bool
  is_canonical bytes s = elim (write s) [ none ↦ false | some written ↦ written == bytes ]

  -- the dispatch on `statementType`
  unfoldable pub check_typed : Signed → Blob → Checked
  check_typed s blob = elim s.payload [
    | a_claim c ↦ when_passed (check_recording_claim verify s blob.hash blob.size) claim_passed
    | a_receipt r ↦ when_passed (check_host_receipt verify s) receipt_passed
    | a_session r ↦ when_passed (check_session_record verify s) session_passed
    | a_certificate c ↦
        when_passed (check_device_certificate verify s) (λ c. link_passed (certified c))
    | a_vouch v ↦ when_passed (check_device_vouch verify s) (λ v. link_passed (vouched_for v))
    | a_revocation r ↦ when_passed (check_device_revocation verify s) revocation_passed
    | misshapen ↦ failed_check (check_failed malformed)
    | _ ↦ of_unknown_type
  ]

  unfoldable pub check_statement : String → String → Blob → Checked
  unfolding check_typed
  check_statement hash bytes blob =
      if not (sha256 bytes == hash) then failed_check address_mismatch else elim (parse bytes) [
        | none ↦ failed_check (check_failed malformed)
        | some s ↦
            if not (is_canonical bytes s) then failed_check not_canonical else check_typed s blob
      ]

  unfoldable pub gather : Blob → Dict String (Option String) → Gathered → Gathered
  unfolding gather_checked
  gather blob [] g = g
  gather blob ((hash, none) ∷ statements) g =
      gather blob statements (record g { missing = g.missing ++ hash ∷ [] })
  gather blob ((hash, some bytes) ∷ statements) g =
      gather blob statements (gather_checked hash (check_statement hash bytes blob) g)

abbrev has_claim : String → Dict String RecordingClaim → Bool
has_claim hash claims = is_some (get hash claims)

unfoldable pub receipt_failures :
    Dict String RecordingClaim → List (String × HostReceipt) → List (String × StatementProblem)
receipt_failures claims [] = []
receipt_failures claims ((hash, r) ∷ rest) =
    let more = receipt_failures claims rest in
    if has_claim r.claim claims then more else (hash, claim_not_listed) ∷ more

-- `sessionProblem`
unfoldable pub session_problem :
    SessionRecord → Dict String RecordingClaim → Option StatementProblem
session_problem r claims =
    let in_session = filter (λ (address, c). c.session_id == r.session_id) claims in
    if length in_session == 0
    then some session_mismatch
    else if not (any (λ (address, c). includes r.claims address) in_session)
    then some claim_not_in_session
    else none

unfoldable pub session_failures :
    Dict String RecordingClaim → List (String × SessionRecord) → List (String × StatementProblem)
unfolding session_problem
session_failures claims [] = []
session_failures claims ((hash, r) ∷ rest) =
    let more = session_failures claims rest in
    elim (session_problem r claims) [ none ↦ more | some p ↦ (hash, p) ∷ more ]

-- The passing claims that name a link: `named.get(hash)`, where none is an empty list here.
abbrev pub named_by : String → Dict String RecordingClaim → List RecordingClaim
named_by hash claims =
    filter (λ c. elim c.device_cert [ none ↦ false | some cert ↦ cert == hash ]) (values claims)

unfoldable pub link_problem :
    String → DeviceLink → Dict String RecordingClaim → Option StatementProblem
link_problem hash link claims =
    if length (named_by hash claims) == 0
    then some certificate_not_claimed
    else if any (λ c. not (c.device_key == link_device_key link)) (named_by hash claims)
    then some certificate_device_mismatch
    else none

unfoldable pub link_failures :
    Dict String RecordingClaim → Dict String DeviceLink → List (String × StatementProblem)
unfolding link_problem
link_failures claims [] = []
link_failures claims ((hash, link) ∷ rest) =
    let more = link_failures claims rest in
    elim (link_problem hash link claims) [ none ↦ more | some p ↦ (hash, p) ∷ more ]

unfoldable pub revocation_problem :
    DeviceRevocation → Dict String DeviceLink → Option StatementProblem
unfolding revocation_covers
revocation_problem r links = elim (get r.device_link links) [
  | none ↦ some revocation_not_claimed
  | some link ↦
      if revocation_covers r link r.device_link then none else some revocation_not_permitted
]

unfoldable pub revocation_failures :
    Dict String DeviceLink → Dict String DeviceRevocation → List (String × StatementProblem)
unfolding revocation_problem
revocation_failures links [] = []
revocation_failures links ((hash, r) ∷ rest) =
    let more = revocation_failures links rest in
    elim (revocation_problem r links) [ none ↦ more | some p ↦ (hash, p) ∷ more ]

unfoldable pub all_failures : Gathered → List (String × StatementProblem)
unfolding receipt_failures session_failures link_failures revocation_failures
all_failures g =
    g.failures
    ++ (receipt_failures g.claims g.receipts
        ++ (session_failures g.claims g.sessions
            ++ (link_failures g.claims g.links ++ revocation_failures g.links g.revocations)))

-- `named.keys()`, in the order of the claims
unfoldable pub named_addresses : Dict String RecordingClaim → List String → List String
named_addresses [] seen = seen
named_addresses ((hash, c) ∷ claims) seen =
    named_addresses claims (elim c.device_cert [ none ↦ seen | some cert ↦ add seen cert ])
