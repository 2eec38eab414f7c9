-- ===== src/BlobClient/Replicate.antt =====
-- Copies of a recording's audio and statements to hosts that lack them (packages/core/app/
-- blobClient.ts: copyBlob, fetchStatements, replicateBlob, deleteBlobEverywhere).
use tapes_monorepo.Base.{
  ℕ, String, Bool, true, false, ◌&&◌, List, [], ◌∷◌, map, Option, none, some, if◌then◌else◌, leb,
  text_eq, nat_eq, ◌==◌, list_eq, find,
}
use tapes_monorepo.Statements.{}
use tapes_monorepo.BlobStore.{Bytes}
use tapes_monorepo.StatementUpload.{
  statement_mime_type, StatementType, claim_type, certificate_type, vouch_type, revocation_type,
}

-- What `readPayload` makes of a statement: its type where it is a text, and the text of `deviceCert`.
pub record StatementPayload : Type 0 where
  pub type : StatementType
  pub device_cert : Option String

pub record FetchedStatement : Type 0 where
  pub hash : String
  pub blob : Bytes
  pub payload : Option StatementPayload

pub record OrderedStatement : Type 0 where
  pub hash : String
  pub blob : Bytes
  pub for_claim : Option String

abbrev pub has_type : (StatementType → Bool) → Option StatementPayload → Bool
has_type test none = false
has_type test (some p) = test p.type

abbrev pub is_claim_type : StatementType → Bool
is_claim_type claim_type = true
is_claim_type t = false

abbrev pub is_device_link : Option StatementPayload → Bool
is_device_link none = false
is_device_link (some p) = elim p.type [ certificate_type ↦ true | vouch_type ↦ true | _ ↦ false ]

unfoldable pub rank : Option StatementPayload → ℕ
rank p =
    if has_type is_claim_type p
    then 0
    else if is_device_link p
    then 1
    else elim p [ none ↦ 2 | some q ↦ elim q.type [ revocation_type ↦ 3 | _ ↦ 2 ] ]

-- `.sort`, which is stable, by what comes of `rank`
abbrev pub insert_by_rank : FetchedStatement → List FetchedStatement → List FetchedStatement
insert_by_rank s [] = s ∷ []
insert_by_rank s (t ∷ ts) =
    let rest = insert_by_rank s ts in
    if leb (rank s.payload) (rank t.payload) then s ∷ t ∷ ts else t ∷ rest

abbrev pub sort_by_rank : List FetchedStatement → List FetchedStatement
sort_by_rank [] = []
sort_by_rank (s ∷ ss) = insert_by_rank s (sort_by_rank ss)

-- whether a statement is a claim that names a certificate or a vouch
abbrev pub claims_with : String → FetchedStatement → Bool
claims_with hash s = elim s.payload [
  | none ↦ false
  | some p ↦ is_claim_type p.type && elim p.device_cert [ none ↦ false | some c ↦ c == hash ]
]

unfoldable pub claim_naming : String → List FetchedStatement → Option String
claim_naming hash fetched = elim (find (claims_with hash) fetched) [
  | none ↦ none
  | some s ↦ some s.hash
]

abbrev pub with_claim : List FetchedStatement → FetchedStatement → OrderedStatement
with_claim fetched s = record {
  hash = s.hash;
  blob = s.blob;
  for_claim = if is_device_link s.payload then claim_naming s.hash fetched else none;
}

-- `fetch_one` is what `fetchBlobFromAny` brings of a hash, and `read_payload` is JSON.parse.
module _ (fetch_one : String → Option Bytes) (read_payload : Bytes → Option StatementPayload) where
  abbrev pub fetched_of : List String → List FetchedStatement
  fetched_of [] = []
  fetched_of (hash ∷ hashes) =
      let rest = fetched_of hashes in
      elim (fetch_one hash) [
        | none ↦ rest
        | some bytes ↦ record { hash = hash; blob = bytes; payload = read_payload bytes } ∷ rest
      ]

  unfoldable pub fetch_statements : List String → List OrderedStatement
  unfolding claim_naming rank
  fetch_statements hashes =
      let fetched = fetched_of hashes in map (with_claim fetched) (sort_by_rank fetched)

-- `upload_blob` is `uploadBlob` to one host, whose state it changes: whether the host took the bytes.
-- A hash that differs from the expected one is only reported.
module _ {ℓ} {S : Type ℓ} (upload_blob : Bytes → String → Option String → S → S × Bool) where
  abbrev pub copy_blob : Bytes → String → Option String → S → S × Bool
  copy_blob = upload_blob

  unfoldable pub copy_statements : List OrderedStatement → S → S
  copy_statements [] host = host
  copy_statements (s ∷ ss) host =
      copy_statements ss (copy_blob s.blob statement_mime_type s.for_claim host).0

  -- `replicateBlob` to one of its hosts
  unfoldable pub replicate_blob : Bytes → String → List OrderedStatement → S → S
  unfolding copy_statements
  replicate_blob blob mime_type statements host =
      let (after, copied) = copy_blob blob mime_type none host in
      if copied then copy_statements statements after else after
