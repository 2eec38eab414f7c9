-- ===== src/Tests/Hosts.antt =====
-- blobClient.ts on a few hosts, and on a claim with its receipt.
use mathlib.Core.List.{Memᴰ}
use tapes_monorepo.Base.{
  String, true, false, List, [], ◌∷◌, map, inl, inr, Option, none, some, ◌≡◌, refl, ap, arith,
  if◌then◌else◌, text_eq, nat_eq, ◌==◌, Bool-cases, list_eq, All, get, set,
}
use tapes_monorepo.Statements.{
  HostReceipt, Signed, check_recording_claim, check_host_receipt, a_claim, a_receipt,
}
use tapes_monorepo.BlobStore.{
  Bytes, BlobMeta, Disk, empty_disk, is_valid_blob_hash, has, read_refs, stat_blob,
}
use tapes_monorepo.StatementUpload.{Reader, type_of, refused, claim_type, receipt_type, other_type}
use tapes_monorepo.BlobRoutes.{handle_statement_upload}
use tapes_monorepo.BlobRoutes.Order.{its_receipt}
use tapes_monorepo.BlobClient.{
  BlobEndpoint, Answer, fetch_blob_from_any, probe_blob_endpoints, status, missing, served, refused,
  no_answer, found, blob_failed,
}
use tapes_monorepo.BlobClient.Outcome.{Explains, fetch_blob_from_any_lem}
use tapes_monorepo.BlobClient.Failures.{fetch_failure_lem, as_head, probe_blob_endpoints_lem}
use tapes_monorepo.BlobClient.Replicate.{
  StatementPayload, FetchedStatement, fetched_of, fetch_statements, copy_statements,
}
use tapes_monorepo.BlobClient.Replicated.{IsRead, IsStored, uploads, IsFree, by_other, by_audio}
use tapes_monorepo.BlobClient.Copied.{IsReady, replicated_statements}
use tapes_monorepo.Tests.Blobs.{first_name, second_name, small_claim, signed_claim, small_signer}

abbrev host_at : String → BlobEndpoint
host_at url = record { base_url = url; token = none; is_local = false }

-- one host is off, one does not answer in time, one lacks the blob, and the rest have it
abbrev ask_host : BlobEndpoint → Answer String
ask_host e =
    if e.base_url == "http://off"
    then no_answer
    else if e.base_url == "http://slow"
    then refused 408
    else if e.base_url == "http://new"
    then refused 404
    else served "tape"

abbrev some_hosts : List BlobEndpoint
some_hosts = host_at "http://new" ∷ host_at "http://full" ∷ []

fetch_blob_from_any_example :
    Explains ask_host
      (host_at "http://off" ∷ some_hosts)
      []
      []
      (fetch_blob_from_any ask_host (host_at "http://off" ∷ some_hosts))
fetch_blob_from_any_example = fetch_blob_from_any_lem ask_host (host_at "http://off") some_hosts

found_at_last :
    fetch_blob_from_any ask_host (host_at "http://off" ∷ some_hosts)
    ≡ found "tape" (host_at "http://full") (host_at "http://new" ∷ [])
unfolding fetch_blob_from_any
found_at_last = refl

fetch_failure_example :
    fetch_blob_from_any ask_host (host_at "http://slow" ∷ host_at "http://new" ∷ [])
    ≡ blob_failed missing (status 408 ∷ status 404 ∷ [])
fetch_failure_example =
    fetch_failure_lem ask_host (host_at "http://slow") (host_at "http://new" ∷ []) refl

probe_blob_endpoints_example :
    probe_blob_endpoints (λ e. as_head ask_host (ask_host e)) some_hosts
    ≡ fetch_blob_from_any ask_host some_hosts
probe_blob_endpoints_example = probe_blob_endpoints_lem ask_host some_hosts

abbrev third_name : String
third_name = "0000000000000000000000000000000000000000000000000000000000000000"

abbrev name_of : Bytes → String
name_of bytes =
    if bytes == 7 ∷ [] then second_name else if bytes == 9 ∷ [] then third_name else first_name

name_of-valid : (bytes : Bytes) → is_valid_blob_hash (name_of bytes) ≡ true
unfolding is_valid_blob_hash
name_of-valid bytes = elim (Bool-cases (bytes == 7 ∷ [])) [
  | inl seven ↦ rw seven
  | inr differs ↦ elim (Bool-cases (bytes == 9 ∷ [])) [
    | inl nine ↦ rw differs (rw nine)
    | inr neither ↦ rw differs (rw neither)
  ]
]

abbrev signed_receipt : Signed
signed_receipt = record {
  payload = a_receipt (record { claim = second_name; received_at = "3"; host_key = "host" });
  signature = "s";
}

abbrev pair_reader : Reader
pair_reader = record {
  parse = λ bytes.
      if bytes == 7 ∷ []
      then some signed_claim
      else if bytes == 9 ∷ []
      then some signed_receipt
      else none;
  write =
      λ s. elim s.payload [ a_claim c ↦ some (7 ∷ []) | a_receipt r ↦ some (9 ∷ []) | _ ↦ none ];
  verify = λ key payload signature. true;
  loose_type = λ s. other_type;
  loose_hash = λ s. none;
}

abbrev payload_of : Bytes → Option StatementPayload
payload_of bytes =
    if bytes == 7 ∷ []
    then some (record { type = claim_type; device_cert = none })
    else if bytes == 9 ∷ []
    then some (record { type = receipt_type; device_cert = none })
    else none

payload_of-types :
    (bytes : Bytes) (s : Signed)
    → pair_reader.parse bytes ≡ some s
    → (p : StatementPayload) × (payload_of bytes ≡ some p)
      × (p.type ≡ type_of pair_reader name_of s)
payload_of-types bytes s h = elim (Bool-cases (bytes == 7 ∷ [])) [
  | inl seven ↦
      let is_claim : signed_claim ≡ s = ground (arith, h, seven) in
      (
        record { type = claim_type; device_cert = none },
        ground (arith, seven),
        ap (type_of pair_reader name_of) is_claim,
      )
  | inr differs ↦ elim (Bool-cases (bytes == 9 ∷ [])) [
    | inr neither ↦ absurd (ground (arith, h, differs, neither))
    | inl nine ↦
        let is_receipt : signed_receipt ≡ s = ground (arith, h, differs, nine) in
        (
          record { type = receipt_type; device_cert = none },
          ground (arith, differs, nine),
          ap (type_of pair_reader name_of) is_receipt,
        )
  ]
]

abbrev bytes_of : String → Option Bytes
bytes_of hash =
    if hash == second_name
    then some (7 ∷ [])
    else if hash == third_name
    then some (9 ∷ [])
    else none

-- a host with the audio alone
abbrev tape_meta : BlobMeta
tape_meta = record {
  hash = first_name;
  size = 1;
  mime_type = "audio/wav";
  ext = ".wav";
  created_at = "then";
}

abbrev tape_disk : Disk
tape_disk = record empty_disk {
  objects = (first_name, 1 ∷ []) ∷ [];
  metas = (first_name, tape_meta) ∷ [];
}

-- The receipt comes first in the recording's list.
abbrev listed : List FetchedStatement
listed = fetched_of bytes_of payload_of (third_name ∷ second_name ∷ [])

abbrev fetched_receipt : FetchedStatement
fetched_receipt = record { hash = third_name; blob = 9 ∷ []; payload = payload_of (9 ∷ []) }

abbrev fetched_claim : FetchedStatement
fetched_claim = record { hash = second_name; blob = 7 ∷ []; payload = payload_of (7 ∷ []) }

claim-IsRead :
    IsRead pair_reader name_of small_signer name_of-valid payload_of payload_of-types bytes_of
      fetched_claim signed_claim
claim-IsRead = (refl, refl, refl, omega arith, refl, refl)

listed-IsReady :
    All
      (IsReady pair_reader name_of small_signer name_of-valid payload_of payload_of-types bytes_of
        listed first_name tape_meta)
      listed
unfolding check_recording_claim check_host_receipt
listed-IsReady =
    let r : HostReceipt = record { claim = second_name; received_at = "3"; host_key = "host" } in
    (
      (
        signed_receipt,
        (refl, refl, refl, omega arith, refl, refl),
        by_other fetched_claim signed_claim (Memᴰ.tail (Memᴰ.head refl)) claim-IsRead
            (its_receipt r refl refl refl refl),
      ),
      ((signed_claim, claim-IsRead, by_audio small_claim refl refl refl), tt),
    )

listed-IsFree :
    (g : FetchedStatement) (s : Signed)
    → Memᴰ g listed
    → IsRead pair_reader name_of small_signer name_of-valid payload_of payload_of-types bytes_of g s
    → IsFree pair_reader name_of small_signer name_of-valid payload_of payload_of-types bytes_of g s
        tape_disk
unfolding has get is_valid_blob_hash
listed-IsFree g s (Memᴰ.head e) read = inl (ap (λ h. has h.hash tape_disk) e)
listed-IsFree g s (Memᴰ.tail (Memᴰ.head e)) read = inl (ap (λ h. has h.hash tape_disk) e)
listed-IsFree g s (Memᴰ.tail (Memᴰ.tail there)) read = elim there [ ]

tape_is_held : stat_blob first_name tape_disk ≡ some tape_meta
unfolding stat_blob get is_valid_blob_hash
tape_is_held = refl

replicated_statements_example :
    All
      (λ f.
        (s : Signed) × IsRead pair_reader name_of small_signer name_of-valid payload_of
          payload_of-types bytes_of f s
        × IsStored pair_reader name_of small_signer name_of-valid payload_of payload_of-types
            bytes_of f s
            (copy_statements
              (uploads pair_reader name_of small_signer name_of-valid payload_of payload_of-types
                bytes_of "automerge:take" "now")
              (fetch_statements bytes_of payload_of (third_name ∷ second_name ∷ []))
              tape_disk))
      listed
replicated_statements_example =
    replicated_statements pair_reader name_of small_signer name_of-valid payload_of payload_of-types
      bytes_of "automerge:take" "now" first_name tape_meta tape_disk (third_name ∷ second_name ∷ [])
      tape_is_held listed-IsReady listed-IsFree

-- The receipt and the claim are both stored as what they are.
both_are_stored :
    let after =
      copy_statements
        (uploads pair_reader name_of small_signer name_of-valid payload_of payload_of-types bytes_of
          "automerge:take" "now")
        (fetch_statements bytes_of payload_of (third_name ∷ second_name ∷ []))
        tape_disk in
    map (λ m. m.0) after.metas ≡ first_name ∷ second_name ∷ third_name ∷ []
unfolding copy_statements fetch_statements has stat_blob get set is_valid_blob_hash
    handle_statement_upload read_refs
both_are_stored = refl
