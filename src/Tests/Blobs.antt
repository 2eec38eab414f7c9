-- ===== src/Tests/Blobs.antt =====
-- blobStore.ts, blobHttp.ts and claimIngest.ts on two sequences of bytes.
use tapes_monorepo.Base.{
  String, Bool, true, false, not, ◌&&◌, List, [], ◌∷◌, inl, inr, Option, none, some, ◌≡◌, refl,
  arith, eq_iff, if◌then◌else◌, text_eq, nat_eq, ◌==◌, ==_refl, Bool-cases, is_some, list_eq,
  includes, get, set, delete,
}
use tapes_monorepo.Statements.{RecordingClaim, HostReceipt, Payload, Signed, a_claim, a_receipt}
use tapes_monorepo.BlobStore.{
  Bytes, BlobMeta, Disk, empty_disk, is_valid_blob_hash, has, read_refs, stat_blob, unlink_all,
  release_ref, IngestOptions, finish_ingest, ingest_stream,
}
use tapes_monorepo.BlobStore.Refinement.{
  StoreCall, Represents, store_calls, library_calls, store_calls_refine, upload, give_up, stored,
  unknown_blob, given_up,
}
use tapes_monorepo.BlobStore.Ingested.{ingest_stream_lem}
use tapes_monorepo.BlobStore.Race.{upload_during_release}
use tapes_monorepo.StatementUpload.{
  statement_mime_type, Reader, holds_claim, check_uploaded_statement, other_type,
}
use tapes_monorepo.ClaimIngest.{Signer}
use tapes_monorepo.BlobRoutes.{
  BlobRequest, handle_statement_upload, HostStep, host_steps, all_blobs, post_blob, upload_reply,
  asked, collected,
}
use tapes_monorepo.BlobRoutes.Vetted.{IsVettedStore}
use tapes_monorepo.BlobRoutes.AudioFirst.{statement_after_audio}
use tapes_monorepo.BlobRoutes.Steps.{host_steps-Vetted}

abbrev pub first_name : String
first_name = "aaaaaaaaaaaaaaaaaaaaaaaaaaaaaaaaaaaaaaaaaaaaaaaaaaaaaaaaaaaaaaaa"

abbrev pub second_name : String
second_name = "0123456789abcdef0123456789abcdef0123456789abcdef0123456789abcdef"

abbrev pub hash_of : Bytes → String
hash_of [] = first_name
hash_of (b ∷ bs) = if b == 7 then second_name else first_name

pub names_are_valid : (bytes : Bytes) → is_valid_blob_hash (hash_of bytes) ≡ true
unfolding is_valid_blob_hash
names_are_valid [] = refl
names_are_valid (b ∷ bs) = elim (Bool-cases (b == 7)) [
  | inl seven ↦ rw seven
  | inr differs ↦ rw differs
]

abbrev take_options : IngestOptions
take_options = record {
  mime_type = "audio/wav";
  ext = none;
  doc_url = "automerge:take";
  max_bytes = some 100;
}

empty_disk-Represents : Represents empty_disk []
unfolding read_refs has get
empty_disk-Represents hash = (refl, refl, ground arith)

abbrev some_calls : List StoreCall
some_calls =
    upload take_options ((1 ∷ 2 ∷ []) ∷ (3 ∷ []) ∷ []) "now"
    ∷ upload (record take_options { doc_url = "automerge:copy" }) ((1 ∷ []) ∷ []) "later"
    ∷ give_up first_name "automerge:take"
    ∷ give_up first_name "automerge:copy"
    ∷ give_up first_name "automerge:copy"
    ∷ []

store_calls_refine_example :
    store_calls hash_of names_are_valid some_calls empty_disk
    ≡ library_calls hash_of names_are_valid some_calls []
store_calls_refine_example =
    store_calls_refine hash_of names_are_valid some_calls empty_disk [] empty_disk-Represents

some_answers :
    library_calls hash_of names_are_valid some_calls []
    ≡ stored false ∷ stored true ∷ given_up ∷ given_up ∷ unknown_blob ∷ []
unfolding library_calls
some_answers = refl

abbrev held_disk : Disk
held_disk = record empty_disk {
  objects = (first_name, 1 ∷ []) ∷ [];
  refs = (first_name, "automerge:take" ∷ []) ∷ [];
}

-- a store that a crash left without the meta
ingest_stream_example :
    let after = (ingest_stream hash_of ((1 ∷ []) ∷ []) take_options "now" held_disk).0 in
    (is_some (stat_blob first_name after) ≡ true)
    × (has first_name after ≡ true)
    × (includes (read_refs first_name after) take_options.doc_url ≡ true)
ingest_stream_example =
    ingest_stream_lem hash_of names_are_valid ((1 ∷ []) ∷ []) take_options "now" held_disk (1 ∷ [])
      refl

upload_during_release_example :
    let released = (release_ref first_name "automerge:take" held_disk).0 in
    let upload =
      finish_ingest hash_of (has first_name held_disk) (1 ∷ []) take_options "now" released in
    (upload.1.1 ≡ true)
    × (has first_name upload.0 ≡ false)
    × (read_refs first_name upload.0 ≡ take_options.doc_url ∷ [])
unfolding has is_valid_blob_hash get read_refs
upload_during_release_example =
    upload_during_release hash_of (1 ∷ []) take_options "now" "automerge:take" held_disk refl refl

abbrev pub small_claim : RecordingClaim
small_claim = record {
  blob = record { hash = first_name; size = 1; mime_type = "audio/wav" };
  started_at = "1";
  ended_at = "2";
  session_id = "unsessioned";
  device_key = "phone";
  device_cert = none;
}

abbrev is_small_claim : RecordingClaim → Bool
is_small_claim c =
    c.blob.hash == first_name
    && c.blob.size == 1
    && c.blob.mime_type == "audio/wav"
    && c.started_at == "1"
    && c.ended_at == "2"
    && c.session_id == "unsessioned"
    && c.device_key == "phone"
    && not (is_some c.device_cert)

abbrev pub signed_claim : Signed
signed_claim = record { payload = a_claim small_claim; signature = "s" }

abbrev write_claim : Signed → Option Bytes
write_claim s = elim s.payload [
  | a_claim c ↦ if is_small_claim c && s.signature == "s" then some (7 ∷ []) else none
  | _ ↦ none
]

-- A receipt is signed by the host that it names, and anything else by anyone.
abbrev names_key : String → Payload → String → Bool
names_key key (a_receipt r) signature = r.host_key == key
names_key key p signature = true

abbrev small_reader : Reader
small_reader = record {
  parse = λ bytes. if bytes == 7 ∷ [] then some signed_claim else none;
  write = write_claim;
  verify = names_key;
  loose_type = λ s. other_type;
  loose_hash = λ s. none;
}

abbrev pub small_signer : Signer
small_signer = record {
  sign = λ key payload. "signature";
  decode = λ text. if text == "claim" then some signed_claim else none;
  encode = λ s. "receipt";
}

small_claim_lem : (c : RecordingClaim) → is_small_claim c ≡ true → c ≡ small_claim
small_claim_lem c h = ground (
  arith,
  h,
  eq_iff c.blob.hash first_name,
  eq_iff c.blob.mime_type "audio/wav",
  eq_iff c.started_at "1",
  eq_iff c.ended_at "2",
  eq_iff c.session_id "unsessioned",
  eq_iff c.device_key "phone",
)

small_reads_payload :
    (p : Payload) (signature : String) (bytes : Bytes)
    → let s : Signed = record { payload = p; signature = signature } in
      write_claim s ≡ some bytes → small_reader.parse bytes ≡ some s
small_reads_payload (a_claim c) signature bytes h =
    elim (Bool-cases (is_small_claim c && signature == "s")) [
      | inr differs ↦ absurd (ground (arith, h, differs))
      | inl same ↦
          let claim = small_claim_lem c (ground (arith, same)) in
          let written : bytes ≡ 7 ∷ [] = ground (arith, h, same) in
          rw written (ground (arith, claim, same, eq_iff signature "s"))
    ]
small_reads_payload p signature bytes h = absurd (ground (arith, h))

small_reads :
    (s : Signed) (bytes : Bytes)
    → small_reader.write s ≡ some bytes
    → small_reader.parse bytes ≡ some s
small_reads s = small_reads_payload s.payload s.signature

small_signs :
    (key claim at : String)
    → some "host" ≡ some key
    → let r : HostReceipt = record { claim = claim; received_at = at; host_key = key } in
      small_reader.verify key (a_receipt r) (small_signer.sign key (a_receipt r)) ≡ true
small_signs key claim at is_host = ==_refl key

small_own_receipts :
    (key : String) (r : HostReceipt) (signature : String)
    → some "host" ≡ some key
    → small_reader.verify key (a_receipt r) signature ≡ true
    → r.host_key ≡ key
small_own_receipts key r signature is_host h = ground (arith, h, eq_iff r.host_key key)

empty_disk-IsVettedStore : IsVettedStore small_reader hash_of empty_disk
unfolding get
empty_disk-IsVettedStore hash bytes there = absurd (ground (arith, there))

abbrev upload_request : BlobRequest
upload_request = record {
  path = all_blobs;
  method = post_blob;
  authorized = true;
  content_type = "audio/wav";
  doc_param = some "automerge:take";
  doc_header = none;
  for_claim = none;
  claim = some "claim";
  certificate = none;
  range = none;
  body = (1 ∷ []) ∷ [];
}

abbrev some_steps : List HostStep
some_steps = asked upload_request "then" "now" ∷ collected first_name ∷ []

-- The claim of the upload is stored as a statement.
claim_is_stored :
    get second_name
      (host_steps small_reader hash_of small_signer 100 1000
        (some "host")
        some_steps
        empty_disk).objects
    ≡ some (7 ∷ [])
unfolding host_steps get set delete is_valid_blob_hash unlink_all read_refs
claim_is_stored = refl

host_steps_example :
    IsVettedStore small_reader hash_of
      (host_steps small_reader hash_of small_signer 100 1000 (some "host") some_steps empty_disk)
host_steps_example =
    host_steps-Vetted small_reader hash_of small_signer small_reads (some "host") small_signs
      small_own_receipts 100 1000 some_steps empty_disk empty_disk-IsVettedStore

abbrev audio_meta : String → BlobMeta
audio_meta hash = record {
  hash = hash;
  size = 1;
  mime_type = "audio/x-tape";
  ext = ".bin";
  created_at = "then";
}

-- the audio of the claim, and the claim's bytes as audio
abbrev audio_disk : Disk
audio_disk = record empty_disk {
  objects = (first_name, 1 ∷ []) ∷ (second_name, 7 ∷ []) ∷ [];
  metas = (first_name, audio_meta first_name) ∷ (second_name, audio_meta second_name) ∷ [];
}

statement_after_audio_example :
    let (after, reply) =
      handle_statement_upload small_reader hash_of small_signer
        ((7 ∷ []) ∷ [])
        "automerge:take"
        none
        "now"
        audio_disk in
    (reply ≡ upload_reply 200 (audio_meta second_name) none)
    × (holds_claim small_reader hash_of second_name after ≡ false)
unfolding stat_blob get is_valid_blob_hash check_uploaded_statement
statement_after_audio_example =
    statement_after_audio small_reader hash_of small_signer (7 ∷ []) "automerge:take" "now" none
      audio_disk (audio_meta second_name) refl
      (λ e. ground (arith, eq_iff "audio/x-tape" statement_mime_type, e)) (omega arith) refl
