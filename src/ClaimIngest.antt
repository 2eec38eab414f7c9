-- ===== src/ClaimIngest.antt =====
-- The check of a claim that comes with an upload, its receipt, and what is stored of both
-- (apps/electron-client/src/claimIngest.ts).
use tapes_monorepo.Base.{
  ℕ, String, Bool, true, false, ◌&&◌, List, [], ◌∷◌, inl, inr, Option, none, some, if◌then◌else◌,
  text_eq, nat_eq, ◌==◌, includes,
}
use tapes_monorepo.Statements.{
  RecordingClaim, Payload, Signed, Problem, link_device_key, check_recording_claim, a_receipt,
  malformed, passes, fails,
}
use tapes_monorepo.BlobStore.{
  Bytes, Disk, find_receipt, record_receipt, IngestOptions, ingest_stream,
}
use tapes_monorepo.StatementUpload.{
  statement_mime_type, Reader, address_of, check_device_link, read_stored_statement,
}

pub data ClaimVerification : Type 0 where
  unsigned : ClaimVerification
  unverified : Problem → ClaimVerification
  -- with the receipt, encoded
  verified : Option String → ClaimVerification

pub record ClaimIngestResult : Type 0 where
  pub claim : ClaimVerification
  pub statements : List String
  -- the claim that `onVerifiedClaim` is told of, with its address
  pub told : Option (RecordingClaim × String)

abbrev pub statement_options : String → IngestOptions
statement_options doc_url = record {
  mime_type = statement_mime_type;
  ext = some ".json";
  doc_url = doc_url;
  max_bytes = none;
}

-- `sign key payload` is the signature of a host's key, by its public name. `decode` and `encode` are
-- the text forms of a statement.
pub record Signer : Type 0 where
  pub sign : String → Payload → String
  pub decode : String → Option Signed
  pub encode : Signed → String

module _ (reader : Reader) (sha256 : Bytes → String) (signer : Signer) where
  open reader use {write, verify}
  open signer use {sign, decode, encode}

  -- a round of `storeStatements`
  unfoldable pub store_statement : Signed → String → String → Disk → Disk × Option String
  unfolding ingest_stream
  store_statement s doc_url now d = elim (write s) [
    | none ↦ (d, none)
    | some bytes ↦
        let (after, result) = ingest_stream sha256 (bytes ∷ []) (statement_options doc_url) now d in
        (after, elim result [ none ↦ none | some (meta, deduped) ↦ some meta.hash ])
  ]

  unfoldable pub store_statements : List Signed → String → String → Disk → Disk × List String
  unfolding store_statement
  store_statements [] doc_url now d = (d, [])
  store_statements (s ∷ rest) doc_url now d =
      let (next, stored) = store_statement s doc_url now d in
      let (after, hashes) = store_statements rest doc_url now next in
      (after, elim stored [ none ↦ hashes | some hash ↦ hash ∷ hashes ])

  abbrev pub is_own_receipt : String → String → Signed → Bool
  is_own_receipt key claim_hash s = elim s.payload [
    | a_receipt r ↦ r.claim == claim_hash && verify key s.payload s.signature
    | _ ↦ false
  ]

  unfoldable pub read_own_receipt : String → String → Disk → Option Signed
  unfolding find_receipt read_stored_statement
  read_own_receipt key claim_hash d = elim (find_receipt claim_hash d) [
    | none ↦ none
    | some hash ↦ elim (read_stored_statement reader sha256 hash d) [
      | none ↦ none
      | some s ↦ if is_own_receipt key claim_hash s then some s else none
    ]
  ]

  -- `createHostReceipt`, for the claim's address
  abbrev pub create_host_receipt : String → String → String → Signed
  create_host_receipt key claim_hash received_at =
      let payload : Payload =
        a_receipt (record { claim = claim_hash; received_at = received_at; host_key = key }) in
      record { payload = payload; signature = sign key payload }

  -- `host_key` is the key that is loaded, if one can be. The result is new or not.
  unfoldable pub receipt_for : Option String → String → String → Disk → Option (Signed × Bool)
  unfolding read_own_receipt
  receipt_for host_key claim_hash received_at d = elim host_key [
    | none ↦ none
    | some key ↦ elim (read_own_receipt key claim_hash d) [
      | some s ↦ some (s, false)
      | none ↦ some (create_host_receipt key claim_hash received_at, true)
    ]
  ]

  -- none or one
  unfoldable pub certificate_for : RecordingClaim → Option String → List Signed
  unfolding check_device_link
  certificate_for c encoded = elim encoded [
    | none ↦ []
    | some text ↦ elim c.device_cert [
      | none ↦ []
      | some cert ↦ elim (decode text) [
        | none ↦ []
        | some s ↦ elim (check_device_link reader sha256 s) [
          | inl p ↦ []
          | inr link ↦ elim (address_of reader sha256 s) [
            | none ↦ []
            | some address ↦
                if address == cert && link_device_key link == c.device_key then s ∷ [] else []
          ]
        ]
      ]
    ]
  ]

  unfoldable pub index_receipt : String → Signed → List String → Disk → Disk
  unfolding record_receipt
  index_receipt claim_hash receipt stored d = elim (address_of reader sha256 receipt) [
    | none ↦ d
    | some hash ↦ if includes stored hash then record_receipt claim_hash hash d else d
  ]

  -- `now` is the time of the writes, as a text.
  unfoldable pub receipt_and_store :
      Signed
      → RecordingClaim
      → String
      → Option String
      → Option String
      → String
      → String
      → String
      → Disk
      → Disk × (ClaimVerification × List String)
  unfolding receipt_for certificate_for store_statements index_receipt
  receipt_and_store claim c claim_hash host_key certificate received_at doc_url now d =
      let extra = certificate_for c certificate in
      elim (receipt_for host_key claim_hash received_at d) [
        | none ↦
            let (after, stored) = store_statements (claim ∷ extra) doc_url now d in
            (after, (verified none, stored))
        | some (receipt, is_new) ↦
            let (after, stored) = store_statements (claim ∷ receipt ∷ extra) doc_url now d in
            (
              if is_new then index_receipt claim_hash receipt stored after else after,
              (verified (some (encode receipt)), stored),
            )
      ]

  -- No result where the address of a claim cannot be computed, which throws.
  unfoldable pub verify_claim_on_ingest :
      Option String
      → String × ℕ
      → Option String
      → Option String
      → String
      → String
      → String
      → Disk
      → Disk × Option ClaimIngestResult
  unfolding receipt_and_store check_recording_claim
  verify_claim_on_ingest encoded (hash, size) host_key certificate received_at doc_url now d =
      let without : ClaimVerification → Disk × Option ClaimIngestResult =
        λ v. (d, some (record { claim = v; statements = []; told = none })) in
      elim encoded [
        | none ↦ without unsigned
        | some text ↦ elim (decode text) [
          | none ↦ without (unverified malformed)
          | some s ↦ elim (check_recording_claim verify s hash size) [
            | fails p ↦ without (unverified p)
            | passes c ↦ elim (address_of reader sha256 s) [
              | none ↦ (d, none)
              | some claim_hash ↦
                  let (after, (v, stored)) =
                    receipt_and_store s c claim_hash host_key certificate received_at doc_url now
                      d in
                  (
                    after,
                    some (record {
                      claim = v;
                      statements = stored;
                      told = if includes stored claim_hash then some (c, claim_hash) else none;
                    }),
                  )
            ]
          ]
        ]
      ]
