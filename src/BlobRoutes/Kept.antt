-- ===== src/BlobRoutes/Kept.antt =====
-- blobHttp.ts, claimIngest.ts and the host's own recorder keep the store's statements checked.
use tapes_monorepo.Base.{
  String, Bool, true, ◌&&◌, List, [], ◌∷◌, append-nil, ◌⊎◌, inl, inr, Option, none, some, ◌≡◌, refl,
  sym, subst, arith, text_eq, nat_eq, ◌==◌, Bool-cases, Option-cases, is_some, or_else, All,
}
use tapes_monorepo.Statements.{
  RecordingClaim, HostReceipt, Payload, Signed, DeviceLink, link_device_key, a_receipt,
  a_certificate, a_vouch, misshapen,
}
use tapes_monorepo.BlobStore.{Bytes, Disk, ingest_stream}
use tapes_monorepo.BlobStore.Refinement.{}
use tapes_monorepo.StatementUpload.{UploadProblem, Reader, address_of, check_device_link}
use tapes_monorepo.StatementUpload.Bound.{is_genuine, IsVetted}
use tapes_monorepo.ClaimIngest.{
  statement_options, Signer, store_statement, store_statements, is_own_receipt, read_own_receipt,
  receipt_for, certificate_for,
}
use tapes_monorepo.BlobRoutes.{}
use tapes_monorepo.BlobRoutes.Vetted.{IsVettedStore, ingest_stream-IsVettedStore}

link_cases :
    (c : UploadProblem ⊎ DeviceLink)
    → ((p : UploadProblem) × (c ≡ inl p)) ⊎ ((link : DeviceLink) × (c ≡ inr link))
link_cases (inl p) = inl (p, refl)
link_cases (inr link) = inr (link, refl)

-- Canonical JSON is read back; the host's key verifies the receipts that it signs, and none but those
-- that name it.
module _ (reader : Reader) (sha256 : Bytes → String) (signer : Signer)
    (reads : (s : Signed) (bytes : Bytes)
      → reader.write s ≡ some bytes
      → reader.parse bytes ≡ some s)
    (host_key : Option String)
    (signs : (key claim at : String)
      → host_key ≡ some key
      → let r : HostReceipt = record { claim = claim; received_at = at; host_key = key } in
        reader.verify key (a_receipt r) (signer.sign key (a_receipt r)) ≡ true)
    (own_receipts : (key : String) (r : HostReceipt) (signature : String)
      → host_key ≡ some key
      → reader.verify key (a_receipt r) signature ≡ true
      → r.host_key ≡ key) where
  open reader use {parse, write, verify}

  abbrev pub AreGenuine : List Signed → Type 0
  AreGenuine = All (λ s. is_genuine reader sha256 s ≡ true)

  store_statement-IsVettedStore :
      (s : Signed) (doc_url now : String) (d : Disk)
      → is_genuine reader sha256 s ≡ true
      → IsVettedStore reader sha256 d
      → IsVettedStore reader sha256 (store_statement reader sha256 signer s doc_url now d).0
  unfolding store_statement
  store_statement-IsVettedStore s doc_url now d genuine vetted = elim (Option-cases (write s)) [
    | inl unwritten ↦
        let same : (store_statement reader sha256 signer s doc_url now d).0 ≡ d =
          ground (arith, unwritten) in
        subst (IsVettedStore reader sha256) (sym same) vetted
    | inr (bytes, written) ↦
        let options = statement_options doc_url in
        let same : (store_statement reader sha256 signer s doc_url now d).0
            ≡ (ingest_stream sha256 (bytes ∷ []) options now d).0 =
          ground (arith, written) in
        subst (IsVettedStore reader sha256) (sym same) (
          ingest_stream-IsVettedStore reader sha256 (bytes ∷ []) options now d
            (λ whole read kind.
              let one : bytes ≡ whole = ground (arith, read, append-nil bytes) in
              subst (IsVetted reader sha256) one (s, reads s bytes written, written, genuine))
            vetted)
  ]

  pub store_statements-IsVettedStore :
      (statements : List Signed) (doc_url now : String) (d : Disk)
      → AreGenuine statements
      → IsVettedStore reader sha256 d
      → IsVettedStore reader sha256
          (store_statements reader sha256 signer statements doc_url now d).0
  unfolding store_statements
  store_statements-IsVettedStore [] doc_url now d genuine vetted = vetted
  store_statements-IsVettedStore (s ∷ rest) doc_url now d genuine vetted =
      store_statements-IsVettedStore rest doc_url now
        (store_statement reader sha256 signer s doc_url now d).0 genuine.1
        (store_statement-IsVettedStore s doc_url now d genuine.0 vetted)

  check_device_link-is_genuine :
      (p : Payload) (signature : String) (link : DeviceLink)
      → check_device_link reader sha256 (record { payload = p; signature = signature }) ≡ inr link
      → is_genuine reader sha256 (record { payload = p; signature = signature }) ≡ true
  unfolding check_device_link
  check_device_link-is_genuine (a_certificate c) signature link h = ground (arith, h)
  check_device_link-is_genuine (a_vouch v) signature link h = ground (arith, h)
  check_device_link-is_genuine misshapen signature link h = ground (arith, h)
  check_device_link-is_genuine p signature link h = ground (arith, h)

  certificate_for-cases :
      (c : RecordingClaim) (encoded : Option String)
      → (certificate_for reader sha256 signer c encoded ≡ [])
        ⊎ ((s : Signed) × (link : DeviceLink) × (certificate_for reader sha256 signer c encoded
              ≡ s ∷ [])
            × (check_device_link reader sha256 s ≡ inr link))
  unfolding certificate_for
  certificate_for-cases c none = inl refl
  certificate_for-cases c (some text) =
      elim (Bool-cases (is_some c.device_cert && is_some (signer.decode text))) [
        | inr unnamed ↦ inl (ground (arith, unnamed))
        | inl named ↦ elim (Option-cases (signer.decode text)) [
          | inl unread ↦ inl (ground (arith, named, unread))
          | inr (s, read) ↦ elim (link_cases (check_device_link reader sha256 s)) [
            | inl (p, problem) ↦ inl (ground (arith, named, read, problem))
            | inr (link, passed) ↦ elim (Option-cases (address_of reader sha256 s)) [
              | inl nowhere ↦ inl (ground (arith, named, read, passed, nowhere))
              | inr (address, here) ↦
                  elim (Bool-cases
                    (address == or_else c.device_cert "" && link_device_key link == c.device_key)) [
                      | inl same ↦
                          inr (s, link, ground (arith, named, read, passed, here, same), passed)
                      | inr differs ↦ inl (ground (arith, named, read, passed, here, differs))
                    ]
            ]
          ]
        ]
      ]

  pub certificate_for-AreGenuine :
      (c : RecordingClaim) (encoded : Option String)
      → AreGenuine (certificate_for reader sha256 signer c encoded)
  certificate_for-AreGenuine c encoded = elim (certificate_for-cases c encoded) [
    | inl no_one ↦ subst AreGenuine (sym no_one) tt
    | inr (s, link, only, passed) ↦
        subst AreGenuine (sym only)
          (check_device_link-is_genuine s.payload s.signature link passed, tt)
  ]

  is_own_receipt-is_genuine :
      (key claim_hash : String) (p : Payload) (signature : String)
      → host_key ≡ some key
      → let s : Signed = record { payload = p; signature = signature } in
        is_own_receipt reader sha256 signer key claim_hash s ≡ true
        → is_genuine reader sha256 s ≡ true
  is_own_receipt-is_genuine key claim_hash (a_receipt r) signature has_key h =
      ground (arith, h, own_receipts key r signature has_key)
  is_own_receipt-is_genuine key claim_hash p signature has_key h = absurd (ground (arith, h))

  read_own_receipt-is_own :
      (key claim_hash : String) (d : Disk) (s : Signed)
      → read_own_receipt reader sha256 signer key claim_hash d ≡ some s
      → is_own_receipt reader sha256 signer key claim_hash s ≡ true
  unfolding read_own_receipt
  read_own_receipt-is_own key claim_hash d s h = ground (arith, h)

  pub receipt_for-is_genuine :
      (claim_hash received_at : String) (d : Disk) (s : Signed) (is_new : Bool)
      → receipt_for reader sha256 signer host_key claim_hash received_at d ≡ some (s, is_new)
      → is_genuine reader sha256 s ≡ true
  unfolding receipt_for
  receipt_for-is_genuine claim_hash received_at d s is_new h = elim (Option-cases host_key) [
    | inl keyless ↦ absurd (ground (arith, h, keyless))
    | inr (key, has_key) ↦
        elim (Option-cases (read_own_receipt reader sha256 signer key claim_hash d)) [
          | inl unknown ↦
              ground (arith, h, has_key, unknown, signs key claim_hash received_at has_key)
          | inr (old, found) ↦
              let same : old ≡ s = ground (arith, h, has_key, found) in
              subst (λ x. is_genuine reader sha256 x ≡ true) same
                (is_own_receipt-is_genuine key claim_hash old.payload old.signature has_key
                  (read_own_receipt-is_own key claim_hash d old found))
        ]
  ]
