-- ===== src/StatementUpload/Bound.antt =====
-- statementUpload.ts: what an accepted statement is backed by.
use tapes_monorepo.Base.{
  list_eq, String, Bool, true, false, inl, inr, Option, some, ◌≡◌, arith, text_eq, nat_eq, ◌==◌,
  Bool-cases, Option-cases, same_list_iff,
}
use tapes_monorepo.Statements.{
  Payload, Signed, a_claim, a_receipt, a_session, a_certificate, a_vouch, a_revocation, a_join,
  a_vouch_request, misshapen, other,
}
use tapes_monorepo.BlobStore.{Bytes, Disk}
use tapes_monorepo.StatementUpload.{
  Reader, check_claim, check_receipt, check_session, check_device_link_upload,
  check_revocation_upload, check_by_type, check_uploaded_statement, accepted,
}

module _ (reader : Reader) (sha256 : Bytes → String) where
  open reader use {parse, write, verify}

  -- Whether the key that a statement names has signed it.
  abbrev pub is_genuine : Signed → Bool
  is_genuine s = elim s.payload [
    | a_claim c ↦ verify c.device_key s.payload s.signature
    | a_receipt r ↦ verify r.host_key s.payload s.signature
    | a_session r ↦ verify r.host_key s.payload s.signature
    | a_certificate c ↦ verify c.person_key s.payload s.signature
    | a_vouch v ↦ verify v.host_key s.payload s.signature
    | a_revocation r ↦ verify r.signer_key s.payload s.signature
    | _ ↦ false
  ]

  -- The canonical form of a statement that the key in it signed.
  abbrev pub IsVetted : Bytes → Type 0
  IsVetted bytes =
      (s : Signed) × (parse bytes ≡ some s) × (write s ≡ some bytes) × (is_genuine s ≡ true)

  check_by_type-is_genuine :
      (p : Payload) (signature : String) (d : Disk) (for_claim : Option String)
      → let s : Signed = record { payload = p; signature = signature } in
        check_by_type reader sha256 s d for_claim ≡ accepted → is_genuine s ≡ true
  unfolding check_claim check_receipt check_session check_device_link_upload check_revocation_upload
  check_by_type-is_genuine (a_claim c) signature d for_claim h = ground (arith, h)
  check_by_type-is_genuine (a_receipt r) signature d for_claim h = ground (arith, h)
  check_by_type-is_genuine (a_session r) signature d for_claim h = ground (arith, h)
  check_by_type-is_genuine (a_certificate c) signature d for_claim h = ground (arith, h)
  check_by_type-is_genuine (a_vouch v) signature d for_claim h = ground (arith, h)
  check_by_type-is_genuine (a_revocation r) signature d for_claim h = ground (arith, h)
  check_by_type-is_genuine (a_join j) signature d for_claim h = ground (arith, h)
  check_by_type-is_genuine (a_vouch_request v) signature d for_claim h = ground (arith, h)
  check_by_type-is_genuine misshapen signature d for_claim h = ground (arith, h)
  check_by_type-is_genuine other signature d for_claim h = ground (arith, h)

  pub check_uploaded_statement-IsVetted :
      (bytes : Bytes) (d : Disk) (for_claim : Option String)
      → check_uploaded_statement reader sha256 bytes d for_claim ≡ accepted
      → IsVetted bytes
  unfolding check_uploaded_statement
  check_uploaded_statement-IsVetted bytes d for_claim h = elim (Option-cases (parse bytes)) [
    | inl unread ↦ absurd (ground (arith, unread, h))
    | inr (s, read) ↦ elim (Option-cases (write s)) [
      | inl unwritten ↦ absurd (ground (arith, read, unwritten, h))
      | inr (canonical, written) ↦ elim (Bool-cases (canonical == bytes)) [
        | inr differs ↦ absurd (ground (arith, read, written, differs, h))
        | inl same ↦ (
          s,
          read,
          ground (arith, written, same_list_iff canonical bytes, same),
          check_by_type-is_genuine s.payload s.signature d for_claim
              (ground (arith, read, written, same, h)),
        )
      ]
    ]
  ]
