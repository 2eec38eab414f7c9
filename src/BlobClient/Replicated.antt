-- ===== src/BlobClient/Replicated.antt =====
-- blobClient.ts: a statement that is copied, at the host that it is copied to.
use mathlib.Core.List.{Memᴰ}
use tapes_monorepo.Base.{
  ℕ, ◌≤◌, ◌<◌, String, Bool, true, false, List, [], ◌∷◌, ◌⊎◌, inl, inr, Option, some, ◌≡◌, sym, ◌∙◌,
  ap, subst, arith, eq_iff, text_eq, nat_eq, ◌==◌, ==_refl, Bool-cases, list_eq, length,
}
use tapes_monorepo.Statements.{
  RecordingClaim, Signed, DeviceLink, check_recording_claim, a_claim, passes,
}
use tapes_monorepo.BlobStore.{Bytes, BlobMeta, Disk, is_valid_blob_hash, has, stat_blob}
use tapes_monorepo.StatementUpload.{
  max_statement_bytes, StatementType, Reader, type_of, check_device_link, stored_statement,
  check_claim, check_uploaded_statement, accepted, claim_type, certificate_type, vouch_type,
  revocation_type,
}
use tapes_monorepo.ClaimIngest.{Signer}
use tapes_monorepo.BlobRoutes.{handle_statement_upload, upload_reply}
use tapes_monorepo.BlobRoutes.Order.{
  uploaded, stored_statement-uploaded, Follows, Follows-accepted, its_receipt, its_session,
  its_link, its_revocation,
}
use tapes_monorepo.BlobRoutes.Stays.{has-uploaded, stored_statement-stays}
use tapes_monorepo.BlobClient.Replicate.{StatementPayload, FetchedStatement, rank, with_claim}

-- `read_payload` finds the type of a statement that parses.
module _ (reader : Reader) (sha256 : Bytes → String) (signer : Signer)
    (names : (bytes : Bytes) → is_valid_blob_hash (sha256 bytes) ≡ true)
    (read_payload : Bytes → Option StatementPayload)
    (types : (bytes : Bytes) (s : Signed)
      → reader.parse bytes ≡ some s
      → (p : StatementPayload) × (read_payload bytes ≡ some p) × (p.type ≡ type_of reader sha256 s))
    (fetch_one : String → Option Bytes) where
  open reader use {parse, write, verify}

  -- a statement that was fetched, and what it says
  abbrev pub IsRead : FetchedStatement → Signed → Type 0
  IsRead f s =
      (fetch_one f.hash ≡ some f.blob)
      × (f.payload ≡ read_payload f.blob)
      × (sha256 f.blob ≡ f.hash)
      × (length f.blob ≤ max_statement_bytes)
      × (parse f.blob ≡ some s)
      × (write s ≡ some f.blob)

  -- Why a host can take it: it is a claim of audio that the host holds, or what it depends on is
  -- fetched too.
  pub data Backed (fetched : List FetchedStatement) (audio : String) (meta : BlobMeta)
      (f : FetchedStatement) (s : Signed) : Type 0 where
    by_audio :
        (c : RecordingClaim)
        → s.payload ≡ a_claim c
        → c.blob.hash ≡ audio
        → check_recording_claim verify s meta.hash meta.size ≡ passes c
        → Backed fetched audio meta f s
    by_other :
        (g : FetchedStatement) (first : Signed)
        → Memᴰ g fetched
        → IsRead g first
        → Follows reader sha256 signer names g.hash first s (with_claim fetched f).for_claim
        → Backed fetched audio meta f s

  -- the rank of a type
  abbrev rank_of_type : StatementType → ℕ
  rank_of_type t = elim t [
    | claim_type ↦ 0
    | certificate_type ↦ 1
    | vouch_type ↦ 1
    | revocation_type ↦ 3
    | _ ↦ 2
  ]

  rank_of_payload : (p : StatementPayload) → rank (some p) ≡ rank_of_type p.type
  unfolding rank
  rank_of_payload p = ground arith

  rank-IsRead :
      (f : FetchedStatement) (s : Signed)
      → IsRead f s
      → rank f.payload ≡ rank_of_type (type_of reader sha256 s)
  rank-IsRead f s (fetched, payload, hash, short, parsed, written) =
      let (p, read, type) = types f.blob s parsed in
      ap rank (payload ∙ read) ∙ rank_of_payload p ∙ ap rank_of_type type

  rank-link :
      (s : Signed) (link : DeviceLink)
      → check_device_link reader sha256 s ≡ inr link
      → rank_of_type (type_of reader sha256 s) ≡ 1
  unfolding check_device_link
  rank-link s link passed = ground (arith, passed)

  rank-Follows :
      (f g : FetchedStatement) (s first : Signed) (address : String) (for_claim : Option String)
      → IsRead f s
      → IsRead g first
      → Follows reader sha256 signer names address first s for_claim
      → rank g.payload < rank f.payload
  rank-Follows f g s first address for_claim read reads
        (its_receipt r claims kind checked names_it) =
      ground (arith, rank-IsRead f s read, rank-IsRead g first reads, claims, kind)
  rank-Follows f g s first address for_claim read reads (its_session r claims kind checked lists) =
      ground (arith, rank-IsRead f s read, rank-IsRead g first reads, claims, kind)
  rank-Follows f g s first address for_claim read reads (its_link link claims kind checked named) =
      ground
        (arith, rank-IsRead f s read, rank-IsRead g first reads, claims, rank-link s link checked)
  rank-Follows f g s first address for_claim read reads
        (its_revocation link r read_link kind checked withdraws covers) =
      ground (
        arith,
        rank-IsRead f s read,
        rank-IsRead g first reads,
        kind,
        rank-link first link read_link,
      )

  -- a statement that the host has
  abbrev pub IsStored : FetchedStatement → Signed → Disk → Type 0
  IsStored f s d = stored_statement reader sha256 f.hash d ≡ some s

  pub Backed-accepted :
      (fetched : List FetchedStatement) (audio : String) (meta : BlobMeta) (f : FetchedStatement)
      (s : Signed) (d : Disk)
      → stat_blob audio d ≡ some meta
      → IsRead f s
      → Backed fetched audio meta f s
      → ((g : FetchedStatement) (first : Signed)
          → Memᴰ g fetched
          → IsRead g first
          → rank g.payload < rank f.payload
          → IsStored g first d)
      → check_uploaded_statement reader sha256 f.blob d (with_claim fetched f).for_claim ≡ accepted
  unfolding check_uploaded_statement check_claim
  Backed-accepted fetched audio meta f s d held (got, payload, hash, short, parsed, written)
        (by_audio c claims audio_named checked) lower =
      ground (arith, held, parsed, written, ==_refl f.blob, claims, audio_named, checked)
  Backed-accepted fetched audio meta f s d held (got, payload, hash, short, parsed, written)
        (by_other g first among (got_g, payload_g, hash_g, short_g, parsed_g, written_g) follows)
        lower =
      let read : IsRead f s = (got, payload, hash, short, parsed, written) in
      let reads : IsRead g first = (got_g, payload_g, hash_g, short_g, parsed_g, written_g) in
      let claim = (with_claim fetched f).for_claim in
      let there =
        lower g first among reads (rank-Follows f g s first g.hash claim read reads follows) in
      let valid : is_valid_blob_hash g.hash ≡ true = ground (arith, names g.blob, hash_g) in
      ground (
        arith,
        parsed,
        written,
        ==_refl f.blob,
        Follows-accepted reader sha256 signer names g.hash first s claim d there valid follows,
      )

  abbrev pub uploads : String → String → Bytes → String → Option String → Disk → Disk × Bool
  uploads doc_url now bytes mime_type for_claim d =
      let (after, reply) =
        handle_statement_upload reader sha256 signer (bytes ∷ []) doc_url for_claim now d in
      (after, elim reply [ upload_reply code meta result ↦ true | _ ↦ false ])

  -- what the host may hold of a statement beforehand: nothing, or the statement
  abbrev pub IsFree : FetchedStatement → Signed → Disk → Type 0
  IsFree f s d = (has f.hash d ≡ false) ⊎ IsStored f s d

  module _ (doc_url now : String) where
    abbrev pub taken : FetchedStatement → Option String → Disk → Disk
    taken f for_claim d = uploaded reader sha256 signer names f.blob doc_url for_claim now d

    pub IsStored-stays :
        (f g : FetchedStatement) (s : Signed) (for_claim : Option String) (d : Disk)
        → IsStored g s d
        → IsStored g s (taken f for_claim d)
    IsStored-stays f g s for_claim d =
        stored_statement-stays reader sha256 signer names f.blob doc_url now for_claim d g.hash s

    pub IsStored-taken :
        (f : FetchedStatement) (s : Signed) (for_claim : Option String) (d : Disk)
        → IsRead f s
        → IsFree f s d
        → check_uploaded_statement reader sha256 f.blob d for_claim ≡ accepted
        → IsStored f s (taken f for_claim d)
    IsStored-taken f s for_claim d read (inr there) passed = IsStored-stays f f s for_claim d there
    IsStored-taken f s for_claim d (got, payload, hash, short, parsed, written) (inl absent)
          passed =
        let new : has (sha256 f.blob) d ≡ false = ap (λ h. has h d) hash ∙ absent in
        subst (λ h. stored_statement reader sha256 h (taken f for_claim d) ≡ some s) hash
          (stored_statement-uploaded reader sha256 signer names f.blob doc_url now for_claim d s
            short new parsed passed)

    -- one hash has one sequence of bytes, and so one statement
    pub same_statement :
        (f g : FetchedStatement) (s t : Signed) (d : Disk)
        → IsRead f s
        → IsRead g t
        → f.hash ≡ g.hash
        → IsStored f s d
        → IsStored g t d
    same_statement f g s t d (got, payload, hash, short, parsed, written)
          (got_g, payload_g, hash_g, short_g, parsed_g, written_g) same there =
        let bytes : some f.blob ≡ some g.blob = sym got ∙ ap fetch_one same ∙ got_g in
        let blob : f.blob ≡ g.blob = ground (arith, bytes) in
        let signed : some s ≡ some t = sym parsed ∙ ap parse blob ∙ parsed_g in
        ap (λ h. stored_statement reader sha256 h d) (sym same) ∙ there ∙ signed

    pub IsFree-taken :
        (f g : FetchedStatement) (s t : Signed) (for_claim : Option String) (d : Disk)
        → IsRead f s
        → IsRead g t
        → IsStored f s (taken f for_claim d)
        → IsFree g t d
        → IsFree g t (taken f for_claim d)
    IsFree-taken f g s t for_claim d read reads there (inr stored) =
        inr (IsStored-stays f g t for_claim d stored)
    IsFree-taken f g s t for_claim d read reads there (inl absent) =
        elim (Bool-cases (sha256 f.blob == g.hash)) [
          | inr differs ↦ inl (
              has-uploaded reader sha256 signer names f.blob doc_url now for_claim d g.hash absent
                differs)
          | inl same ↦
              let (got, payload, hash, short, parsed, written) = read in
              let equal : f.hash ≡ g.hash =
                sym hash ∙ ground (arith, eq_iff (sha256 f.blob) g.hash, same) in
              inr (same_statement f g s t (taken f for_claim d) read reads equal there)
        ]
