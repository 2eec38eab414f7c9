-- ===== src/BlobClient/Copied.antt =====
-- blobClient.ts: the statements of a recording, copied one after the other to a host.
use mathlib.Core.List.{Memᴰ}
use tapes_monorepo.Base.{
  ◌≤◌, ◌<◌, String, true, List, [], ◌∷◌, map, ◌⊎◌, inl, inr, Option, some, ◌≡◌, refl, sym, ap,
  subst, arith, text_eq, nat_eq, list_eq, All,
}
use tapes_monorepo.Statements.{Signed}
use tapes_monorepo.BlobStore.{Bytes, BlobMeta, Disk, is_valid_blob_hash, stat_blob}
use tapes_monorepo.StatementUpload.{Reader, type_of}
use tapes_monorepo.ClaimIngest.{Signer}
use tapes_monorepo.BlobRoutes.Stays.{stat_blob-uploaded}
use tapes_monorepo.BlobClient.Replicate.{
  StatementPayload, FetchedStatement, rank, sort_by_rank, with_claim, fetched_of, fetch_statements,
  copy_statements,
}
use tapes_monorepo.BlobClient.Ranked.{Ranked, All-sort, sort-Ranked, sort-keeps}
use tapes_monorepo.BlobClient.Replicated.{
  IsRead, Backed, IsStored, Backed-accepted, uploads, IsFree, taken, IsStored-stays, IsStored-taken,
  same_statement, IsFree-taken,
}

All-Mem :
    (P : FetchedStatement → Type 0) (g : FetchedStatement) (fs : List FetchedStatement)
    → All P fs
    → Memᴰ g fs
    → P g
All-Mem P g [] h there = elim there [ ]
All-Mem P g (f ∷ fs) h (Memᴰ.head e) = subst P (sym e) h.0
All-Mem P g (f ∷ fs) h (Memᴰ.tail m) = All-Mem P g fs h.1 m

All-of :
    (P : FetchedStatement → Type 0) (fs : List FetchedStatement)
    → ((g : FetchedStatement) → Memᴰ g fs → P g)
    → All P fs
All-of P [] h = tt
All-of P (f ∷ fs) h = (h f (Memᴰ.head refl), All-of P fs (λ g there. h g (Memᴰ.tail there)))

Ranked-least :
    (g f : FetchedStatement) (fs : List FetchedStatement)
    → Ranked (f ∷ fs)
    → Memᴰ g (f ∷ fs)
    → rank f.payload ≤ rank g.payload
Ranked-least g f fs ranked (Memᴰ.head e) = ground (arith, ap (λ h. rank h.payload) e)
Ranked-least g f fs ranked (Memᴰ.tail m) =
    All-Mem (λ h. rank f.payload ≤ rank h.payload) g fs ranked.0 m

module _ (reader : Reader) (sha256 : Bytes → String) (signer : Signer)
    (names : (bytes : Bytes) → is_valid_blob_hash (sha256 bytes) ≡ true)
    (read_payload : Bytes → Option StatementPayload)
    (types : (bytes : Bytes) (s : Signed)
      → reader.parse bytes ≡ some s
      → (p : StatementPayload) × (read_payload bytes ≡ some p) × (p.type ≡ type_of reader sha256 s))
    (fetch_one : String → Option Bytes) where
  open reader use {parse, write, verify}

  abbrev IsReadOne : FetchedStatement → Signed → Type 0
  IsReadOne = IsRead reader sha256 signer names read_payload types fetch_one

  abbrev IsStoredOne : FetchedStatement → Signed → Disk → Type 0
  IsStoredOne = IsStored reader sha256 signer names read_payload types fetch_one

  abbrev IsFreeOne : FetchedStatement → Signed → Disk → Type 0
  IsFreeOne = IsFree reader sha256 signer names read_payload types fetch_one

  -- A statement that was fetched with what it depends on.
  abbrev pub IsReady : List FetchedStatement → String → BlobMeta → FetchedStatement → Type 0
  IsReady fetched audio meta f =
      (s : Signed) × IsReadOne f s
      × Backed reader sha256 signer names read_payload types fetch_one fetched audio meta f s

  -- Every statement that was fetched has been copied or is still to be.
  abbrev IsAccounted : List FetchedStatement → List FetchedStatement → Disk → Type 0
  IsAccounted fetched rest d =
      (g : FetchedStatement) (s : Signed)
      → Memᴰ g fetched
      → IsReadOne g s
      → Memᴰ g rest ⊎ IsStoredOne g s d

  abbrev AreFree : List FetchedStatement → Disk → Type 0
  AreFree fetched d =
      (g : FetchedStatement) (s : Signed) → Memᴰ g fetched → IsReadOne g s → IsFreeOne g s d

  module _ (doc_url now : String) (fetched : List FetchedStatement) (audio : String)
      (meta : BlobMeta) where
    abbrev copied : List FetchedStatement → Disk → Disk
    copied rest =
        copy_statements
          (uploads reader sha256 signer names read_payload types fetch_one doc_url now)
          (map (with_claim fetched) rest)

    copied_lem :
        (rest : List FetchedStatement) (d : Disk)
        → stat_blob audio d ≡ some meta
        → Ranked rest
        → All (λ f. Memᴰ f fetched × IsReady fetched audio meta f) rest
        → AreFree fetched d
        → IsAccounted fetched rest d
        → IsAccounted fetched [] (copied rest d)
    unfolding copy_statements
    copied_lem [] d held ranked ready free accounted = accounted
    copied_lem (f ∷ rest) d held ranked ((among, (s, read, backed)), ready) free accounted =
        let claim = (with_claim fetched f).for_claim in
        let after =
          taken reader sha256 signer names read_payload types fetch_one doc_url now f claim d in
        let lower : (g : FetchedStatement) (first : Signed)
            → Memᴰ g fetched
            → IsReadOne g first
            → rank g.payload < rank f.payload
            → IsStoredOne g first d =
          λ g first there reads less. elim (accounted g first there reads) [
            | inr stored ↦ stored
            | inl waits ↦ absurd (ground (arith, less, Ranked-least g f rest ranked waits))
          ] in
        let passed =
          Backed-accepted reader sha256 signer names read_payload types fetch_one fetched audio meta
            f s d held read backed lower in
        let stored : IsStoredOne f s after =
          IsStored-taken reader sha256 signer names read_payload types fetch_one doc_url now f s
            claim d read (free f s among read) passed in
        copied_lem rest after
          (stat_blob-uploaded reader sha256 signer names f.blob doc_url now claim d audio meta held)
          ranked.1 ready
          (λ g t there reads.
            IsFree-taken reader sha256 signer names read_payload types fetch_one doc_url now f g s t
              claim d read reads stored (free g t there reads))
          (λ g t there reads. elim (accounted g t there reads) [
            | inr there ↦ inr (
                IsStored-stays reader sha256 signer names read_payload types fetch_one doc_url now f
                  g t claim d there)
            | inl (Memᴰ.tail waits) ↦ inl waits
            | inl (Memᴰ.head e) ↦ inr (
                same_statement reader sha256 signer names read_payload types fetch_one doc_url now f
                  g s t after read reads (ap (λ h. h.hash) (sym e)) stored)
          ])

  -- Where a host holds the audio, and of each statement that was fetched nothing or the statement, it
  -- stores all that were fetched once they are copied in the order of their ranks, if each can be
  -- taken: a genuine claim of that audio, or a genuine statement of which what it depends on is
  -- fetched too, wherever in the list. They are to be canonical, of at most the size for statements,
  -- and under the hashes of their bytes; hashes have the form of one, and the copier reads the type of
  -- a statement as the host does. The host is not full.
  pub replicated_statements :
      (doc_url now audio : String) (meta : BlobMeta) (d : Disk) (hashes : List String)
      → stat_blob audio d ≡ some meta
      → All
          (IsReady (fetched_of fetch_one read_payload hashes) audio meta)
          (fetched_of fetch_one read_payload hashes)
      → ((g : FetchedStatement) (s : Signed)
          → Memᴰ g (fetched_of fetch_one read_payload hashes)
          → IsReadOne g s
          → IsFreeOne g s d)
      → All
          (λ f.
            (s : Signed) × IsReadOne f s
            × IsStoredOne f s (
                copy_statements
                  (uploads reader sha256 signer names read_payload types fetch_one doc_url now)
                  (fetch_statements fetch_one read_payload hashes)
                  d))
          (fetched_of fetch_one read_payload hashes)
  unfolding fetch_statements
  replicated_statements doc_url now audio meta d hashes held ready free =
      let fetched = fetched_of fetch_one read_payload hashes in
      let both =
        All-of (λ f. Memᴰ f fetched × IsReady fetched audio meta f) fetched
          (λ g there. (there, All-Mem (IsReady fetched audio meta) g fetched ready there)) in
      let done =
        copied_lem doc_url now fetched audio meta (sort_by_rank fetched) d held
          (sort-Ranked fetched)
          (All-sort (λ f. Memᴰ f fetched × IsReady fetched audio meta f) fetched both) free
          (λ g s there read. inl (sort-keeps g fetched there)) in
      All-of _ fetched (λ g there.
        let (s, read, backed) = All-Mem (IsReady fetched audio meta) g fetched ready there in
        (
          s,
          read,
          elim (done g s there read) [ inl none_left ↦ elim none_left [ ] | inr stored ↦ stored ],
        ))
