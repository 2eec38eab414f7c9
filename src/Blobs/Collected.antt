-- ===== src/Blobs/Collected.antt =====
-- blobGc.ts: what is never swept.
use tapes_monorepo.Base.{
  ℕ, String, Bool, true, false, ◌||◌, List, [], ◌∷◌, inl, inr, Option, none, some, ◌≡◌, refl, arith,
  eq_iff, text_eq, nat_eq, ◌==◌, Bool-cases, Option-cases, length, includes, add, includes-append,
  includes-add, set,
}
use tapes_monorepo.Blobs.{
  StoredObject, Doc, BlobGcResult, Marked, add_all, mark_root, mark_recording, mark_roots,
  mark_live, sweep_object, sweep_objects, blank, collect_orphaned_blobs,
}

includes-add_all :
    (xs set : List String) (x : String)
    → includes (add_all xs set) x ≡ (includes xs x || includes set x)
unfolding add_all
includes-add_all [] set x = refl
includes-add_all (y ∷ ys) set x =
    ground (arith, includes-add_all ys (add set y) x, includes-add set y x)

-- The recording's document names the hash.
abbrev pub names : Doc → String → Bool
names doc hash =
    elim doc.blob_hash [ none ↦ false | some h ↦ h == hash ] || includes doc.statements hash

includes-mark_recording :
    (doc : Doc) (live : List String) (hash : String)
    → includes (mark_recording doc live) hash ≡ (names doc hash || includes live hash)
unfolding mark_recording
includes-mark_recording doc live hash = elim (Option-cases doc.blob_hash) [
  | inl no_blob ↦ ground (arith, no_blob, includes-add_all doc.statements live hash)
  | inr (h, blob) ↦
      ground
        (arith, blob, includes-add_all doc.statements (add live h) hash, includes-add live h hash)
]

mark_root-keeps :
    (u : String) (d : Doc) (n : Marked) (r : String)
    → includes n.recording_urls r ≡ true
    → includes (mark_root u d n).recording_urls r ≡ true
unfolding mark_root
mark_root-keeps u d n r h = elim (Option-cases d.recordings) [
  | inl none_there ↦ ground (arith, none_there, h)
  | inr (rs, there) ↦ ground (arith, there, h, includes-add_all rs n.recording_urls r)
]

mark_root-names :
    (u : String) (d : Doc) (n : Marked) (r : String) (rs : List String)
    → d.recordings ≡ some rs
    → includes rs r ≡ true
    → includes (mark_root u d n).recording_urls r ≡ true
unfolding mark_root
mark_root-names u d n r rs there h =
    ground (arith, there, h, includes-add_all rs n.recording_urls r)

module _ (find_doc : String → Option Doc) where
  mark_live-keeps :
      (urls live after : List String) (hash : String)
      → mark_live find_doc urls live ≡ some after
      → includes live hash ≡ true
      → includes after hash ≡ true
  unfolding mark_live
  mark_live-keeps [] live after hash done held = ground (arith, done, held)
  mark_live-keeps (url ∷ urls) live after hash done held = elim (Option-cases (find_doc url)) [
    | inl lost ↦ absurd (ground (arith, lost, done))
    | inr (doc, found) ↦
        mark_live-keeps urls (mark_recording doc live) after hash (ground (arith, found, done))
          (ground (arith, held, includes-mark_recording doc live hash))
  ]

  mark_live-names :
      (urls live after : List String) (url hash : String) (doc : Doc)
      → mark_live find_doc urls live ≡ some after
      → includes urls url ≡ true
      → find_doc url ≡ some doc
      → names doc hash ≡ true
      → includes after hash ≡ true
  unfolding mark_live
  mark_live-names [] live after url hash doc done listed found named =
      absurd (ground (arith, listed))
  mark_live-names (u ∷ urls) live after url hash doc done listed found named =
      elim (Option-cases (find_doc u)) [
        | inl lost ↦ absurd (ground (arith, lost, done))
        | inr (d, known) ↦ elim (Bool-cases (u == url)) [
          | inl same ↦
              mark_live-keeps urls (mark_recording d live) after hash (ground (arith, known, done))
                (ground (
                  arith,
                  same,
                  known,
                  found,
                  named,
                  eq_iff u url,
                  includes-mark_recording d live hash,
                ))
          | inr differs ↦
              mark_live-names urls (mark_recording d live) after url hash doc
                (ground (arith, known, done)) (ground (arith, listed, differs)) found named
        ]
      ]

  mark_roots-keeps :
      (seeds urls : List String) (m after : Marked) (recording : String)
      → mark_roots find_doc seeds urls m ≡ some after
      → includes m.recording_urls recording ≡ true
      → includes after.recording_urls recording ≡ true
  unfolding mark_roots
  mark_roots-keeps seeds [] m after recording done held = ground (arith, done, held)
  mark_roots-keeps seeds (url ∷ urls) m after recording done held =
      elim (Option-cases (find_doc url)) [
        | inl lost ↦ mark_roots-keeps seeds urls m after recording (ground (arith, lost, done)) held
        | inr (doc, found) ↦
            mark_roots-keeps seeds urls (mark_root url doc m) after recording
              (ground (arith, found, done)) (mark_root-keeps url doc m recording held)
      ]

  mark_roots-names :
      (seeds urls : List String) (m after : Marked) (root recording : String) (doc : Doc)
      (recordings : List String)
      → mark_roots find_doc seeds urls m ≡ some after
      → includes urls root ≡ true
      → find_doc root ≡ some doc
      → doc.recordings ≡ some recordings
      → includes recordings recording ≡ true
      → includes after.recording_urls recording ≡ true
  unfolding mark_roots
  mark_roots-names seeds [] m after root recording doc recordings done listed found is_root held =
      absurd (ground (arith, listed))
  mark_roots-names seeds (u ∷ urls) m after root recording doc recordings done listed found is_root
        held =
      elim (Option-cases (find_doc u)) [
        | inl lost ↦
            mark_roots-names seeds urls m after root recording doc recordings
              (ground (arith, lost, done)) (ground (arith, lost, found, listed, eq_iff u root))
              found is_root held
        | inr (d, known) ↦ elim (Bool-cases (u == root)) [
          | inl same ↦
              mark_roots-keeps seeds urls (mark_root u d m) after recording
                (ground (arith, known, done))
                (mark_root-names u d m recording recordings
                  (ground (arith, same, known, found, is_root, eq_iff u root)) held)
          | inr differs ↦
              mark_roots-names seeds urls (mark_root u d m) after root recording doc recordings
                (ground (arith, known, done)) (ground (arith, listed, differs)) found is_root held
        ]
      ]

  module _ (is_statement : String → Bool) (refs : String → List String)
      (removes : String → Bool) where
    sweep_object-keeps :
        (live owners : List String) (grace_ms now : ℕ) (o : StoredObject) (r : BlobGcResult)
        (hash : String)
        → includes live hash ≡ true
        → includes r.swept hash ≡ false
        → includes
            (sweep_object find_doc is_statement refs removes live owners grace_ms now o r).swept
            hash
          ≡ false
    unfolding sweep_object
    sweep_object-keeps live owners grace_ms now o r hash held kept =
        ground (arith, held, kept, eq_iff o.hash hash, includes-append r.swept (o.hash ∷ []) hash)

    sweep_objects-keeps :
        (live owners : List String) (grace_ms now : ℕ) (os : List StoredObject) (r : BlobGcResult)
        (hash : String)
        → includes live hash ≡ true
        → includes r.swept hash ≡ false
        → includes
            (sweep_objects find_doc is_statement refs removes live owners grace_ms now os r).swept
            hash
          ≡ false
    unfolding sweep_objects
    sweep_objects-keeps live owners grace_ms now [] r hash held kept = kept
    sweep_objects-keeps live owners grace_ms now (o ∷ os) r hash held kept =
        sweep_objects-keeps live owners grace_ms now os
          (sweep_object find_doc is_statement refs removes live owners grace_ms now o r) hash held
          (sweep_object-keeps live owners grace_ms now o r hash held kept)

    -- A sweep never deletes what a recording names: neither its audio nor a statement that its
    -- document lists, where the recording is in any root document that resolves, announced or found on
    -- the disk. What the store holds, and how old it is, makes no difference.
    pub collect_orphaned_blobs-keeps :
        (objects : List StoredObject) (seeds stored : List String) (grace_ms now : ℕ)
        (root recording hash : String) (root_doc doc : Doc) (recordings : List String)
        → (includes seeds root || includes stored root) ≡ true
        → find_doc root ≡ some root_doc
        → root_doc.recordings ≡ some recordings
        → includes recordings recording ≡ true
        → find_doc recording ≡ some doc
        → names doc hash ≡ true
        → includes
            (collect_orphaned_blobs find_doc is_statement refs removes objects seeds stored grace_ms
              now).swept
            hash
          ≡ false
    unfolding collect_orphaned_blobs
    collect_orphaned_blobs-keeps objects seeds stored grace_ms now root recording hash root_doc doc
          recordings known found is_root held resolved named =
        let candidates = add_all stored (add_all seeds []) in
        let start : Marked = record { roots = []; recording_urls = [] } in
        elim (Option-cases (mark_roots find_doc seeds candidates start)) [
          | inl aborted ↦ ground (arith, aborted)
          | inr (m, marked) ↦ elim (Option-cases (mark_live find_doc m.recording_urls [])) [
            | inl aborted ↦ ground (arith, marked, aborted)
            | inr (live, walked) ↦
                let reached =
                  mark_roots-names seeds candidates start m root recording root_doc recordings
                    marked
                    (ground (
                      arith,
                      known,
                      includes-add_all stored (add_all seeds []) root,
                      includes-add_all seeds [] root,
                    ))
                    found is_root held in
                let is_live =
                  mark_live-names m.recording_urls [] live recording hash doc walked reached
                    resolved named in
                ground (
                  arith,
                  marked,
                  walked,
                  sweep_objects-keeps live (add_all m.roots (add_all m.recording_urls [])) grace_ms
                      now objects
                      (record (blank find_doc is_statement refs removes objects false) {
                        live = length live;
                        roots = m.roots;
                      })
                      hash is_live refl,
                )
          ]
        ]
