-- ===== src/BlobClient.antt =====
-- What a device asks of hosts for blobs (packages/core/app/blobClient.ts). What a host answers is given.
pub mod Outcome
pub mod Failures
pub mod Replicate
pub mod Ranked
pub mod Replicated
pub mod Copied
use Prim.Native.Char.{code}
use Prim.Native.String.{[] as nil_text, ◌∷◌ as cons_text, ◌++◌ as ◌<>◌}
use tapes_monorepo.Base.{
  ℕ, String, Bool, true, false, ◌&&◌, ◌||◌, List, [], ◌∷◌, ◌++◌, Option, none, some, if◌then◌else◌,
  text_eq, nat_eq, ◌==◌, list_eq, includes,
}

pub record BlobEndpoint : Type 0 where
  pub base_url : String
  pub token : Option String
  pub is_local : Bool

pub data BlobAttempt : Type 0 where
  status : ℕ → BlobAttempt
  network : BlobAttempt

pub data BlobFailureReason : Type 0 where
  unpaired unauthorized missing unreachable : BlobFailureReason

abbrev pub saw_status : ℕ → List BlobAttempt → Bool
saw_status wanted [] = false
saw_status wanted (status got ∷ attempts) = got == wanted || saw_status wanted attempts
saw_status wanted (network ∷ attempts) = saw_status wanted attempts

abbrev pub saw_network : List BlobAttempt → Bool
saw_network [] = false
saw_network (status got ∷ attempts) = saw_network attempts
saw_network (network ∷ attempts) = true

unfoldable pub classify_blob_failure : List BlobAttempt → BlobFailureReason
classify_blob_failure attempts =
    if saw_status 401 attempts || saw_status 403 attempts
    then unauthorized
    else if saw_network attempts
    then unreachable
    else if saw_status 404 attempts
    then missing
    else unreachable

-- `value.replace(/\/+$/, '')`
abbrev pub trim_slash : String → String
trim_slash nil_text = nil_text
trim_slash (cons_text c s) =
    let rest = trim_slash s in if code c == b'/' && rest == "" then nil_text else cons_text c rest

pub record ResolveBlobEndpointInput : Type 0 where
  -- the embedded host's `blobBaseUrl` and `pairingToken`
  pub blob_base_url : Option String
  pub pairing_token : Option String
  pub origin : Option String
  pub served_by_host : Bool
  pub is_dev : Bool
  pub remote_sync_server_url : Option String
  pub token : Option String

-- a text that is neither absent nor empty
abbrev pub present : Option String → Option String
present none = none
present (some s) = if s == "" then none else some s

-- `endpoints.filter` by `findIndex`: the first of each address
abbrev pub first_of_each : List String → List BlobEndpoint → List BlobEndpoint
first_of_each seen [] = []
first_of_each seen (e ∷ es) =
    let rest = first_of_each (e.base_url ∷ seen) es in
    if includes seen e.base_url then rest else e ∷ rest

-- `parse_url` gives the protocol and the host of what the URL class takes.
module _ (parse_url : String → Option (String × String)) where
  unfoldable pub derive_http_origin : String → Option String
  derive_http_origin sync_url = elim (parse_url sync_url) [
    | none ↦ none
    | some (protocol, host) ↦
        if protocol == "wss:"
        then some ("https://" <> host)
        else if protocol == "ws:"
        then some ("http://" <> host)
        else none
  ]

  abbrev pub embedded_endpoint : ResolveBlobEndpointInput → List BlobEndpoint
  embedded_endpoint input = elim (present input.blob_base_url) [
    | none ↦ []
    | some url ↦
        record { base_url = trim_slash url; token = input.pairing_token; is_local = true } ∷ []
  ]

  abbrev pub page_endpoint : ResolveBlobEndpointInput → List BlobEndpoint
  page_endpoint input = elim (present input.origin) [
    | none ↦ []
    | some url ↦
        if input.served_by_host || input.is_dev
        then record { base_url = trim_slash url; token = input.token; is_local = false } ∷ []
        else []
  ]

  abbrev pub remote_endpoint : ResolveBlobEndpointInput → List BlobEndpoint
  remote_endpoint input = elim (present input.remote_sync_server_url) [
    | none ↦ []
    | some url ↦ elim (present input.token) [
      | none ↦ []
      | some token ↦ elim (derive_http_origin url) [
        | none ↦ []
        | some derived ↦ record { base_url = derived; token = some token; is_local = false } ∷ []
      ]
    ]
  ]

  unfoldable pub resolve_blob_endpoints : ResolveBlobEndpointInput → List BlobEndpoint
  unfolding derive_http_origin
  resolve_blob_endpoints input =
      first_of_each [] (embedded_endpoint input ++ (page_endpoint input ++ remote_endpoint input))

-- `fetchBlob`, and `headBlob` where a blob that is absent is a 404: what comes back, an error with a
-- status (408 where the host did not start to answer in time), no answer, or the caller's abort.
pub data Answer {ℓ} (A : Type ℓ) : Type ℓ where
  served : A → Answer A
  refused : ℕ → Answer A
  no_answer withdrawn : Answer A

-- The endpoint, and those that answered 404 before; or why no one served; or the abort.
pub data BlobOutcome {ℓ} (A : Type ℓ) : Type ℓ where
  found : A → BlobEndpoint → List BlobEndpoint → BlobOutcome A
  blob_failed : BlobFailureReason → List BlobAttempt → BlobOutcome A
  aborted : BlobOutcome A

module _ {ℓ} {A : Type ℓ} (ask : BlobEndpoint → Answer A) where
  unfoldable pub fetch_loop :
      List BlobEndpoint → List BlobEndpoint → List BlobAttempt → BlobOutcome A
  unfolding classify_blob_failure
  fetch_loop [] missing_from attempts = blob_failed (classify_blob_failure attempts) attempts
  fetch_loop (e ∷ es) missing_from attempts = elim (ask e) [
    | served a ↦ found a e missing_from
    | withdrawn ↦ aborted
    | no_answer ↦ fetch_loop es missing_from (attempts ++ network ∷ [])
    | refused code ↦
        let next = if code == 404 then missing_from ++ e ∷ [] else missing_from in
        fetch_loop es next (attempts ++ status code ∷ [])
  ]

  unfoldable pub fetch_blob_from_any : List BlobEndpoint → BlobOutcome A
  unfolding fetch_loop
  fetch_blob_from_any [] = blob_failed unpaired []
  fetch_blob_from_any (e ∷ es) = fetch_loop (e ∷ es) [] []

-- `headBlob` answers with nothing where the blob is absent, and a 404 is no error of it.
module _ {ℓ} {A : Type ℓ} (head : BlobEndpoint → Answer (Option A)) where
  unfoldable pub probe_loop :
      List BlobEndpoint → List BlobEndpoint → List BlobAttempt → BlobOutcome A
  unfolding classify_blob_failure
  probe_loop [] missing_from attempts = blob_failed (classify_blob_failure attempts) attempts
  probe_loop (e ∷ es) missing_from attempts = elim (head e) [
    | served (some a) ↦ found a e missing_from
    | served none ↦ probe_loop es (missing_from ++ e ∷ []) (attempts ++ status 404 ∷ [])
    | withdrawn ↦ aborted
    | no_answer ↦ probe_loop es missing_from (attempts ++ network ∷ [])
    | refused code ↦ probe_loop es missing_from (attempts ++ status code ∷ [])
  ]

  unfoldable pub probe_blob_endpoints : List BlobEndpoint → BlobOutcome A
  unfolding probe_loop
  probe_blob_endpoints [] = blob_failed unpaired []
  probe_blob_endpoints (e ∷ es) = probe_loop (e ∷ es) [] []
