-- ===== src/Hub/Ingest/Refusal.antt =====
-- What a refusal of `send_logs` leaves as it was.
use sentinalysis.Base.{
  Bool, Text, ap, false, if◌then◌else◌, is_nil, length, refl, sym, true, ℕ, ◌∙◌, ◌≡◌,
}
use sentinalysis.Base.Results.{Result, err, ok}
use sentinalysis.Hub.Auth.Permission.{Principal}
use sentinalysis.Hub.Ingest.Wire.{LogsRequest}
use sentinalysis.Hub.Ingest.Handlers.{
  Call, Deps, IngestService, Status, ack, authorize, internal, of_storage,
}
use sentinalysis.Hub.Ingest.Logs.{
  Batch, accept_logs, batch_stored, ingested, logs_from, send_logs, store_batch, store_logs, to_u32,
}
use sentinalysis.Hub.Ingest.Trust.{authorize-repo}

module _ {R L : Type 0} (deps : Deps R L) (call : Call LogsRequest) where
  -- A refusal that is not a failure of the batch's write.
  abbrev pub is_storage_failure : Status → Bool
  is_storage_failure (internal (of_storage e)) = true
  is_storage_failure _ = false

  batch_stored-fails :
      (n : ℕ) (answer : R × Result Text (Unit {0})) (status : Status)
      → (batch_stored n answer).1 ≡ err status
      → is_storage_failure status ≡ true
  batch_stored-fails n (r, ok tt) status h = absurd (cc)
  batch_stored-fails n (r, err e) status h =
      let same : internal (of_storage e) ≡ status = cc in ap is_storage_failure (sym same)

  stored_if-fails :
      (b : Batch R) (none_left : Bool) (status : Status)
      → (if none_left
          then (b.repo, ok (ack (to_u32 0)))
          else batch_stored (length b.entries) (deps.repos.insert_batch b.repo b.entries)).1
        ≡ err status
      → is_storage_failure status ≡ true
  stored_if-fails b true status h = absurd (cc)
  stored_if-fails b false status h =
      batch_stored-fails (length b.entries) (deps.repos.insert_batch b.repo b.entries) status h

  store_batch-fails :
      (b : Batch R) (status : Status)
      → (store_batch deps.repos b).1 ≡ err status
      → is_storage_failure status ≡ true
  unfolding store_batch
  store_batch-fails b status h = stored_if-fails b (is_nil b.entries) status h

  store_logs-refused :
      (s : IngestService R L) (host : Result Status Text) (status : Status)
      → (store_logs deps call s host).1 ≡ err status
      → is_storage_failure status ≡ false
      → (store_logs deps call s host).0.repo ≡ s.repo
  store_logs-refused s (err e) status h other = refl
  store_logs-refused s (ok hostname) status h other =
      let fails = store_batch-fails (ingested deps call hostname s.repo) status h in absurd (cc)

  logs_from-refused :
      (s : IngestService R L) (caller : Result Status Principal) (status : Status)
      → (logs_from deps call (s, caller)).1 ≡ err status
      → is_storage_failure status ≡ false
      → (logs_from deps call (s, caller)).0.repo ≡ s.repo
  logs_from-refused s (err e) status h other = refl
  logs_from-refused s (ok p) status h other =
      store_logs-refused s (accept_logs p call.message) status h other

  -- A refusal of `send_logs` that is not a failure of the storage leaves the tables as they were.
  pub send_logs-refused :
      (s : IngestService R L) (status : Status)
      → (send_logs deps call s).1 ≡ err status
      → is_storage_failure status ≡ false
      → (send_logs deps call s).0.repo ≡ s.repo
  unfolding send_logs
  send_logs-refused s status h other =
      logs_from-refused (authorize deps call s).0 (authorize deps call s).1 status h other
      ∙ authorize-repo deps call s
