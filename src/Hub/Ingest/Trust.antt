-- ===== src/Hub/Ingest/Trust.antt =====
-- What an acknowledgement of `send_logs` says of the caller, of the request and of the store.
use mathlib.Core.Path.{subst}
use sentinalysis.Base.{
  All, Bool, List, Option, Text, [], ap, arith, false, if◌then◌else◌, is_nil, length, map, none,
  refl, some, true, ◌+◌, ◌∙◌, ◌∷◌, ◌≡◌, ◌≤◌,
}
use sentinalysis.Base.Results.{Result, err, ok}
use sentinalysis.Hub.Auth.Permission.{Principal}
use sentinalysis.Hub.Ingest.Wire.{Ack, LogsRequest}
use sentinalysis.Hub.Ingest.Handlers.{
  Call, Deps, Handled, IngestService, Status, ack, authorize, internal, of_storage, peer, with_key,
  within_budget,
}
use sentinalysis.Hub.Ingest.Logs.{
  Batch, accept_logs, batch_stored, ingested, logs_from, outcomes_of, send_logs, store_batch,
  store_logs, to_u32, total_lines, u32_max,
}
use sentinalysis.Hub.Ingest.Hosted.{HostIs, ingested-HostIs, ingested-entries, ingested-rejected}
use sentinalysis.Hub.Ingest.Lookups.{looked_up, ingested-looked_up}
use sentinalysis.Hub.Ingest.Clearance.{Accepted, accept_logs-Accepted}
use sentinalysis.LogScanner.Entry.{InsertLogEntry}
use sentinalysis.Hub.Ingest.Batch.{accepted, attach}

module _ {R L : Type 0} (deps : Deps R L) (call : Call LogsRequest) where
  -- What became of a batch: nothing to write, or a write that succeeded.
  pub data Stored (b : Batch R) (r : R) : Type 0 where
    nothing : b.entries ≡ [] → b.repo ≡ r → Stored b r
    written : deps.repos.insert_batch b.repo b.entries ≡ (r, ok tt) → Stored b r

  -- What an acknowledgement means.
  pub record Taken (s after : IngestService R L) (reply : Ack) : Type 0 where
    pub principal : Principal
    pub hostname : Text
    pub authorized : (authorize deps call s).1 ≡ ok principal
    pub cleared : Accepted principal call.message hostname
    pub stored : Stored (ingested deps call hostname s.repo) after.repo
    pub counted : reply ≡ ack (length (ingested deps call hostname s.repo).entries)
    -- the batch: the accepted lines in order, each with the table's answer for its service, and
    -- each of the caller's host
    pub batch_is :
        (ingested deps call hostname s.repo).entries
        ≡ map
            (attach (looked_up deps call hostname s.repo).1)
            (accepted (outcomes_of deps.env call.clock hostname call.message))
    pub asked : (ingested deps call hostname s.repo).repo ≡ (looked_up deps call hostname s.repo).0
    pub of_host : All (HostIs hostname) (ingested deps call hostname s.repo).entries
    pub accounted :
        length (ingested deps call hostname s.repo).entries
          + (ingested deps call hostname s.repo).rejected
        ≡ total_lines call.message

  batch_stored-written :
      (b : Batch R) (answer : R × Result Text (Unit {0})) (r : R) (reply : Ack)
      → deps.repos.insert_batch b.repo b.entries ≡ answer
      → length b.entries ≤ u32_max
      → batch_stored (length b.entries) answer ≡ (r, ok reply)
      → Stored b r × (reply ≡ ack (length b.entries))
  batch_stored-written b (r', err e) r reply h few done =
      let bad : err (internal (of_storage e)) ≡ ok reply = ap (λ q. q.1) done in absurd (cc)
  batch_stored-written b (r', ok tt) r reply h few done =
      let same_repo : r' ≡ r = ap (λ q. q.0) done in
      let same_reply : ok (ack (to_u32 (length b.entries))) ≡ ok reply = ap (λ q. q.1) done in
      let unclipped : to_u32 (length b.entries) ≡ length b.entries = ground arith in
      (written cc, cc)

  entries_nil : (es : List InsertLogEntry) → is_nil es ≡ true → es ≡ []
  entries_nil [] h = refl
  entries_nil (e ∷ es) h = absurd (cc)

  stored_if :
      (b : Batch R) (r : R) (reply : Ack) (none_left : Bool)
      → is_nil b.entries ≡ none_left
      → length b.entries ≤ u32_max
      → (if none_left
          then (b.repo, ok (ack (to_u32 0)))
          else batch_stored (length b.entries) (deps.repos.insert_batch b.repo b.entries))
        ≡ (r, ok reply)
      → Stored b r × (reply ≡ ack (length b.entries))
  stored_if b r reply true h few done =
      let no_entries : b.entries ≡ [] = entries_nil b.entries h in
      let same_reply : ok (ack 0) ≡ ok reply = ap (λ q. q.1) done in
      let zero_length : length b.entries ≡ 0 = ap length no_entries in
      (nothing no_entries (ap (λ q. q.0) done), cc)
  stored_if b r reply false h few done =
      batch_stored-written b (deps.repos.insert_batch b.repo b.entries) r reply refl few done

  store_batch-Stored :
      (b : Batch R) (r : R) (reply : Ack)
      → length b.entries ≤ u32_max
      → store_batch deps.repos b ≡ (r, ok reply)
      → Stored b r × (reply ≡ ack (length b.entries))
  unfolding store_batch
  store_batch-Stored b r reply few done = stored_if b r reply (is_nil b.entries) refl few done

  store_logs-Taken :
      (s after : IngestService R L) (p : Principal) (host : Result Status Text) (reply : Ack)
      → (authorize deps call s).1 ≡ ok p
      → accept_logs p call.message ≡ host
      → (authorize deps call s).0.repo ≡ s.repo
      → store_logs deps call (authorize deps call s).0 host ≡ (after, ok reply)
      → Taken s after reply
  store_logs-Taken s after p (err e) reply h k same done =
      let bad : err e ≡ ok reply = ap (λ q. q.1) done in absurd (cc)
  store_logs-Taken s after p (ok hostname) reply h k same done =
      let b = ingested deps call hostname (authorize deps call s).0.repo in
      let bs : b ≡ ingested deps call hostname s.repo = ap (ingested deps call hostname) same in
      let cleared = accept_logs-Accepted p call.message hostname k in
      let few : length b.entries ≤ u32_max =
        omega (
          arith,
          ingested-rejected deps call hostname (authorize deps call s).0.repo,
          cleared.few,
        ) in
      let stored =
        store_batch-Stored b after.repo reply few
          (ap (λ (q : Handled R L). (q.0.repo, q.1)) done) in
      record {
        principal = p;
        hostname = hostname;
        authorized = h;
        cleared = cleared;
        stored = subst (λ c. Stored c after.repo) bs stored.0;
        counted = subst (λ (c : Batch R). reply ≡ ack (length c.entries)) bs stored.1;
        batch_is =
            ingested-entries deps call hostname s.repo
            ∙ ap
                (λ answers.
                  map (attach answers)
                    (accepted (outcomes_of deps.env call.clock hostname call.message)))
                (ap (λ q. q.1) (ingested-looked_up deps call hostname s.repo));
        asked = ap (λ q. q.0) (ingested-looked_up deps call hostname s.repo);
        of_host = ingested-HostIs deps call hostname s.repo;
        accounted = ingested-rejected deps call hostname s.repo;
      }

  within_budget-repo :
      (raw_key : Text) (s : IngestService R L) (l : L) (allowed : Bool)
      → (within_budget deps call raw_key s (l, allowed)).0.repo ≡ s.repo
  within_budget-repo raw_key s l true = refl
  within_budget-repo raw_key s l false = refl

  with_key-repo :
      (key : Option Text) (s : IngestService R L) → (with_key deps call key s).0.repo ≡ s.repo
  with_key-repo none s = refl
  with_key-repo (some raw_key) s =
      let spent = deps.check_key s.limiter (peer call.remote_addr) in
      within_budget-repo raw_key s spent.0 spent.1

  -- Authentication never touches the tables that the handlers write.
  pub authorize-repo : (s : IngestService R L) → (authorize deps call s).0.repo ≡ s.repo
  unfolding authorize
  authorize-repo s = with_key-repo call.api_key s

  logs_from-Taken :
      (s after : IngestService R L) (caller : Result Status Principal) (reply : Ack)
      → (authorize deps call s).1 ≡ caller
      → logs_from deps call ((authorize deps call s).0, caller) ≡ (after, ok reply)
      → Taken s after reply
  logs_from-Taken s after (err e) reply h done =
      let bad : err e ≡ ok reply = ap (λ q. q.1) done in absurd (cc)
  logs_from-Taken s after (ok p) reply h done =
      store_logs-Taken s after p (accept_logs p call.message) reply h refl (authorize-repo s) done

  -- If `send_logs` acknowledges a request, its caller was authenticated, holds the permission for
  -- logs and is bound to an agent and a host, and the request has at most 1000 lines. The batch is
  -- the accepted lines in their order, each with the caller's host and with the id that
  -- `get_or_create` answered for its service, or with none if that failed; it was asked once for each
  -- service, at the service's first accepted line, in their order. The batch was then written in one
  -- insert, or it is empty and nothing was written. The acknowledged count is the batch's length, and every other line was
  -- counted as rejected.
  pub send_logs-Taken :
      (s after : IngestService R L) (reply : Ack)
      → send_logs deps call s ≡ (after, ok reply)
      → Taken s after reply
  unfolding send_logs
  send_logs-Taken s after reply done =
      logs_from-Taken s after (authorize deps call s).1 reply refl done
