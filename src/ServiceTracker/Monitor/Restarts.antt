-- ===== src/ServiceTracker/Monitor/Restarts.antt =====
-- What src/service_tracker/monitor.rs reports for a property that systemctl does not print.
use sentinalysis.Base.{
  ℕ, Bool, List, Option, Text, [], all, arith, codes, false, none, not, refl, some, text_eq, true,
  ◌∷◌, ◌≡◌,
}
use sentinalysis.Base.Dict.{Dict, lookup, lookup-insert}
use sentinalysis.Base.Results.{Result, err, ok}
use sentinalysis.LogScanner.Tailer.State.{lines}
use sentinalysis.ServiceTracker.Monitor.{
  Env, ServiceStatus, add_properties, show_arguments, get_status, get_systemctl_properties,
  parse_u32, split_once, trim, with_property,
}

abbrev pub restarts_of : {F : Type 0} → Result Text (ServiceStatus F) → Option ℕ
restarts_of (err e) = none
restarts_of (ok status) = some status.restart_count

module _ {F : Type 0} (env : Env F) where
  abbrev is_not : Text → Option (Text × Text) → Bool
  is_not k none = true
  is_not k (some (key, value)) = not (text_eq (trim env key) k)

  -- No line gives the property `k`.
  abbrev pub lacks : Text → List Text → Bool
  lacks k ls = all (λ l. is_not k (split_once l)) ls

  lookup-with_property :
      (k : Text) (m : Dict Text) (p : Option (Text × Text))
      → is_not k p ≡ true
      → lookup k (with_property env m p) ≡ lookup k m
  unfolding with_property
  lookup-with_property k m none h = refl
  lookup-with_property k m (some (key, value)) h =
      let other : text_eq (trim env key) k ≡ false = ground arith in
      let step = lookup-insert (trim env key) k (trim env value) m in ground (arith, other, step)

  lookup-add_properties :
      (k : Text) (ls : List Text) (m : Dict Text)
      → lacks k ls ≡ true
      → lookup k (add_properties env ls m) ≡ lookup k m
  unfolding add_properties
  lookup-add_properties k [] m h = refl
  lookup-add_properties k (l ∷ ls) m h =
      let head : is_not k (split_once l) ≡ true = ground arith in
      let rest : lacks k ls ≡ true = ground arith in
      rw (lookup-add_properties k ls (with_property env m (split_once l)) rest)
        (lookup-with_property k m (split_once l) head)

  -- When systemctl answers without a line for NRestart, the status counts no restarts.
  pub get_status-unrestarted :
      (name stdout stderr : Text)
      → env.output (show_arguments name)
        ≡ ok record { success = true; stdout = stdout; stderr = stderr }
      → lacks (codes "NRestart") (lines stdout) ≡ true
      → restarts_of (get_status env name) ≡ some 0
  unfolding get_status get_systemctl_properties parse_u32 lookup
  get_status-unrestarted name stdout stderr h k =
      rw (h, lookup-add_properties (codes "NRestart") (lines stdout) [] k) refl
