-- ===== src/Policy/Add/Laws.antt =====
-- What is on disk after an addition.
use openpubkey.Base.{
  String, Error, Result, ok, err, panic, wrap_err, is_permission, wrap_err-eq-ok, ◌>>◌, ◌≡◌, refl,
  sym, ap, true, false, Bool-cases, inl, inr, ◌⊎◌,
}
use openpubkey.Base.Bytes.{Bytes}
use openpubkey.Policy.Entries.{Policy, add_allowed_principal}
use openpubkey.Policy.Loader.{
  FileSystem, Host, system_default_policy_path, load_policy_at_path, load_system_default_policy,
  load_user_policy, dump,
}
use openpubkey.Policy.Loader.Laws.{load_user_policy-read, IsFileSystem, IsYaml, load-dump}
use openpubkey.Policy.Add.{fall_back, load_policy, update, add}

fall_back-eq-ok :
    (system : Result Policy) (user : Result (Policy × Bytes)) (policy : Policy) (path : Bytes)
    → fall_back system user ≡ ok (policy, path)
    → ((system ≡ ok policy) × (path ≡ system_default_policy_path))
      ⊎ ((e : Error) × (system ≡ err e) × (is_permission e ≡ true) × (user ≡ ok (policy, path)))
fall_back-eq-ok (ok system) user policy path h =
    let eq : ◌≡◌ {A = Policy × Bytes} (system, system_default_policy_path) (policy, path) = cc h in
    inl (ap (λ (t : Policy × Bytes). ok t.0) eq, sym (ap (λ (t : Policy × Bytes). t.1) eq))
fall_back-eq-ok (err e) user policy path h = elim (Bool-cases (is_permission e)) [
  | inl yes_ ↦ inr (e, refl, yes_, (rw yes_ at h))
  | inr no_ ↦ cc (rw no_ at h)
]
fall_back-eq-ok panic user policy path h = cc h

-- an update that succeeded names its path, and so did the dump
finished :
    {Fs : Type 0} (s : String) (r : Result (Unit {0}) × Fs) (p path : Bytes) (fs' : Fs)
    → ◌≡◌ {A = Result Bytes × Fs} (wrap_err s r.0 >> ok p, r.1) (ok path, fs')
    → (p ≡ path) × (r ≡ (ok tt, fs'))
finished {Fs} s (ok u, fs) p path fs' h =
    let eq : ◌≡◌ {A = Result Bytes} (ok p) (ok path) = ap (λ (t : Result Bytes × Fs). t.0) h in
    (cc eq, ap (λ (t : Result Bytes × Fs). (ok tt, t.1)) h)
finished {Fs} s (err e, fs) p path fs' h = absurd (cc (ap (λ (t : Result Bytes × Fs). t.0) h))
finished {Fs} s (panic, fs) p path fs' h = absurd (cc (ap (λ (t : Result Bytes × Fs). t.0) h))

module _ {Fs : Type 0} (os : FileSystem Fs) (host : Host) where
  -- the policy that an addition starts from is the one in the file that it names
  load_policy-read :
      (fs : Fs) (username path : Bytes) (policy : Policy)
      → load_policy os host fs username ≡ ok (policy, path)
      → load_policy_at_path os host fs path ≡ ok policy
  unfolding load_policy load_system_default_policy
  load_policy-read fs username path policy h =
      elim (fall_back-eq-ok (load_system_default_policy os host fs)
        (load_user_policy os host fs username false) policy path h) [
          | inl (e, eq) ↦ rw eq (wrap_err-eq-ok _ _ e)
          | inr (e, _, _, u) ↦ load_user_policy-read os host fs username path policy u
        ]

  update-eq-ok :
      (fs fs' : Fs) (user_email principal path : Bytes) (loaded : Result (Policy × Bytes))
      → update os host fs user_email principal loaded ≡ (ok path, fs')
      → (current : Policy) × (loaded ≡ ok (current, path))
        × (dump os host fs (add_allowed_principal principal user_email current) path ≡ (ok tt, fs'))
  update-eq-ok fs fs' user_email principal path (ok (current, p)) h =
      let (same, d) =
        finished _ (dump os host fs (add_allowed_principal principal user_email current) p) p path
          fs' h in
      (current, rw same refl, rw same at d)
  update-eq-ok fs fs' user_email principal path (err e) h =
      cc (ap (λ (t : Result Bytes × Fs). t.0) h)
  update-eq-ok fs fs' user_email principal path panic h = cc (ap (λ (t : Result Bytes × Fs). t.0) h)

  -- An addition that succeeds names a policy file. That file held a policy before, and it holds that
  -- policy with the pair added afterwards: loading it again gives just that.
  pub load-add :
      (fs fs' : Fs) (username user_email principal path : Bytes)
      → IsFileSystem os host
      → IsYaml os host
      → add os host fs username user_email principal ≡ (ok path, fs')
      → (before : Policy) × (load_policy_at_path os host fs path ≡ ok before)
        × (load_policy_at_path os host fs' path
            ≡ ok (add_allowed_principal principal user_email before))
  unfolding add
  load-add fs fs' username user_email principal path disk yaml h =
      let (current, l, d) =
        update-eq-ok fs fs' user_email principal path (load_policy os host fs username) h in
      let was = load_policy-read fs username path current l in
      (current, was, load-dump os host fs fs' path current _ disk yaml was d)
