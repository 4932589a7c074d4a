-- ===== src/Policy/Loader/Laws.antt =====
-- What a loaded policy can allow.
use openpubkey.Base.{
  ℕ, String, Result, ok, err, panic, require, wrap_err, bind-eq-ok, wrap_err-eq-ok, require-eq-ok,
  ◌≡◌, refl, sym, ap, List, [], ◌∷◌, ◌++◌, arith, true, false, not, Bool-cases, inl, inr, ◌⊎◌, ◌↔◌,
  ==_iff,
}
use openpubkey.Base.Bytes.{Bytes, str}
use openpubkey.Policy.Entries.{User, Policy, contains}
use openpubkey.Policy.Entries.Laws.{Allowed, contains_iff}
use openpubkey.Policy.Loader.{
  FileSystem, Host, system_default_policy_path, mode_only_owner, perm, validate_permissions,
  valid_entries, is_blank, load_policy_at_path, load_system_default_policy, load_user_policy,
  merge_policies, load, dump, write_yaml,
}

-- The valid entries allow nothing but what the file allows, and only to the user of the file.
Allowed-valid_entries :
    (username email wanted : Bytes) (users : List User)
    → Allowed email wanted (valid_entries username users)
      ↔ ((username ≡ wanted) × Allowed email username users)
unfolding valid_entries
Allowed-valid_entries username email wanted [] = ground arith
Allowed-valid_entries username email wanted (user ∷ users) =
    let ih = Allowed-valid_entries username email wanted users in
    let has = contains_iff user.principals username in
    elim (Bool-cases (contains user.principals username)) [
      | inl old ↦ rw old (ground (arith, ih, has, old))
      | inr new ↦ rw new (ground (arith, ih, has, new))
    ]

Allowed-concat :
    (email wanted : Bytes) (us vs : List User)
    → Allowed email wanted (us ++ vs) ↔ (Allowed email wanted us ⊎ Allowed email wanted vs)
Allowed-concat email wanted [] vs = ground arith
Allowed-concat email wanted (u ∷ us) vs = ground (arith, Allowed-concat email wanted us vs)

entries :
    {p : Policy} {path : Bytes} (r : Policy × Bytes)
    → ◌≡◌ {A = Result (Policy × Bytes)} (ok (p, path)) (ok r)
    → r.0.users ≡ p.users
entries {p} {path} r h =
    let eq : ◌≡◌ {A = Policy × Bytes} (p, path) r = cc h in
    sym (ap (λ (t : Policy × Bytes). t.0.users) eq)

-- where the entries of a merged policy come from
merge_policies-ok :
    (root : Result Policy) (user : Result (Policy × Bytes)) (r : Policy × Bytes)
    → merge_policies root user ≡ ok r
    → (email wanted : Bytes) → Allowed email wanted r.0.users
    → ((p : Policy) × (root ≡ ok p) × Allowed email wanted p.users)
      ⊎ ((q : Policy × Bytes) × (user ≡ ok q) × Allowed email wanted q.0.users)
merge_policies-ok panic user r h email wanted a = cc h
merge_policies-ok (err e) panic r h email wanted a = cc h
merge_policies-ok (err e) (err f) r h email wanted a = cc h
merge_policies-ok (err e) (ok q) r h email wanted a = inr (q, refl, rw (← entries r h) a)
merge_policies-ok (ok p) panic r h email wanted a = cc h
merge_policies-ok (ok p) (err f) r h email wanted a = inl (p, refl, rw (← entries r h) a)
merge_policies-ok (ok p) (ok q) r h email wanted a =
    elim ((Allowed-concat email wanted p.users q.0.users).0 (rw (entries r h) at a)) [
      | inl x ↦ inl (p, refl, x)
      | inr y ↦ inr (q, refl, y)
    ]

-- a call that succeeded with its error wrapped
wrapped_ok :
    {Fs : Type 0} (s : String) (r : Result (Unit {0}) × Fs) (fs' : Fs)
    → ◌≡◌ {A = Result (Unit {0}) × Fs} (wrap_err s r.0, r.1) (ok tt, fs')
    → r ≡ (ok tt, fs')
wrapped_ok s (ok u, fs) fs' h = h
wrapped_ok {Fs} s (err e, fs) fs' h = cc (ap (λ (t : Result (Unit {0}) × Fs). t.0) h)
wrapped_ok {Fs} s (panic, fs) fs' h = cc (ap (λ (t : Result (Unit {0}) × Fs). t.0) h)

module _ {Fs : Type 0} (os : FileSystem Fs) (host : Host) where
  -- The policy was read from the file at the path, which only its owner may read and write.
  pub record IsRead (fs : Fs) (path : Bytes) (policy : Policy) : Type 0 where
    pub mode : ℕ
    pub content : Bytes
    pub described : os.stat fs path ≡ ok mode
    pub owner_only : perm mode ≡ mode_only_owner
    pub read : os.read_file fs path ≡ ok content
    pub parsed : host.from_yaml content ≡ ok policy

  pub load_policy_at_path-IsRead :
      (fs : Fs) (path : Bytes) (policy : Policy)
      → load_policy_at_path os host fs path ≡ ok policy
      → IsRead fs path policy
  unfolding load_policy_at_path
  load_policy_at_path-IsRead fs path policy h =
      let (mode, e, h1) = bind-eq-ok (wrap_err _ (os.stat fs path)) _ h in
      let (u, v, h2) = bind-eq-ok (wrap_err _ (validate_permissions mode)) _ h1 in
      let (content, r, h3) = bind-eq-ok (os.read_file fs path) _ h2 in
      record {
        mode = mode;
        content = content;
        described = wrap_err-eq-ok _ _ e;
        owner_only = (==_iff _ _).0 (require-eq-ok _ _ (wrap_err-eq-ok _ _ v));
        read = r;
        parsed = wrap_err-eq-ok _ _ h3;
      }

  -- the file from which the policy of a user is read
  abbrev pub user_path : Bytes → Bytes
  user_path home = host.join_path (home ∷ str ".opk" ∷ str "policy.yml" ∷ [])

  load_user_policy-IsRead :
      (fs : Fs) (username : Bytes) (r : Policy × Bytes)
      → load_user_policy os host fs username true ≡ ok r
      → (home : Bytes) × (file : Policy) × (host.lookup username ≡ ok home)
        × IsRead fs (user_path home) file
        × (r.0.users ≡ valid_entries username file.users)
  unfolding load_user_policy
  load_user_policy-IsRead fs username r h =
      let (home, e, h1) = bind-eq-ok (wrap_err _ (host.lookup username)) _ h in
      let (u, nonblank, h2) = bind-eq-ok (require (not (is_blank home)) _) _ h1 in
      let (file, l, h3) =
        bind-eq-ok (wrap_err _ (load_policy_at_path os host fs (user_path home))) _ h2 in
      (
        home,
        file,
        wrap_err-eq-ok _ _ e,
        load_policy_at_path-IsRead fs (user_path home) file (wrap_err-eq-ok _ _ l),
        entries r h3,
      )

  -- Whatever the loaded policy allows, either the system policy allows it, or the policy file in the
  -- home of the user allows that user, and the principal is that user. Both files were read with mode
  -- 0600.
  pub Allowed-load :
      (fs : Fs) (username : Bytes) (r : Policy × Bytes) (email wanted : Bytes)
      → load os host fs username ≡ ok r
      → Allowed email wanted r.0.users
      → ((root : Policy) × IsRead fs system_default_policy_path root
          × Allowed email wanted root.users)
        ⊎ ((home : Bytes) × (file : Policy) × (host.lookup username ≡ ok home)
            × IsRead fs (user_path home) file
            × (username ≡ wanted)
            × Allowed email username file.users)
  unfolding load load_system_default_policy
  Allowed-load fs username r email wanted h a =
      elim (merge_policies-ok (load_system_default_policy os host fs)
        (load_user_policy os host fs username true) r h email wanted a) [
          | inl (root, loaded, allowed) ↦ inl (
            root,
            load_policy_at_path-IsRead fs system_default_policy_path root
                (wrap_err-eq-ok _ _ loaded),
            allowed,
          )
          | inr (q, loaded, allowed) ↦
              let (home, file, found, was_read, eq) =
                load_user_policy-IsRead fs username q loaded in
              let (same, allowed') =
                (Allowed-valid_entries username email wanted file.users).0 (rw eq at allowed) in
              inr (home, file, found, was_read, same, allowed')
        ]

  IsRead-load :
      (fs : Fs) (path : Bytes) (policy : Policy)
      → IsRead fs path policy
      → load_policy_at_path os host fs path ≡ ok policy
  unfolding load_policy_at_path
  IsRead-load fs path policy r = rw (r.described, (==_iff _ _).1 r.owner_only, r.read, r.parsed)

  -- with no entries skipped the policy of a user is the one in the file that is named
  pub load_user_policy-read :
      (fs : Fs) (username path : Bytes) (policy : Policy)
      → load_user_policy os host fs username false ≡ ok (policy, path)
      → load_policy_at_path os host fs path ≡ ok policy
  unfolding load_user_policy
  load_user_policy-read fs username path policy h =
      let (home, e, h1) = bind-eq-ok (wrap_err _ (host.lookup username)) _ h in
      let (u, nonblank, h2) = bind-eq-ok (require (not (is_blank home)) _) _ h1 in
      let (file, l, h3) =
        bind-eq-ok (wrap_err _ (load_policy_at_path os host fs (user_path home))) _ h2 in
      let eq : ◌≡◌ {A = Policy × Bytes} (file, user_path home) (policy, path) = cc h3 in
      let eq_path : user_path home ≡ path = ap (λ (t : Policy × Bytes). t.1) eq in
      let eq_file : file ≡ policy = ap (λ (t : Policy × Bytes). t.0) eq in
      rw (← eq_path, ← eq_file) (wrap_err-eq-ok _ _ l)

  -- A file holds what was written to it, and a file that was there keeps its mode.
  pub record IsFileSystem : Type 0 where
    pub read_back :
        (fs fs' : Fs) (path content : Bytes) (mode : ℕ)
        → os.write_file fs path content mode ≡ (ok tt, fs')
        → os.read_file fs' path ≡ ok content
    pub keeps_mode :
        (fs fs' : Fs) (path content : Bytes) (mode old : ℕ)
        → os.stat fs path ≡ ok old
        → os.write_file fs path content mode ≡ (ok tt, fs')
        → os.stat fs' path ≡ ok old

  -- A policy comes back from its YAML.
  pub record IsYaml : Type 0 where
    pub parse_back :
        (p : Policy) (content : Bytes) → host.to_yaml p ≡ ok content → host.from_yaml content ≡ ok p

  write_yaml-eq-ok :
      (fs fs' : Fs) (path : Bytes) (yaml : Result Bytes)
      → write_yaml os host fs path yaml ≡ (ok tt, fs')
      → (content : Bytes) × (yaml ≡ ok content)
        × (os.write_file fs path content mode_only_owner ≡ (ok tt, fs'))
  unfolding write_yaml
  write_yaml-eq-ok fs fs' path (ok content) h =
      (content, refl, wrapped_ok _ (os.write_file fs path content mode_only_owner) fs' h)
  write_yaml-eq-ok fs fs' path (err e) h = cc (ap (λ (t : Result (Unit {0}) × Fs). t.0) h)
  write_yaml-eq-ok fs fs' path panic h = cc (ap (λ (t : Result (Unit {0}) × Fs). t.0) h)

  -- A policy that was dumped over a readable policy file is loaded from it.
  pub load-dump :
      (fs fs' : Fs) (path : Bytes) (old policy : Policy)
      → IsFileSystem
      → IsYaml
      → load_policy_at_path os host fs path ≡ ok old
      → dump os host fs policy path ≡ (ok tt, fs')
      → load_policy_at_path os host fs' path ≡ ok policy
  unfolding dump
  load-dump fs fs' path old policy disk yaml h d =
      let was = load_policy_at_path-IsRead fs path old h in
      let (content, marshalled, written) = write_yaml-eq-ok fs fs' path _ d in
      IsRead-load fs' path policy (record {
        mode = was.mode;
        content = content;
        described =
            disk.keeps_mode fs fs' path content mode_only_owner was.mode was.described written;
        owner_only = was.owner_only;
        read = disk.read_back fs fs' path content mode_only_owner written;
        parsed = yaml.parse_back policy content (wrap_err-eq-ok _ _ marshalled);
      })
