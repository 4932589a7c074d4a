-- ===== src/Policy/Loader.antt =====
-- opkssh/policy/fileloader.go and multifileloader.go: reading policies from files. The file system,
-- the user database and YAML are parameters.
pub mod Laws
mod Tests
use openpubkey.Base.{
  ℕ, zero, suc, ◌+◌, ◌-◌, ◌*◌, ◌/◌, ◌%◌, ◌^◌, ◌≤◌, ◌<◌, String, Error, msg, wrapped, joined,
  permission, Result, ok, err, panic, require, wrap_err, is_permission, bind-eq-ok, wrap_err-eq-ok,
  require-eq-ok, ◌>>=◌, ◌>>◌, ◌≡◌, ◌≢◌, refl, sym, ◌∙◌, ap, List, [], ◌∷◌, ◌++◌, map, arith, Option,
  none, some, Bool, true, false, ◌||◌, ◌&&◌, not, ltb, leb, ◌==◌, if◌then◌else◌, length,
  length-append, get_elem?, All, Bool-cases, Option-cases, inl, inr, ◌⊎◌, ◌↔◌, ==_iff, ltb→lt,
}
use openpubkey.Base.Bytes.{Bytes, str}
use openpubkey.Policy.Entries.{User, Policy, contains}

-- `afero.Fs` with `ReadFile` and `WriteFile`, over the states of a file system; `stat` gives the mode.
pub record FileSystem (Fs : Type 0) : Type 0 where
  pub stat : Fs → Bytes → Result ℕ
  pub read_file : Fs → Bytes → Result Bytes
  pub write_file : Fs → Bytes → Bytes → ℕ → Result (Unit {0}) × Fs

-- `lookup` gives the home directory; `join_path` is `path.Join`.
pub record Host : Type 0 where
  pub lookup : Bytes → Result Bytes
  pub join_path : List Bytes → Bytes
  pub from_yaml : Bytes → Result Policy
  pub to_yaml : Policy → Result Bytes

-- SystemDefaultPolicyPath
abbrev pub system_default_policy_path : Bytes
system_default_policy_path = str "/etc/opk/policy.yml"

-- ModeOnlyOwner
abbrev pub mode_only_owner : ℕ
mode_only_owner = 0o600

-- (l *FileLoader) validatePermissions; `Perm` is the low nine bits
abbrev pub perm : ℕ → ℕ
perm mode = mode % 512

validate_permissions : ℕ → Result (Unit {0})
validate_permissions mode = require (perm mode == mode_only_owner) "expected (0600), got (%o)"

-- the loop of `LoadUserPolicy` that builds the valid entries
valid_entries : Bytes → List User → List User
valid_entries username [] = []
valid_entries username (user ∷ users) =
    let rest = valid_entries username users in
    if contains user.principals username
    then record { email = user.email; principals = username ∷ [] } ∷ rest
    else rest

-- `userHomeDirectory == ""`
abbrev is_blank : Bytes → Bool
is_blank [] = true
is_blank (c ∷ s) = false

-- `Load` once both policies have been tried; a policy is nil where there was an error.
abbrev merge_policies : Result Policy → Result (Policy × Bytes) → Result (Policy × Bytes)
merge_policies panic _ = panic
merge_policies (err e) panic = panic
merge_policies (err e) (err f) = err (joined e f)
merge_policies (err e) (ok (user, path)) = ok (user, path)
merge_policies (ok root) panic = panic
merge_policies (ok root) (err f) = ok (root, system_default_policy_path)
merge_policies (ok root) (ok (user, path)) =
    ok (record { users = root.users ++ user.users }, system_default_policy_path ++ str ", " ++ path)

module _ {Fs : Type 0} (os : FileSystem Fs) (host : Host) where
  -- (l *FileLoader) LoadPolicyAtPath
  unfoldable pub load_policy_at_path : Fs → Bytes → Result Policy
  unfolding validate_permissions
  load_policy_at_path fs path = do
    mode ← wrap_err "failed to describe the file at path: %w" (os.stat fs path)
    wrap_err "policy file has insecure permissions: %w" (validate_permissions mode)
    content ← os.read_file fs path
    wrap_err "error unmarshalling input to policy.Policy: %w" (host.from_yaml content)

  -- (l *FileLoader) LoadSystemDefaultPolicy
  unfoldable pub load_system_default_policy : Fs → Result Policy
  load_system_default_policy fs =
      wrap_err "failed to read system default policy file %s: %w"
        (load_policy_at_path fs system_default_policy_path)

  -- (l *FileLoader) LoadUserPolicy
  unfoldable pub load_user_policy : Fs → Bytes → Bool → Result (Policy × Bytes)
  unfolding valid_entries
  load_user_policy fs username skip_invalid_entries = do
    home ← wrap_err "failed to lookup username %s: %w" (host.lookup username)
    require (not (is_blank home)) "user %s does not have a home directory"
    let path = host.join_path (home ∷ str ".opk" ∷ str "policy.yml" ∷ [])
    policy ← wrap_err "failed to read user policy file %s: %w" (load_policy_at_path fs path)
    ok (
        if skip_invalid_entries
        then (record { users = valid_entries username policy.users }, path)
        else (policy, path))

  -- (l *MultiFileLoader) Load
  unfoldable pub load : Fs → Bytes → Result (Policy × Bytes)
  load fs username =
      merge_policies (load_system_default_policy fs) (load_user_policy fs username true)

  -- `Dump` once the policy has been marshalled
  write_yaml : Fs → Bytes → Result Bytes → Result (Unit {0}) × Fs
  write_yaml fs path (ok yaml) =
      let (r, fs') = os.write_file fs path yaml mode_only_owner in
      (wrap_err "failed to write to policy file %s: %w" r, fs')
  write_yaml fs path (err e) = (err e, fs)
  write_yaml fs path panic = (panic, fs)

  -- (l *FileLoader) Dump
  unfoldable pub dump : Fs → Policy → Bytes → Result (Unit {0}) × Fs
  unfolding write_yaml
  dump fs policy path =
      write_yaml fs path (wrap_err "failed to marshal policy: %w" (host.to_yaml policy))
