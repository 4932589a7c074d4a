-- ===== src/Policy/Add.antt =====
-- opkssh/commands/add.go: reading, extending and writing back a policy file.
pub mod Laws
mod Tests
use openpubkey.Base.{
  ℕ, zero, suc, ◌+◌, ◌-◌, ◌*◌, ◌/◌, ◌%◌, ◌^◌, ◌≤◌, ◌<◌, String, Error, msg, wrapped, joined,
  permission, Result, ok, err, panic, require, wrap_err, is_permission, bind-eq-ok, wrap_err-eq-ok,
  require-eq-ok, ◌>>=◌, ◌>>◌, ◌≡◌, ◌≢◌, refl, sym, ◌∙◌, ap, List, [], ◌∷◌, ◌++◌, map, arith, Option,
  none, some, Bool, true, false, ◌||◌, ◌&&◌, not, ltb, leb, ◌==◌, if◌then◌else◌, length,
  length-append, get_elem?, All, Bool-cases, Option-cases, inl, inr, ◌⊎◌, ◌↔◌, ==_iff, ltb→lt,
}
use openpubkey.Base.Bytes.{Bytes}
use openpubkey.Policy.Entries.{Policy, add_allowed_principal}
use openpubkey.Policy.Loader.{
  FileSystem, Host, system_default_policy_path, load_system_default_policy, load_user_policy, dump,
}

-- `LoadPolicy` once the system policy has been tried: only a permission error falls back.
abbrev fall_back : Result Policy → Result (Policy × Bytes) → Result (Policy × Bytes)
fall_back (ok system) user = ok (system, system_default_policy_path)
fall_back (err e) user = if is_permission e then user else err e
fall_back panic user = panic

module _ {Fs : Type 0} (os : FileSystem Fs) (host : Host) where
  -- (a *AddCmd) LoadPolicy
  unfoldable pub load_policy : Fs → Bytes → Result (Policy × Bytes)
  load_policy fs username =
      fall_back (load_system_default_policy os host fs) (load_user_policy os host fs username false)

  -- `Add` once the current policy has been tried
  abbrev update : Fs → Bytes → Bytes → Result (Policy × Bytes) → Result Bytes × Fs
  update fs user_email principal (err e) = (err (wrapped "failed to load current policy: %w" e), fs)
  update fs user_email principal panic = (panic, fs)
  update fs user_email principal (ok (current, path)) =
      let (r, fs') = dump os host fs (add_allowed_principal principal user_email current) path in
      (wrap_err "failed to write updated policy: %w" r >> ok path, fs')

  -- (a *AddCmd) Add
  unfoldable pub add : Fs → Bytes → Bytes → Bytes → Result Bytes × Fs
  add fs username user_email principal = update fs user_email principal (load_policy fs username)
