-- ===== src/Policy/Loader/Tests.antt =====
-- A host and a file system on which the loading of policies runs.
use openpubkey.Base.{
  msg, Result, ok, err, ◌>>=◌, ◌≡◌, refl, [], ◌∷◌, Option, none, some, if◌then◌else◌, inl, ◌⊎◌,
}
use openpubkey.Base.Bytes.{Bytes, str, eqb}
use openpubkey.Policy.Entries.{Policy, contains}
use openpubkey.Policy.Entries.Laws.{Allowed}
use openpubkey.Policy.Loader.{
  FileSystem, Host, system_default_policy_path, load_policy_at_path, load_system_default_policy,
  load_user_policy, load,
}
use openpubkey.Policy.Loader.Laws.{IsRead, user_path, Allowed-load}

-- every file has mode 0600, and a missing one is an error
abbrev contents : Option Bytes → Result Bytes
contents none = err (msg "file does not exist")
contents (some b) = ok b

abbrev disk : FileSystem (Bytes → Option Bytes)
disk = record {
  stat = λ fs path. contents (fs path) >>= λ b. ok 0o600;
  read_file = λ fs path. contents (fs path);
  write_file = λ fs path b mode. (ok tt, λ p. if eqb path p then some b else fs p);
}

-- A text is the email of one entry that lists root and dev.
abbrev parse_text : Bytes → Result Policy
parse_text b =
    ok (record { users = record { email = b; principals = str "root" ∷ str "dev" ∷ [] } ∷ [] })

abbrev host : Host
host = record {
  lookup = λ name. ok (str "/home");
  join_path = λ parts. str "/home/.opk/policy.yml";
  from_yaml = parse_text;
  to_yaml = λ p. err (msg "read only");
}

abbrev user_file : Bytes → Option Bytes
user_file path = if eqb path (str "/home/.opk/policy.yml") then some (str "alice") else none

-- The entry for root is taken out of the policy of dev.
abbrev merged : Policy × Bytes
merged = (
  record { users = record { email = str "alice"; principals = str "dev" ∷ [] } ∷ [] },
  str "/home/.opk/policy.yml",
)

load_run : load disk host user_file (str "dev") ≡ ok merged
unfolding load load_system_default_policy load_user_policy load_policy_at_path contains eqb
load_run = refl

Allowed-load_example :
    ((root : Policy) × IsRead disk host user_file system_default_policy_path root
      × Allowed (str "alice") (str "dev") root.users)
    ⊎ ((home : Bytes) × (file : Policy) × (host.lookup (str "dev") ≡ ok home)
        × IsRead disk host user_file (user_path disk host home) file
        × (str "dev" ≡ str "dev")
        × Allowed (str "alice") (str "dev") file.users)
Allowed-load_example =
    Allowed-load disk host user_file (str "dev") merged (str "alice") (str "dev") load_run
      (inl (refl, inl refl))
