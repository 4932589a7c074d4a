-- ===== src/Policy/Add/Tests.antt =====
-- A run and an instance of the add command.
use openpubkey.Base.{
  ℕ, msg, Result, ok, err, ◌>>=◌, ◌≡◌, refl, ap, List, [], ◌∷◌, Option, none, some, if◌then◌else◌,
  Bool-cases, inl, inr,
}
use openpubkey.Base.Bytes.{Bytes, str, eqb, eqb_iff, eqb_refl}
use openpubkey.Policy.Entries.{User, Policy, add_allowed_principal, contains, is_empty}
use openpubkey.Policy.Loader.{
  FileSystem, Host, system_default_policy_path, load_policy_at_path, load_system_default_policy,
  dump,
}
use openpubkey.Policy.Loader.Laws.{IsFileSystem, IsYaml}
use openpubkey.Policy.Add.{load_policy, add}
use openpubkey.Policy.Add.Laws.{load-add}

abbrev contents : Option Bytes → Result Bytes
contents none = err (msg "file does not exist")
contents (some b) = ok b

-- every file has mode 0600
abbrev disk : FileSystem (Bytes → Option Bytes)
disk = record {
  stat = λ fs path. contents (fs path) >>= λ b. ok 0o600;
  read_file = λ fs path. contents (fs path);
  write_file = λ fs path b mode. (ok tt, λ p. if eqb path p then some b else fs p);
}

-- An empty text is the empty policy, and any other is the email of one entry that lists root.
abbrev parse_text : Bytes → Result Policy
parse_text [] = ok (record { users = [] })
parse_text (c ∷ b) =
    ok (record { users = record { email = c ∷ b; principals = str "root" ∷ [] } ∷ [] })

abbrev print_user : Bytes → List Bytes → Result Bytes
print_user (c ∷ b) (p ∷ []) =
    if eqb p (str "root") then ok (c ∷ b) else err (msg "unknown principal")
print_user _ _ = err (msg "unknown principal")

abbrev print_users : List User → Result Bytes
print_users [] = ok []
print_users (u ∷ []) = print_user u.email u.principals
print_users (u ∷ v ∷ us) = err (msg "more than one entry")

abbrev host : Host
host = record {
  lookup = λ name. ok (str "/home");
  join_path = λ parts. str "/home/.opk/policy.yml";
  from_yaml = parse_text;
  to_yaml = λ p. print_users p.users;
}

abbrev Disk : Type 0
Disk = Bytes → Option Bytes

mode_of_contents :
    (o : Option Bytes) (old : ℕ)
    → ◌≡◌ {A = Result ℕ} (contents o >>= λ b. ok 0o600) (ok old)
    → ◌≡◌ {A = Result ℕ} (ok 0o600) (ok old)
mode_of_contents none old h = cc h
mode_of_contents (some b) old h = h

disk-IsFileSystem : IsFileSystem disk host
disk-IsFileSystem = record {
  read_back = λ fs fs' path content mode h.
      let eq = ap (λ (t : Result (Unit {0}) × Disk). t.1 path) h in rw (← eq, eqb_refl path) refl;
  keeps_mode = λ fs fs' path content mode old was h.
      let eq = ap (λ (t : Result (Unit {0}) × Disk). t.1 path) h in
      rw (← eq, eqb_refl path) (mode_of_contents (fs path) old was);
}

parse-print_user :
    (email : Bytes) (ps : List Bytes) (content : Bytes)
    → print_user email ps ≡ ok content
    → parse_text content ≡ ok (record { users = record { email = email; principals = ps } ∷ [] })
parse-print_user [] ps content h = cc h
parse-print_user (c ∷ b) [] content h = cc h
parse-print_user (c ∷ b) (p ∷ q ∷ ps) content h = cc h
parse-print_user (c ∷ b) (p ∷ []) content h = elim (Bool-cases (eqb p (str "root"))) [
  | inl root ↦
      let eq : c ∷ b ≡ content = cc (rw root at h) in
      rw (← eq, (eqb_iff p (str "root")).0 root) refl
  | inr differ ↦ absurd (cc (rw differ at h))
]

parse-print_users :
    (us : List User) (content : Bytes)
    → print_users us ≡ ok content
    → parse_text content ≡ ok (record { users = us })
parse-print_users [] content h = let eq : ◌≡◌ {A = Bytes} [] content = cc h in rw (← eq) refl
parse-print_users (u ∷ []) content h = parse-print_user u.email u.principals content h
parse-print_users (u ∷ v ∷ us) content h = cc h

host-IsYaml : IsYaml disk host
host-IsYaml = record { parse_back = λ p content h. parse-print_users p.users content h }

abbrev system_only : Bytes → Option Bytes
system_only path = if eqb path system_default_policy_path then some [] else none

abbrev written : Bytes → Option Bytes
written p = if eqb system_default_policy_path p then some (str "alice") else system_only p

add_run :
    add disk host system_only (str "me") (str "alice") (str "root")
    ≡ (ok system_default_policy_path, written)
unfolding add load_policy load_system_default_policy load_policy_at_path dump add_allowed_principal
    is_empty contains eqb
add_run = refl

load-add_example :
    (before : Policy) × (load_policy_at_path disk host system_only system_default_policy_path
      ≡ ok before)
    × (load_policy_at_path disk host written system_default_policy_path
        ≡ ok (add_allowed_principal (str "root") (str "alice") before))
load-add_example =
    load-add disk host system_only written (str "me") (str "alice") (str "root")
      system_default_policy_path disk-IsFileSystem host-IsYaml add_run
