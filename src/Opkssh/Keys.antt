-- ===== src/Opkssh/Keys.antt =====
-- opkssh/commands/login.go: the key files that a login writes.
pub mod Kept
mod Tests
use openpubkey.Base.{
  required, required-eq-ok, ok_inj, ℕ, zero, suc, ◌+◌, ◌-◌, ◌*◌, ◌/◌, ◌%◌, ◌^◌, ◌≤◌, ◌<◌, String,
  Error, msg, wrapped, joined, permission, Result, ok, err, panic, require, wrap_err, is_permission,
  bind-eq-ok, bind_ok, wrap_err-eq-ok, require-eq-ok, continue, continue-keeps, continue-eq-ok,
  ◌>>=◌, ◌>>◌, ◌≡◌, ◌≢◌, refl, sym, ◌∙◌, ap, List, [], ◌∷◌, ◌++◌, map, arith, Option, none, some,
  Bool, true, false, ◌||◌, ◌&&◌, not, ltb, leb, ◌==◌, if◌then◌else◌, length, length-append,
  get_elem?, All, Bool-cases, Option-cases, inl, inr, ◌⊎◌, ◌↔◌, ==_iff, ltb→lt,
}
use openpubkey.Base.Bytes.{Bytes, str, eqb}
use openpubkey.Base.Assoc.{lookup, insert}

pub record File : Type 0 where
  pub content : Bytes
  pub mode : ℕ

-- The files on the disk, by their paths.
abbrev pub Disk : Type 0
Disk = List (Bytes × File)

-- What is asked of the system beside the files: the home directory, the directory made, two parts of
-- a path joined, whether a file may be read or written, the comment of `ssh.ParseAuthorizedKey`, and
-- what the umask leaves of a mode.
pub record System : Type 0 where
  pub user_home_dir : Result Bytes
  pub mkdir_all : Bytes → Result (Unit {0})
  pub join : Bytes → Bytes → Bytes
  pub readable : Bytes → Bool
  pub writable : Bytes → Bool
  pub comment_of : Bytes → Result Bytes
  pub masked : ℕ → ℕ

abbrev is_there : Option File → Bool
is_there none = false
is_there (some f) = true

-- fileExists: `os.Open` says that there is no such file.
unfoldable pub file_exists : Disk → Bytes → Bool
file_exists disk path = is_there (lookup path disk)

-- the mode of a file that is written: that of the file that was there, or else the one that is given
abbrev mode_of : ℕ → Option File → ℕ
mode_of perm none = perm
mode_of perm (some f) = f.mode

abbrev content_of : Option File → Result Bytes
content_of none = err (msg "file does not exist")
content_of (some f) = ok f.content

abbrev pub comment_is_ours : Result Bytes → Bool
comment_is_ours (ok comment) = eqb comment (str "openpubkey")
comment_is_ours (err e) = false
comment_is_ours panic = false

-- the files that `ssh` looks for
abbrev pub key_filenames : List Bytes
key_filenames = str "id_ecdsa" ∷ str "id_dsa" ∷ []

module _ (sys : System) where
  -- `os.ReadFile`
  unfoldable pub read_file : Disk → Bytes → Result Bytes
  read_file disk path = if sys.readable path then content_of (lookup path disk) else err permission

  -- `os.WriteFile`; one that fails leaves the file.
  unfoldable pub write_file : Bytes → Bytes → ℕ → Disk → Result (Unit {0}) × Disk
  write_file path data_bytes perm disk =
      if sys.writable path
      then (
        ok tt,
        insert path
            (record { content = data_bytes; mode = mode_of (sys.masked perm) (lookup path disk) })
            disk,
      )
      else (err permission, disk)

  -- the public key is one that a login has written
  unfoldable pub is_ours : Disk → Bytes → Bool
  is_ours disk pubkey_path = comment_is_ours (read_file disk pubkey_path >>= sys.comment_of)

  -- writeKeys; the modes are 0600 and 0777
  unfoldable pub write_keys : Bytes → Bytes → Bytes → Bytes → Disk → Result (Unit {0}) × Disk
  write_keys seckey_path pubkey_path seckey_ssh_pem cert_bytes disk =
      continue (write_file seckey_path seckey_ssh_pem 384 disk)
        λ _ disk1. write_file pubkey_path (cert_bytes ++ str " openpubkey") 511 disk1

  abbrev pub pubkey_path_of : Bytes → Bytes
  pubkey_path_of seckey_path = seckey_path ++ str ".pub"

  -- the loop over the names
  unfoldable pub write_to_first :
      Bytes → Bytes → Bytes → List Bytes → Disk → Result (Unit {0}) × Disk
  write_to_first ssh_path seckey_ssh_pem cert_bytes [] disk =
      (err (msg "no default ssh key file free for openpubkey"), disk)
  write_to_first ssh_path seckey_ssh_pem cert_bytes (key_filename ∷ names) disk =
      let rest = write_to_first ssh_path seckey_ssh_pem cert_bytes names disk in
      let seckey_path = sys.join ssh_path key_filename in
      let pubkey_path = pubkey_path_of seckey_path in
      if not (file_exists disk seckey_path)
      then write_keys seckey_path pubkey_path seckey_ssh_pem cert_bytes disk
      else if not (file_exists disk pubkey_path)
      then rest
      else if is_ours disk pubkey_path
      then write_keys seckey_path pubkey_path seckey_ssh_pem cert_bytes disk
      else rest

  -- writeKeysToSSHDir
  unfoldable pub write_keys_to_ssh_dir : Bytes → Bytes → Disk → Result (Unit {0}) × Disk
  write_keys_to_ssh_dir seckey_ssh_pem cert_bytes disk =
      continue (sys.user_home_dir, disk)
        λ home_path disk1.
          let ssh_path = sys.join home_path (str ".ssh") in
          continue (sys.mkdir_all ssh_path, disk1)
            λ _ disk2. write_to_first ssh_path seckey_ssh_pem cert_bytes key_filenames disk2
