-- ===== src/Opkssh/Keys/Tests.antt =====
-- Runs and instances of the key files of a login.
use openpubkey.Base.{if◌then◌else◌, ◌==◌, ok, ◌≡◌, refl, [], ◌∷◌, ◌++◌, some, true, ◌⊎◌}
use openpubkey.Base.Bytes.{Bytes, str, eqb}
use openpubkey.Base.Assoc.{lookup, insert}
use openpubkey.Opkssh.Keys.{
  File, Disk, System, file_exists, read_file, write_file, is_ours, write_keys, write_to_first,
  key_filenames, write_keys_to_ssh_dir,
}
use openpubkey.Opkssh.Keys.Kept.{MayChange, write_keys_to_ssh_dir-MayChange}

-- A public key file holds its comment.
abbrev system : System
system = record {
  user_home_dir = ok (str "h");
  mkdir_all = λ path. ok tt;
  join = λ a b. a ++ str "/" ++ b;
  readable = λ path. true;
  writable = λ path. true;
  comment_of = λ line. ok line;
  masked = λ mode. if mode == 511 then 493 else mode;
}

abbrev file : Bytes → File
file content = record { content = content; mode = 384 }

-- a user with keys of their own under the first name
abbrev with_keys : Bytes → Disk
with_keys comment =
    (str "h/.ssh/id_ecdsa", file (str "key")) ∷ (str "h/.ssh/id_ecdsa.pub", file comment) ∷ []

-- The keys of the user stay, and the login takes the second name.
second_run : write_keys_to_ssh_dir system (str "s") (str "c") (with_keys (str "me")) ≡ (
  ok tt,
  with_keys (str "me")
      ++ (str "h/.ssh/id_dsa", file (str "s"))
        ∷ (str "h/.ssh/id_dsa.pub", record { content = str "c openpubkey"; mode = 493 })
        ∷ [],
)
unfolding write_keys_to_ssh_dir write_to_first write_keys write_file is_ours read_file file_exists
    lookup insert eqb
second_run = refl

-- Keys of an earlier login are replaced.
replaced_run :
    lookup
      (str "h/.ssh/id_ecdsa")
      (write_keys_to_ssh_dir system (str "s") (str "c") (with_keys (str "openpubkey"))).1
    ≡ some (file (str "s"))
unfolding write_keys_to_ssh_dir write_to_first write_keys write_file is_ours read_file file_exists
    lookup insert eqb
replaced_run = refl

-- A public key without a secret key beside it is overwritten, whoever made it.
lone_run :
    lookup
      (str "h/.ssh/id_ecdsa.pub")
      (write_keys_to_ssh_dir system
        (str "s")
        (str "c")
        ((str "h/.ssh/id_ecdsa.pub", file (str "me")) ∷ [])).1
    ≡ some (file (str "c openpubkey"))
unfolding write_keys_to_ssh_dir write_to_first write_keys write_file is_ours read_file file_exists
    lookup insert eqb
lone_run = refl

key_there : lookup (str "h/.ssh/id_ecdsa") (with_keys (str "me")) ≡ some (file (str "key"))
unfolding lookup eqb
key_there = refl

write_keys_to_ssh_dir-MayChange_example :
    (lookup
        (str "h/.ssh/id_ecdsa")
        (write_keys_to_ssh_dir system (str "s") (str "c") (with_keys (str "me"))).1
      ≡ lookup (str "h/.ssh/id_ecdsa") (with_keys (str "me")))
    ⊎ ((home : Bytes) × (ok (str "h") ≡ ok home)
        × MayChange system
            (system.join home (str ".ssh"))
            key_filenames
            (with_keys (str "me"))
            (str "h/.ssh/id_ecdsa"))
write_keys_to_ssh_dir-MayChange_example =
    write_keys_to_ssh_dir-MayChange system (str "s") (str "c") (with_keys (str "me"))
      (str "h/.ssh/id_ecdsa") key_there
