-- ===== src/Opkssh/Keys/Kept.antt =====
-- Which files a login may change.
use openpubkey.Base.{
  err, panic, none, ap, ◌++◌, Option-cases, ℕ, Result, ok, ◌≡◌, refl, ◌∙◌, List, [], ◌∷◌, some,
  true, false, Bool-cases, inl, inr, ◌⊎◌,
}
use openpubkey.Base.{continue_cases}
use openpubkey.Base.Bytes.{Bytes, str, eqb, eqb_iff, IsIn}
use openpubkey.Base.Assoc.{lookup, lookup-insert_other}
use openpubkey.Opkssh.Keys.{
  File, Disk, System, file_exists, read_file, comment_is_ours, is_ours, write_file, write_keys,
  pubkey_path_of, write_to_first, key_filenames, write_keys_to_ssh_dir,
}

file_exists-some :
    (disk : Disk) (p : Bytes) {f : File} → lookup p disk ≡ some f → file_exists disk p ≡ true
unfolding file_exists
file_exists-some disk p h = rw h refl

file_exists-none : (disk : Disk) (p : Bytes) → file_exists disk p ≡ false → lookup p disk ≡ none
unfolding file_exists
file_exists-none disk p h = elim (Option-cases (lookup p disk)) [
  | inl e ↦ e
  | inr (f, e) ↦ absurd (cc (rw e at h))
]

comment_is_ours-eq : (r : Result Bytes) → comment_is_ours r ≡ true → r ≡ ok (str "openpubkey")
comment_is_ours-eq (ok comment) h = ap ok ((eqb_iff comment (str "openpubkey")).0 h)
comment_is_ours-eq (err e) h = absurd (cc h)
comment_is_ours-eq panic h = absurd (cc h)

module _ (sys : System) where
  write_file_other :
      (p path content : Bytes) (perm : ℕ) (disk : Disk)
      → eqb p path ≡ false
      → lookup p (write_file sys path content perm disk).1 ≡ lookup p disk
  unfolding write_file
  write_file_other p path content perm disk other = elim (Bool-cases (sys.writable path)) [
    | inl e ↦ rw e (lookup-insert_other p path _ disk other)
    | inr e ↦ rw e refl
  ]

  write_keys_other :
      (p sec pub_path pem cert : Bytes) (disk : Disk)
      → eqb p sec ≡ false
      → eqb p pub_path ≡ false
      → lookup p (write_keys sys sec pub_path pem cert disk).1 ≡ lookup p disk
  unfolding write_keys
  write_keys_other p sec pub_path pem cert disk other_sec other_pub =
      continue_cases (λ x. lookup p x.1 ≡ lookup p disk) (write_file sys sec pem 384 disk).0
        (write_file sys sec pem 384 disk).1 _ (λ e. first) first
        (λ a h. write_file_other p pub_path _ 511 _ other_pub ∙ first)
    where
      first : lookup p (write_file sys sec pem 384 disk).1 ≡ lookup p disk
      first = write_file_other p sec pem 384 disk other_sec

  -- The file of a public key that a login has written: it can be read, and its comment says so.
  pub record IsMarked (disk : Disk) (pubkey_path : Bytes) : Type 0 where
    pub file : File
    pub there : lookup pubkey_path disk ≡ some file
    pub readable : sys.readable pubkey_path ≡ true
    pub comment : sys.comment_of file.content ≡ ok (str "openpubkey")

  is_ours-IsMarked :
      (disk : Disk) (pubkey_path : Bytes)
      → is_ours sys disk pubkey_path ≡ true
      → IsMarked disk pubkey_path
  unfolding is_ours read_file
  is_ours-IsMarked disk pubkey_path h = elim (Bool-cases (sys.readable pubkey_path)) [
    | inr e ↦ absurd (cc (rw e at h))
    | inl e ↦ elim (Option-cases (lookup pubkey_path disk)) [
      | inl f ↦ absurd (cc (rw (e, f) at h))
      | inr (file, f) ↦ record {
        file = file;
        there = f;
        readable = e;
        comment = comment_is_ours-eq (sys.comment_of file.content) (rw (e, f) at h);
      }
    ]
  ]

  -- A file that the loop over these names may change: the secret key of one of them, where its public
  -- key has the comment of a login, or its public key, where it has that comment or there is no secret
  -- key.
  pub record MayChange (ssh_path : Bytes) (names : List Bytes) (disk : Disk) (p : Bytes)
      : Type 0 where
    pub name : Bytes
    pub listed : IsIn name names
    pub change :
        ((p ≡ sys.join ssh_path name) × IsMarked disk (sys.join ssh_path name ++ str ".pub"))
        ⊎ ((p ≡ sys.join ssh_path name ++ str ".pub")
            × ((lookup (sys.join ssh_path name) disk ≡ none)
                ⊎ IsMarked disk (sys.join ssh_path name ++ str ".pub")))

  -- the two ways of a file that was there
  abbrev pub Ends : Bytes → List Bytes → Disk → Bytes → Disk → Type 0
  Ends ssh_path names disk p after =
      (lookup p after ≡ lookup p disk) ⊎ MayChange ssh_path names disk p

  write_keys-Ends :
      (ssh_path pem cert name : Bytes) (names : List Bytes) (disk : Disk) (p : Bytes)
      → (p ≡ sys.join ssh_path name → IsMarked disk (sys.join ssh_path name ++ str ".pub"))
      → ((lookup (sys.join ssh_path name) disk ≡ none)
          ⊎ IsMarked disk (sys.join ssh_path name ++ str ".pub"))
      → Ends ssh_path
          (name ∷ names)
          disk
          p
          (write_keys sys
            (sys.join ssh_path name)
            (pubkey_path_of sys (sys.join ssh_path name))
            pem
            cert
            disk).1
  write_keys-Ends ssh_path pem cert name names disk p ours free =
      let sec = sys.join ssh_path name in
      let pub_path = pubkey_path_of sys sec in
      elim (Bool-cases (eqb p sec)) [
        | inl e ↦
            let same = (eqb_iff p sec).0 e in
            inr (record { name = name; listed = inl refl; change = inl (same, ours same) })
        | inr e ↦ elim (Bool-cases (eqb p pub_path)) [
          | inl f ↦ inr (record {
            name = name;
            listed = inl refl;
            change = inr ((eqb_iff p pub_path).0 f, free);
          })
          | inr f ↦ inl (write_keys_other p sec pub_path pem cert disk e f)
        ]
      ]

  weaken :
      (after : Disk) {ssh_path name : Bytes} {names : List Bytes} {disk : Disk} {p : Bytes}
      → Ends ssh_path names disk p after
      → Ends ssh_path (name ∷ names) disk p after
  weaken after (inl same) = inl same
  weaken after (inr c) = inr (record { name = c.name; listed = inr c.listed; change = c.change })

  write_to_first-Ends :
      (ssh_path pem cert : Bytes) (names : List Bytes) (disk : Disk) (p : Bytes) {f : File}
      → lookup p disk ≡ some f
      → Ends ssh_path names disk p (write_to_first sys ssh_path pem cert names disk).1
  unfolding write_to_first
  write_to_first-Ends ssh_path pem cert [] disk p there = inl refl
  write_to_first-Ends ssh_path pem cert (name ∷ names) disk p there =
      let sec = sys.join ssh_path name in
      let pub_path = pubkey_path_of sys sec in
      let rest = write_to_first-Ends ssh_path pem cert names disk p there in
      elim (Bool-cases (file_exists disk sec)) [
        | inr e ↦ rw e (
            write_keys-Ends ssh_path pem cert name names disk p
              (λ same. absurd (cc (e, file_exists-some disk p there, same)))
              (inl (file_exists-none disk sec e)))
        | inl e ↦ elim (Bool-cases (file_exists disk pub_path)) [
          | inr f ↦ rw (e, f) (weaken _ rest)
          | inl f ↦ elim (Bool-cases (is_ours sys disk pub_path)) [
            | inl g ↦
                rw (e, f, g)
                  (write_keys-Ends ssh_path pem cert name names disk p
                    (λ same. is_ours-IsMarked disk pub_path g)
                    (inr (is_ours-IsMarked disk pub_path g)))
            | inr g ↦ rw (e, f, g) (weaken _ rest)
          ]
        ]
      ]

  -- A login leaves every file that was there as it was, whether it succeeds or fails, but for the key
  -- files of the names id_ecdsa and id_dsa in the directory .ssh of the user's home: a secret key is
  -- changed only where its public key can be read and has the comment of a login, and a public key
  -- only where it has that comment or there is no secret key beside it.
  pub write_keys_to_ssh_dir-MayChange :
      (pem cert : Bytes) (disk : Disk) (p : Bytes) {f : File}
      → lookup p disk ≡ some f
      → (lookup p (write_keys_to_ssh_dir sys pem cert disk).1 ≡ lookup p disk)
        ⊎ ((home : Bytes) × (sys.user_home_dir ≡ ok home)
            × MayChange (sys.join home (str ".ssh")) key_filenames disk p)
  unfolding write_keys_to_ssh_dir
  write_keys_to_ssh_dir-MayChange pem cert disk p there =
      continue_cases Left sys.user_home_dir disk _ (λ e. inl refl) (inl refl)
        (λ home found.
          continue_cases Left (sys.mkdir_all (sys.join home (str ".ssh"))) disk _ (λ e. inl refl)
            (inl refl)
            (λ a made.
              at_home home
                (write_to_first sys (sys.join home (str ".ssh")) pem cert key_filenames disk) found
                (write_to_first-Ends (sys.join home (str ".ssh")) pem cert key_filenames disk p
                  there)))
    where
      Left : Result (Unit {0}) × Disk → Type 0
      Left x =
          (lookup p x.1 ≡ lookup p disk)
          ⊎ ((home : Bytes) × (sys.user_home_dir ≡ ok home)
              × MayChange (sys.join home (str ".ssh")) key_filenames disk p)

      at_home :
          (home : Bytes) (x : Result (Unit {0}) × Disk)
          → sys.user_home_dir ≡ ok home
          → Ends (sys.join home (str ".ssh")) key_filenames disk p x.1
          → Left x
      at_home home x found (inl same) = inl same
      at_home home x found (inr c) = inr (home, found, c)
