-- ===== src/TtlCache/SaveFile.antt =====
-- internal/ttlcache/snapshot.go: `SaveJSONFile` and `LoadJSONFile` over the two names that they
-- touch. Which system calls fail is an argument; other processes do not act in between.
use imagelet.Base.{
  ◌≡◌, ◌≢◌, ◌⊎◌, Bool, false, Option, none, some, arith, if◌then◌else◌, inl, inr, Option-cases,
}

-- What a directory entry holds; `C` is a file's content.
pub data Node (C : Type 0) : Type 0 where
  absent : Node C
  file : C → Node C
  symlink : Node C

pub record Disk (C : Type 0) : Type 0 where
  pub target : Node C
  pub tmp : Node C

-- The system calls that fail.
pub record Faults : Type 0 where
  pub mkdir : Bool
  pub open_tmp : Bool
  pub encode : Bool
  pub close : Bool
  pub lstat : Bool
  pub rename : Bool
  pub remove : Bool

pub data SaveError : Type 0 where
  mkdir_failed open_failed encode_failed close_failed over_symlink lstat_failed rename_failed :
      SaveError

module _ {C : Type 0} where
  -- `_ = os.Remove(tmp)`
  discard_tmp : Faults → Disk C → Disk C
  discard_tmp f d = if f.remove then d else record d { tmp = absent }

  -- from the rename on
  rename_tmp : Faults → C → Disk C → Disk C × Option SaveError
  unfolding discard_tmp
  rename_tmp f full d =
      if f.rename
      then (discard_tmp f d, some rename_failed)
      else (record { target = file full; tmp = absent }, none)

  -- from the check of the target on
  check_target : Faults → C → Disk C → Disk C × Option SaveError
  unfolding rename_tmp discard_tmp
  check_target f full d = if f.lstat then (discard_tmp f d, some lstat_failed) else elim d.target [
    | absent ↦ rename_tmp f full d
    | file _ ↦ rename_tmp f full d
    | symlink ↦ (discard_tmp f d, some over_symlink)
  ]

  -- from the opened, still empty file on; `partial` is what a failed write left in it
  write_tmp : Faults → C → C → Disk C → Disk C × Option SaveError
  unfolding check_target discard_tmp
  write_tmp f partial full d =
      if f.encode
      then (discard_tmp f (record d { tmp = file partial }), some encode_failed)
      else if f.close
      then (discard_tmp f (record d { tmp = file full }), some close_failed)
      else check_target f full (record d { tmp = file full })

  -- `O_EXCL` refuses any entry that is there, `O_NOFOLLOW` a symbolic link.
  unfoldable pub save_json_file : Faults → C → C → Disk C → Disk C × Option SaveError
  unfolding write_tmp
  save_json_file f partial full d =
      if f.mkdir
      then (d, some mkdir_failed)
      else if f.open_tmp
      then (d, some open_failed)
      else elim d.tmp [
        | absent ↦ write_tmp f partial full d
        | file _ ↦ (d, some open_failed)
        | symlink ↦ (d, some open_failed)
      ]

  -- A save that reports success has put the whole snapshot under the target's name and has left no
  -- temporary file; a save that reports an error has left the target as it was, and a target that
  -- is a symbolic link is always an error.
  pub save_json_file-atomic :
      (f : Faults) (partial full : C) (d : Disk C)
      → (((save_json_file f partial full d).1 ≡ none)
          × ((save_json_file f partial full d).0 ≡ record { target = file full; tmp = absent })
          × (d.target ≢ symlink))
        ⊎ (((save_json_file f partial full d).1 ≢ none)
            × ((save_json_file f partial full d).0.target ≡ d.target))
  unfolding save_json_file
  save_json_file-atomic f partial full d = elim (Option-cases (save_json_file f partial full d).1) [
    | inl e ↦ inl (e, ground arith, ground arith)
    | inr (x, e) ↦ inr (ground arith, ground arith)
  ]

  -- With no temporary file before, and removal working, none is left on any branch.
  pub save_json_file_tidy :
      (f : Faults) (partial full : C) (d : Disk C)
      → d.tmp ≡ absent
      → f.remove ≡ false
      → (save_json_file f partial full d).0.tmp ≡ absent
  unfolding save_json_file
  save_json_file_tidy f partial full d e r = ground arith

  -- A temporary file that is already there makes every save an error that changes nothing.
  pub save_json_file_blocked :
      (f : Faults) (partial full : C) (d : Disk C)
      → d.tmp ≢ absent
      → ((save_json_file f partial full d).1 ≢ none) × ((save_json_file f partial full d).0 ≡ d)
  unfolding save_json_file
  save_json_file_blocked f partial full d e = ground arith
