-- ===== src/Aof/Restart.antt =====
-- The file that Init creates and the file that GetActiveIncrementalFile opens, over restarts of the
-- server.
use redis_in_go.Prelude.{
  ◌≡◌, refl, ◌++◌, false, List, [], ◌∷◌, none, some, arith, if◌then◌else◌, ap, ◌∙◌,
}
use redis_in_go.Text.{Bytes, codes, str_eq, str_eq_iff}
use redis_in_go.Text.Scan.{Spaceless}
use redis_in_go.Table
use redis_in_go.Table.{Table, get, put, get_or, get-put_self, get-put_ne, get-put}
use redis_in_go.Aof.Manifest.{named_file-manifest_line}
use redis_in_go.Aof.{
  Call, mkdir_all, open_file, open_to_read, stat, create, write_string, Disk, opened_files,
  open_or_create, options, manifest_line, write_manifest, make_manifest, create_files, init,
  named_file, read_manifest, active_file_name, active_file,
}

-- No call fails.
abbrev pub Works : Disk → Type 0
Works disk = (c : Call) (path : Bytes) → disk.fails c path ≡ false

open_or_create-Works :
    (path : Bytes) (disk : Disk)
    → Works disk
    → open_or_create path disk ≡ some (record disk { files = opened_files path disk.files })
unfolding open_or_create
open_or_create-Works path disk h = rw (h open_file path) refl

make_manifest-fresh :
    (path name : Bytes) (disk : Disk)
    → Works disk
    → get disk.files path ≡ none
    → make_manifest path name disk
      ≡ record disk { files = put disk.files path (manifest_line name) }
unfolding make_manifest write_manifest
make_manifest-fresh path name disk h e =
    rw (h stat path, e, h create path, h write_string path) refl

make_manifest-present :
    (path name line : Bytes) (disk : Disk)
    → Works disk
    → get disk.files path ≡ some line
    → make_manifest path name disk ≡ disk
unfolding make_manifest
make_manifest-present path name line disk h e = rw (h stat path, e) refl

get-opened_files :
    (path other : Bytes) (files : Table Bytes)
    → get (opened_files path files) other
      ≡ (if str_eq path other then some (get_or files path []) else get files other)
unfolding opened_files get_or
get-opened_files path other files =
    ground (arith, get-put files path other [], str_eq_iff path other)

opened_files-present :
    (path v : Bytes) (files : Table Bytes)
    → get files path ≡ some v
    → opened_files path files ≡ files
unfolding opened_files
opened_files-present path v files e = ground (arith, e)

read_manifest-present :
    (path text : Bytes) (disk : Disk)
    → Works disk
    → get disk.files path ≡ some text
    → read_manifest path disk ≡ named_file text
unfolding read_manifest
read_manifest-present path text disk h e = rw (h open_to_read path, e) refl

module _ (join : List Bytes → Bytes) (work_dir dir name appendfsync : Bytes) where
  abbrev pub log_path : Bytes
  log_path = join (work_dir ∷ dir ∷ (name ++ codes ".1.incr.aof") ∷ [])

  abbrev pub manifest_path : Bytes
  manifest_path = join (work_dir ∷ dir ∷ (name ++ codes ".manifest") ∷ [])

  abbrev pub started : Disk → Table Bytes × Disk
  started = init join work_dir (codes "yes") dir name appendfsync

  abbrev pub with_log : Bytes → Disk → Disk
  with_log log disk = record disk { files = Table.put disk.files log_path log }

  IsInstalled : Disk → Bytes → Type 0
  IsInstalled disk log =
      (get disk.files manifest_path ≡ some (manifest_line name))
      × (get disk.files log_path ≡ some log)

  module _
      (flat : (a b c : Bytes) → join (join (a ∷ b ∷ []) ∷ c ∷ []) ≡ join (a ∷ b ∷ c ∷ [])) where
    create_files-Works :
        (disk : Disk)
        → Works disk
        → create_files join work_dir (join (work_dir ∷ dir ∷ [])) name disk
          ≡ make_manifest manifest_path name
              (record disk { files = opened_files log_path disk.files })
    unfolding create_files
    create_files-Works disk h =
        rw
          (
            h mkdir_all (join (work_dir ∷ dir ∷ [])),
            flat work_dir dir (name ++ codes ".1.incr.aof"),
            h open_file log_path,
          )
          (ap
            (λ path.
              make_manifest path name (record disk { files = opened_files log_path disk.files }))
            (flat work_dir dir (name ++ codes ".manifest")))

    started-Works :
        (disk : Disk)
        → Works disk
        → (started disk).1
          ≡ make_manifest manifest_path name
              (record disk { files = opened_files log_path disk.files })
    unfolding init options get put get_or str_eq
    started-Works disk h = create_files-Works disk h

    started-fresh :
        (disk : Disk)
        → Works disk
        → str_eq log_path manifest_path ≡ false
        → get disk.files manifest_path ≡ none
        → (started disk).1 ≡ record disk {
          files = put (opened_files log_path disk.files) manifest_path (manifest_line name);
        }
    started-fresh disk h ne fresh =
        started-Works disk h
        ∙ make_manifest-fresh manifest_path name _ h
            (rw (get-opened_files log_path manifest_path disk.files, ne) fresh)

    started-present :
        (disk : Disk) (log : Bytes)
        → Works disk
        → get disk.files manifest_path ≡ some (manifest_line name)
        → get disk.files log_path ≡ some log
        → (started disk).1 ≡ disk
    started-present disk log h m l =
        started-Works disk h
        ∙ ap (λ files. make_manifest manifest_path name (record disk { files = files }))
            (opened_files-present log_path log disk.files l)
        ∙ make_manifest-present manifest_path name (manifest_line name) disk h m

    active_file_name-present :
        (disk other : Disk)
        → Works disk
        → Spaceless name
        → get disk.files manifest_path ≡ some (manifest_line name)
        → active_file_name join work_dir (started other).0 disk ≡ name ++ codes ".1.incr.aof"
    unfolding init options active_file_name get put str_eq
    active_file_name-present disk other h plain m =
        read_manifest-present manifest_path (manifest_line name) disk h m
        ∙ named_file-manifest_line name plain

    active_file-named :
        (info : Table Bytes) (disk : Disk) (log : Bytes)
        → Works disk
        → get info (codes "appenddirname") ≡ some dir
        → active_file_name join work_dir info disk ≡ name ++ codes ".1.incr.aof"
        → get disk.files log_path ≡ some log
        → active_file join work_dir info disk ≡ some (log_path, disk)
    unfolding active_file
    active_file-named info disk log h d n l =
        rw (d, n, h open_file log_path, opened_files-present log_path log disk.files l, active_file)
          (ap (λ file. some (join (work_dir ∷ dir ∷ file ∷ []), disk)) n)

    active_file-present :
        (disk other : Disk) (log : Bytes)
        → Works disk
        → Spaceless name
        → get disk.files manifest_path ≡ some (manifest_line name)
        → get disk.files log_path ≡ some log
        → active_file join work_dir (started other).0 disk ≡ some (log_path, disk)
    unfolding init options get put str_eq
    active_file-present disk other log h plain m l =
        active_file-named (started other).0 disk log h refl
          (active_file_name-present disk other h plain m) l

    -- Once a server has been started on a file system without its manifest, and its log has been
    -- written, a restart changes no file, and the log that is opened is the one that was written. No
    -- call of the operating system fails, the name has no blanks, the log and the manifest have
    -- different paths, and a path can be joined in two steps.
    pub restart_keeps_log :
        (disk : Disk) (log : Bytes)
        → Works disk
        → Spaceless name
        → str_eq log_path manifest_path ≡ false
        → get disk.files manifest_path ≡ none
        → (((started (with_log log (started disk).1)).1 ≡ with_log log (started disk).1)
            × (active_file join work_dir (started disk).0 (with_log log (started disk).1)
                ≡ some (log_path, with_log log (started disk).1)))
    restart_keeps_log disk log h plain ne fresh =
        let files = put (opened_files log_path disk.files) manifest_path (manifest_line name) in
        let m =
          get-put_ne files log_path manifest_path log ne
          ∙ get-put_self (opened_files log_path disk.files) manifest_path (manifest_line name) in
        let l = get-put_self files log_path log in
        rw (started-fresh disk h ne fresh) (
          started-present (record disk { files = put files log_path log }) log h m l,
          active_file-present (record disk { files = put files log_path log }) disk log h plain m l,
        )
