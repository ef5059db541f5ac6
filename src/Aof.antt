-- ===== src/Aof.antt =====
-- internal/aof/aof.go. A file system is a map from paths to contents with the calls that fail; the
-- file that a call of the package opens is its path. filepath.Join is an argument.
pub mod Manifest
pub mod Restart
use redis_in_go.Prelude.{
  ℕ, ◌+◌, ◌≤◌, ◌<◌, ◌++◌, Bool, true, false, ◌||◌, List, [], ◌∷◌, Option, none, some, ◌==◌,
  if◌then◌else◌,
}
use redis_in_go.Text.{Bytes, codes, str_eq}
use redis_in_go.Text.Scan.{has_substring, fields}
use redis_in_go.Table
use redis_in_go.Table.{Table, empty, get, get_or}

-- The functions of Go's `os` and of its File that the package calls.
pub data Call : Type 0 where
  mkdir_all open_file open_to_read stat create write_string : Call

pub record Disk : Type 0 where
  pub files : Table Bytes
  pub fails : Call → Bytes → Bool

-- what os.OpenFile with O_CREATE makes of the files
unfoldable pub opened_files : Bytes → Table Bytes → Table Bytes
opened_files path files = elim (get files path) [ none ↦ Table.put files path [] | some _ ↦ files ]

-- os.OpenFile with O_CREATE
unfoldable pub open_or_create : Bytes → Disk → Option Disk
unfolding opened_files
open_or_create path disk =
    if disk.fails open_file path
    then none
    else some (record disk { files = opened_files path disk.files })

-- The keys of AOFInfo.
unfoldable pub options : Bytes → Bytes → Bytes → Bytes → Table Bytes
options appendonly appenddirname appendfilename appendfsync =
    Table.put
      (Table.put
        (Table.put (Table.put empty (codes "appendonly") appendonly) (codes "appenddirname")
          appenddirname)
        (codes "appendfilename") appendfilename)
      (codes "appendfsync") appendfsync

unfoldable pub config_get : Bytes → Table Bytes → Option Bytes
config_get option info = get info option

unfoldable pub manifest_line : Bytes → Bytes
manifest_line name =
    codes "file " ++ ((name ++ codes ".1.incr.aof") ++ (codes " seq 1" ++ codes " type i"))

unfoldable pub write_manifest : Bytes → Bytes → Disk → Disk
unfolding manifest_line
write_manifest path name disk =
    if disk.fails create path
    then disk
    else (if disk.fails write_string path
        then record disk { files = Table.put disk.files path [] }
        else record disk { files = Table.put disk.files path (manifest_line name) })

-- os.Stat reports that no file stands there
unfoldable pub make_manifest : Bytes → Bytes → Disk → Disk
unfolding write_manifest
make_manifest path name disk =
    if disk.fails stat path
    then disk
    else (elim (get disk.files path) [ none ↦ write_manifest path name disk | some _ ↦ disk ])

unfoldable pub second_field : List Bytes → Option Bytes
second_field (first ∷ second ∷ _) = if str_eq first (codes "file") then some second else none
second_field _ = none

unfoldable pub extract_file_name : Bytes → Option Bytes
unfolding second_field
extract_file_name line = second_field (fields line)

-- The loop over the lines; `line` is what ReadString has read so far. The result is empty if no
-- line is found.
unfoldable pub target_line : Bytes → Bytes → Bytes
target_line [] line = if has_substring line (codes "type i") then line else []
target_line (c ∷ text) line = elim (c == 10) [
  | true ↦ (elim (has_substring (line ++ c ∷ []) (codes "type i")) [
    | true ↦ line ++ c ∷ []
    | false ↦ target_line text []
  ])
  | false ↦ target_line text (line ++ c ∷ [])
]

unfoldable pub name_on : Bytes → Bytes
unfolding extract_file_name
name_on [] = []
name_on (c ∷ line) = elim (extract_file_name (c ∷ line)) [ none ↦ [] | some name ↦ name ]

-- What the manifest names; the empty text stands for no file.
unfoldable pub named_file : Bytes → Bytes
unfolding target_line name_on
named_file text = name_on (target_line text [])

unfoldable pub read_manifest : Bytes → Disk → Bytes
unfolding named_file
read_manifest path disk =
    if disk.fails open_to_read path
    then []
    else (elim (get disk.files path) [ none ↦ [] | some text ↦ named_file text ])

-- info.WorkDir is an argument.
module _ (join : List Bytes → Bytes) (work_dir : Bytes) where
  unfoldable pub create_files : Bytes → Bytes → Disk → Disk
  unfolding open_or_create make_manifest
  create_files dir name disk =
      if disk.fails mkdir_all dir
      then disk
      else (elim (open_or_create (join (dir ∷ (name ++ codes ".1.incr.aof") ∷ [])) disk) [
        | none ↦ disk
        | some opened ↦ make_manifest (join (dir ∷ (name ++ codes ".manifest") ∷ [])) name opened
      ])

  unfoldable pub init : Bytes → Bytes → Bytes → Bytes → Disk → Table Bytes × Disk
  unfolding options create_files
  init appendonly appenddirname appendfilename appendfsync disk =
      let info = options appendonly appenddirname appendfilename appendfsync in
      let dir =
        join (work_dir ∷ get_or info (codes "appenddirname") (codes "appendonlydir") ∷ []) in
      let name = get_or info (codes "appendfilename") (codes "appendonly") in
      (
        info,
        if str_eq (get_or info (codes "appendonly") []) (codes "yes")
            then create_files dir name disk
            else disk,
      )

  unfoldable pub active_file_name : Table Bytes → Disk → Bytes
  unfolding read_manifest
  active_file_name info disk = elim (get info (codes "appenddirname")) [
    | none ↦ []
    | some dir ↦ (elim (get info (codes "appendfilename")) [
      | none ↦ []
      | some name ↦ read_manifest (join (work_dir ∷ dir ∷ (name ++ codes ".manifest") ∷ [])) disk
    ])
  ]

  -- The path of the file that is opened.
  unfoldable pub active_file : Table Bytes → Disk → Option (Bytes × Disk)
  unfolding active_file_name open_or_create
  active_file info disk = elim (get info (codes "appenddirname")) [
    | none ↦ none
    | some dir ↦
        let path = join (work_dir ∷ dir ∷ active_file_name info disk ∷ []) in
        (elim (open_or_create path disk) [ none ↦ none | some opened ↦ some (path, opened) ])
  ]
